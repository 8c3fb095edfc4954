-- ===== src/Device/Controllers/Examples.antt =====
-- Two equal drives with an extended partition at sector 100, which holds one logical partition; and
-- the channel of one drive as `init_channel` sets it up.
use winux_os.Base.{
  ℕ, ◌+◌, ◌≡◌, refl, false, List, [], ◌∷◌, ◌++◌, ◌==◌, if◌then◌else◌, arith, Bytes, ok, Outcome,
  panic, blocked,
}
use winux_os.Fs.Words.{word_at}
use winux_os.Thread.Sync.{lock_init, sema_init}
use winux_os.Device.Ide.{Disk}
use winux_os.Device.Partition.{Found}
use winux_os.Device.Partition.Extended.{IsLogical, last, numbered}
use winux_os.Device.Controllers.{IdeChannel, Ide, with_number, scan_drive, name_of}
use winux_os.Device.Controllers.Bases.{HoldsExtended, scan_drive-lost}

abbrev boot_sector : Bytes
boot_sector i = if i == 450 then 5 else if i == 454 then 100 else 0

abbrev table : Bytes
table i = if i == 450 then 0x83 else if i == 454 then 1 else if i == 458 then 50 else 0

abbrev disk : Disk
disk s = if s == 0 then boot_sector else if s == 100 then table else λ i. 0

abbrev no_part : Found
no_part = record { number = 0; start_lba = 0; sec_cnt = 0 }

abbrev idle_channel : IdeChannel
idle_channel = record {
  name = λ i. 0;
  port_base = 0;
  irq_no = 0;
  channel = record {
    lock = lock_init;
    expecting_intr = false;
    disk_done = sema_init 0;
    registers = record { sect_cnt = 0; lba_l = 0; lba_m = 0; lba_h = 0; dev = 0 };
  };
  hd_names = λ n i. 0;
  prim_parts = λ i. no_part;
  logic_parts = λ i. no_part;
}

abbrev ide : Ide
ide = record {
  channels = λ n. idle_channel;
  idt_table = λ n. 0;
  ext_lba_base = 0;
  partition_list = [];
}

disk-HoldsExtended : HoldsExtended disk 100
unfolding word_at
disk-HoldsExtended = record {
  extended = refl;
  begins = refl;
  not_zero = omega arith;
  second = refl;
  third = refl;
  fourth = refl;
}

table-IsLogical : IsLogical disk 100 101 50
unfolding word_at
table-IsLogical = record {
  not_mbr = omega arith;
  used = omega arith;
  not_extended = omega arith;
  starts = refl;
  counts = refl;
  third = refl;
  fourth = refl;
}

scan_drive-lost_example :
    (c₁' : IdeChannel) × (ide' : Ide) × (scan_drive 3 disk 0 idle_channel ide ≡ ok (c₁', ide'))
    × (ide'.partition_list ≡ [] ++ with_number 0 (numbered 0 ((101, 50) ∷ [])))
    × (scan_drive 3 disk 1 idle_channel ide' ≡ ok (idle_channel, ide'))
scan_drive-lost_example =
    scan_drive-lost 1 disk disk 100 100 0 1 idle_channel idle_channel ide ((101, 50) ∷ [])
      disk-HoldsExtended disk-HoldsExtended (last 100 101 50 table-IsLogical refl) (omega arith)
      (omega arith) refl (record { first = refl; second = refl; third = refl; fourth = refl })

-- The first four characters of a name.
abbrev four : Outcome Bytes → List ℕ
four (ok s) = s 0 ∷ s 1 ∷ s 2 ∷ s 3 ∷ []
four panic = []
four blocked = []

second_drive :
    four (name_of (b'h' ∷ b'd' ∷ b'%' ∷ b'c' ∷ []) (b'a' + 1) (λ i. 0))
    ≡ b'h' ∷ b'd' ∷ b'b' ∷ 0 ∷ []
unfolding name_of
second_drive = refl

first_channel :
    four (name_of (b'i' ∷ b'd' ∷ b'e' ∷ b'%' ∷ b'd' ∷ []) 0 (λ i. 0))
    ≡ b'i' ∷ b'd' ∷ b'e' ∷ b'0' ∷ []
unfolding name_of
first_channel = refl
