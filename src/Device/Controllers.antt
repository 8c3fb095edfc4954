-- ===== src/Device/Controllers.antt =====
-- device/ide.c: `ide_int`, which sets up the IDE channels, asks each drive for its description and
-- follows the partition tables of each channel's second drive. `printk` and `partition_info` only
-- print.
pub mod Bases
mod Examples
use winux_os.Base.{
  ℕ, zero, suc, ◌+◌, ◌-◌, ◌*◌, ◌/◌, Bool, true, false, Option, none, some, List, [], ◌∷◌, ◌++◌,
  ◌==◌, if◌then◌else◌, Bytes, update, get_or, u8, Outcome, ok, panic, ◌>>=◌, ◌>>◌,
}
use winux_os.Thread.{Threads}
use winux_os.Thread.Sync.{lock_init, sema_init}
use winux_os.Stdio.{sprintf}
use winux_os.Interrupt.{register_handler}
use winux_os.Device.Ide.{Disk, Channel}
use winux_os.Device.Ide.Identify.{DiskInfo, identify_disk}
use winux_os.Device.Partition.{
  Found, ScanState, ScanResult, scanned, stopped, too_deep, partition_scan,
}

-- What is on the other side of the cables, by channel and drive.
pub record Drives : Type 0 where
  pub disk : ℕ → ℕ → Disk
  pub id_info : ℕ → ℕ → Bytes
  pub answer : ℕ → ℕ → Bool

-- struct ide_channel with the names of its two drives, and the partitions of the second.
pub record IdeChannel : Type 0 where
  pub name : Bytes
  pub port_base : ℕ
  pub irq_no : ℕ
  pub channel : Channel
  pub hd_names : ℕ → Bytes
  pub prim_parts : ℕ → Found
  pub logic_parts : ℕ → Found

-- The channels, the table of handlers, ext_lba_base, and the partitions with their channels.
pub record Ide : Type 0 where
  pub channels : ℕ → IdeChannel
  pub idt_table : ℕ → ℕ
  pub ext_lba_base : ℕ
  pub partition_list : List (ℕ × Found)

-- `sprintf(name, format, arg)`: a format with one number or character in it.
unfoldable pub name_of : List ℕ → ℕ → Bytes → Outcome Bytes
unfolding sprintf
name_of format arg name = elim (sprintf 64 (λ _ _. 0) (λ i. get_or format i 0) (λ _. arg) name) [
  | none ↦ panic
  | some (text, len) ↦ ok text
]

-- `switch (channel_no)`: any other channel keeps its port and its interrupt.
unfoldable pub set_ports : ℕ → IdeChannel → IdeChannel
set_ports channel_no c =
    if channel_no == 0
    then record c { port_base = 0x1f0; irq_no = 0x20 + 14 }
    else if channel_no == 1
    then record c { port_base = 0x170; irq_no = 0x20 + 15 }
    else c

abbrev with_number : ℕ → List Found → List (ℕ × Found)
with_number channel_no [] = []
with_number channel_no (p ∷ ps) = (channel_no, p) ∷ with_number channel_no ps

-- `partition_scan(hd, 0)`, with p_no and l_no at 0: they are set back after every drive, and
-- ext_lba_base is not.
unfoldable pub scan_drive : ℕ → Disk → ℕ → IdeChannel → Ide → Outcome (IdeChannel × Ide)
unfolding partition_scan
scan_drive fuel disk channel_no c ide =
    elim (partition_scan fuel disk 0 (record {
      ext_lba_base = ide.ext_lba_base;
      p_no = 0;
      l_no = 0;
      prim_parts = c.prim_parts;
      logic_parts = c.logic_parts;
      partition_list = [];
    })) [
      | scanned st ↦ ok (
        record c { prim_parts = st.prim_parts; logic_parts = st.logic_parts },
        record ide {
          ext_lba_base = st.ext_lba_base;
          partition_list = ide.partition_list ++ with_number channel_no st.partition_list;
        },
      )
      | stopped ↦ panic
      | too_deep ↦ panic
    ]

-- One drive: "hd" and a letter is its name.
unfoldable pub init_drive :
    ℕ
    → Drives
    → (ℕ → ℕ → Bytes)
    → Threads
    → ℕ
    → ℕ
    → IdeChannel
    → Ide
    → Outcome (Threads × IdeChannel × Ide)
unfolding name_of identify_disk scan_drive
init_drive fuel drives junk s channel_no dev_no c ide = do
  name ←
      name_of (b'h' ∷ b'd' ∷ b'%' ∷ b'c' ∷ []) (b'a' + dev_no + channel_no * 2) (c.hd_names dev_no)
  (s', ch, info) ←
      identify_disk s c.channel dev_no (drives.id_info channel_no dev_no)
        (drives.answer channel_no dev_no) (junk channel_no dev_no)
  let c' = record c { channel = ch; hd_names = update c.hd_names dev_no name }
  (c'', ide') ←
      if dev_no == 0
      then ok (c', ide)
      else scan_drive fuel (drives.disk channel_no dev_no) channel_no c' ide
  ok (s', c'', ide')

unfoldable pub init_channel :
    ℕ → Drives → (ℕ → ℕ → Bytes) → ℕ → Threads → ℕ → Ide → Outcome (Threads × Ide)
unfolding set_ports init_drive
init_channel fuel drives junk intr_hd_handler s channel_no ide = do
  let c₀ = ide.channels channel_no
  name ← name_of (b'i' ∷ b'd' ∷ b'e' ∷ b'%' ∷ b'd' ∷ []) channel_no c₀.name
  let c₁ = set_ports channel_no (record c₀ { name = name })
  let c₂ = record c₁ {
    channel = record c₁.channel {
      expecting_intr = false;
      lock = lock_init;
      disk_done = sema_init 0;
    };
  }
  let ide₁ = record ide { idt_table = register_handler ide.idt_table c₂.irq_no intr_hd_handler }
  (s₁, c₃, ide₂) ← init_drive fuel drives junk s channel_no 0 c₂ ide₁
  (s₂, c₄, ide₃) ← init_drive fuel drives junk s₁ channel_no 1 c₃ ide₂
  ok (s₂, record ide₃ { channels = update ide₃.channels channel_no c₄ })

unfoldable pub init_channels :
    ℕ → Drives → (ℕ → ℕ → Bytes) → ℕ → ℕ → Threads → ℕ → Ide → Outcome (Threads × Ide)
unfolding init_channel
init_channels fuel drives junk handler zero s channel_no ide = ok (s, ide)
init_channels fuel drives junk handler (suc left) s channel_no ide =
    init_channel fuel drives junk handler s channel_no ide >>= λ (s', ide').
    init_channels fuel drives junk handler left s' (channel_no + 1) ide'

-- The number of drives is the BIOS's at 0x475. The fuel bounds the depth of partition tables.
unfoldable pub ide_int :
    ℕ → Drives → (ℕ → ℕ → Bytes) → ℕ → Threads → ℕ → Ide → Outcome (Threads × Ide)
unfolding init_channels
ide_int fuel drives junk handler s hd_cnt ide =
    init_channels fuel drives junk handler ((u8 hd_cnt + 1) / 2) s 0
      (record ide { partition_list = [] })
