-- ===== src/Device/Partition/Examples.antt =====
-- An extended partition at sector 100 with two logical partitions.
use winux_os.Base.{◌+◌, ◌≡◌, refl, [], ◌∷◌, ◌++◌, ◌==◌, if◌then◌else◌, arith, Bytes}
use winux_os.Fs.Words.{word_at}
use winux_os.Device.Ide.{Disk}
use winux_os.Device.Partition.{Found, ScanState, scanned, partition_scan}
use winux_os.Device.Partition.Extended.{
  IsLogical, IsLinked, last, link, numbered, partition_scan_lem,
}

-- The first table has 50 sectors from the one behind it on, and a link 60 sectors onward.
abbrev first_table : Bytes
first_table i =
    if i == 450
    then 0x83
    else if i == 454
    then 1
    else if i == 458
    then 50
    else if i == 466
    then 5
    else if i == 470
    then 60
    else 0

abbrev second_table : Bytes
second_table i = if i == 450 then 0x83 else if i == 454 then 1 else if i == 458 then 30 else 0

abbrev disk : Disk
disk s = if s == 100 then first_table else if s == 160 then second_table else λ i. 0

abbrev no_part : Found
no_part = record { number = 0; start_lba = 0; sec_cnt = 0 }

abbrev before : ScanState
before = record {
  ext_lba_base = 100;
  p_no = 1;
  l_no = 0;
  prim_parts = λ i. no_part;
  logic_parts = λ i. no_part;
  partition_list = no_part ∷ [];
}

first-IsLogical : IsLogical disk 100 101 50
unfolding word_at
first-IsLogical = record {
  not_mbr = λ e. absurd (omega arith);
  used = λ e. absurd (omega arith);
  not_extended = λ e. absurd (omega arith);
  starts = refl;
  counts = refl;
  third = refl;
  fourth = refl;
}

second-IsLogical : IsLogical disk 160 161 30
unfolding word_at
second-IsLogical = record {
  not_mbr = λ e. absurd (omega arith);
  used = λ e. absurd (omega arith);
  not_extended = λ e. absurd (omega arith);
  starts = refl;
  counts = refl;
  third = refl;
  fourth = refl;
}

chain : IsLinked disk 100 100 ((101, 50) ∷ (161, 30) ∷ [])
unfolding word_at
chain =
    link 100 101 50 ((161, 30) ∷ []) first-IsLogical refl (last 160 161 30 second-IsLogical refl)

partition_scan_lem_example :
    (st' : ScanState) × (partition_scan 2 disk 100 before ≡ scanned st')
    × (st'.partition_list ≡ before.partition_list ++ numbered 0 ((101, 50) ∷ (161, 30) ∷ []))
    × (st'.l_no ≡ 0 + 2)
    × (st'.ext_lba_base ≡ 100)
partition_scan_lem_example =
    partition_scan_lem disk 100 (λ e. absurd (omega arith)) 2 100 ((101, 50) ∷ (161, 30) ∷ [])
      before chain refl (omega arith) (omega arith)
