-- ===== src/Device/Controllers/Bases.antt =====
-- What `ide_int` finds on drives that hold logical partitions alone: `ext_lba_base` is not set back
-- between them.
use winux_os.Base.{
  ℕ, suc, ◌+◌, ◌≤◌, ◌≡◌, ◌≢◌, ◌∙◌, refl, sym, ap, subst, List, [], ◌++◌, append-nil, length, u32,
  ok, arith,
}
use winux_os.Device.Ide.{Disk}
use winux_os.Device.Partition.{
  ScanState, ScanResult, scanned, fs_type_of, start_of, scan_entry, partition_scan,
}
use winux_os.Device.Partition.Extended.{IsLinked, numbered, partition_scan_lem}
use winux_os.Device.Controllers.{IdeChannel, Ide, with_number, scan_drive}

-- The first sector has one entry, of an extended partition at `start`.
pub record HoldsExtended (disk : Disk) (start : ℕ) : Type 0 where
  pub extended : fs_type_of disk 0 0 ≡ 5
  pub begins : start_of disk 0 0 ≡ start
  pub not_zero : start ≢ 0
  pub second : fs_type_of disk 0 1 ≡ 0
  pub third : fs_type_of disk 0 2 ≡ 0
  pub fourth : fs_type_of disk 0 3 ≡ 0

-- The sector holds no partition table, or an empty one.
pub record IsEmptyTable (disk : Disk) (lba : ℕ) : Type 0 where
  pub first : fs_type_of disk lba 0 ≡ 0
  pub second : fs_type_of disk lba 1 ≡ 0
  pub third : fs_type_of disk lba 2 ≡ 0
  pub fourth : fs_type_of disk lba 3 ≡ 0

empty_entry :
    (scan : ℕ → ScanState → ScanResult) (disk : Disk) (lba k : ℕ) (st : ScanState)
    → fs_type_of disk lba k ≡ 0
    → scan_entry scan disk lba k st ≡ scanned st
unfolding scan_entry
empty_entry scan disk lba k st e = ground arith

module _ (disk : Disk) (start : ℕ) (mbr : HoldsExtended disk start) where
  first_entry :
      (scan : ℕ → ScanState → ScanResult) (st : ScanState)
      → st.ext_lba_base ≡ 0
      → scan_entry scan disk 0 0 st ≡ scan start (record st { ext_lba_base = start })
  unfolding scan_entry
  first_entry scan st e = ground (arith, mbr.extended, mbr.begins)

  stale_entry :
      (scan : ℕ → ScanState → ScanResult) (st : ScanState)
      → st.ext_lba_base ≢ 0
      → scan_entry scan disk 0 0 st ≡ scan (u32 (st.ext_lba_base + start)) st
  unfolding scan_entry
  stale_entry scan st e = ground (arith, mbr.extended, mbr.begins)

  scan_found :
      (fuel : ℕ) (parts : List (ℕ × ℕ)) (st : ScanState)
      → IsLinked disk start start parts
      → st.ext_lba_base ≡ 0
      → st.l_no + length parts ≤ 8
      → length parts ≤ fuel
      → (st' : ScanState) × (partition_scan (suc fuel) disk 0 st ≡ scanned st')
        × (st'.partition_list ≡ st.partition_list ++ numbered st.l_no parts)
        × (st'.ext_lba_base ≡ start)
  unfolding partition_scan
  scan_found fuel parts st chain none_yet room enough =
      let scan = partition_scan fuel disk in
      let (st', run, list, count, kept) =
        partition_scan_lem disk start mbr.not_zero fuel start parts
          (record st { ext_lba_base = start }) chain refl room enough in
      (
        st',
        rw
            (
              first_entry scan st none_yet,
              run,
              empty_entry scan disk 0 1 st' mbr.second,
              empty_entry scan disk 0 2 st' mbr.third,
              empty_entry scan disk 0 3 st' mbr.fourth,
            )
            refl,
        list,
        kept,
      )

  scan_lost :
      (fuel : ℕ) (st : ScanState)
      → st.ext_lba_base ≢ 0
      → IsEmptyTable disk (u32 (st.ext_lba_base + start))
      → partition_scan (suc (suc fuel)) disk 0 st ≡ scanned st
  unfolding partition_scan
  scan_lost fuel st some_base empty =
      let lba = u32 (st.ext_lba_base + start) in
      let scan = partition_scan fuel disk in
      let scan' = partition_scan (suc fuel) disk in
      rw
        (
          stale_entry scan' st some_base,
          empty_entry scan disk lba 0 st empty.first,
          empty_entry scan disk lba 1 st empty.second,
          empty_entry scan disk lba 2 st empty.third,
          empty_entry scan disk lba 3 st empty.fourth,
          empty_entry scan' disk 0 1 st mbr.second,
          empty_entry scan' disk 0 2 st mbr.third,
          empty_entry scan' disk 0 3 st mbr.fourth,
        )
        refl

-- No partition of the drive is found yet.
abbrev begin : ℕ → IdeChannel → ScanState
begin base c = record {
  ext_lba_base = base;
  p_no = 0;
  l_no = 0;
  prim_parts = c.prim_parts;
  logic_parts = c.logic_parts;
  partition_list = [];
}

scan_drive-scanned :
    (fuel : ℕ) (disk : Disk) (ch : ℕ) (c : IdeChannel) (ide : Ide) (st : ScanState)
    → partition_scan fuel disk 0 (begin ide.ext_lba_base c) ≡ scanned st
    → scan_drive fuel disk ch c ide
      ≡ ok (
        record c { prim_parts = st.prim_parts; logic_parts = st.logic_parts },
        record ide {
          ext_lba_base = st.ext_lba_base;
          partition_list = ide.partition_list ++ with_number ch st.partition_list;
        },
      )
unfolding scan_drive
scan_drive-scanned fuel disk ch c ide st run = rw (scan_drive, run) refl

-- Of two drives that each hold an extended partition and nothing else, `scan_drive` finds the
-- partitions of the first, at most eight in a chain of tables, all in order, with fuel for each
-- table and two more, while `ext_lba_base` is zero. It then looks for the second drive's table at
-- the sum of the two starts, and where that sector has no entries it finds nothing and changes
-- nothing.
pub scan_drive-lost :
    (fuel : ℕ) (d₁ d₂ : Disk) (start₁ start₂ ch₁ ch₂ : ℕ) (c₁ c₂ : IdeChannel) (ide : Ide)
    (parts : List (ℕ × ℕ))
    → HoldsExtended d₁ start₁
    → HoldsExtended d₂ start₂
    → IsLinked d₁ start₁ start₁ parts
    → length parts ≤ 8
    → length parts ≤ fuel
    → ide.ext_lba_base ≡ 0
    → IsEmptyTable d₂ (u32 (start₁ + start₂))
    → (c₁' : IdeChannel) × (ide' : Ide) × (scan_drive (suc (suc fuel)) d₁ ch₁ c₁ ide
        ≡ ok (c₁', ide'))
      × (ide'.partition_list ≡ ide.partition_list ++ with_number ch₁ (numbered 0 parts))
      × (scan_drive (suc (suc fuel)) d₂ ch₂ c₂ ide' ≡ ok (c₂, ide'))
scan_drive-lost fuel d₁ d₂ start₁ start₂ ch₁ ch₂ c₁ c₂ ide parts h₁ h₂ chain few enough none_yet
      empty =
    let (st, run, list, base) =
      scan_found d₁ start₁ h₁ (suc fuel) parts (begin ide.ext_lba_base c₁) chain none_yet
        (omega arith) (omega arith) in
    let lost =
      scan_lost d₂ start₂ h₂ fuel (begin st.ext_lba_base c₂) (λ e. h₁.not_zero (sym base ∙ e))
        (subst (λ b. IsEmptyTable d₂ (u32 (b + start₂))) (sym base) empty) in
    let ide' : Ide = record ide {
      ext_lba_base = st.ext_lba_base;
      partition_list = ide.partition_list ++ with_number ch₁ st.partition_list;
    } in
    (
      record c₁ { prim_parts = st.prim_parts; logic_parts = st.logic_parts },
      ide',
      scan_drive-scanned (suc (suc fuel)) d₁ ch₁ c₁ ide st run,
      ap (λ ps. ide.partition_list ++ with_number ch₁ ps) list,
      scan_drive-scanned (suc (suc fuel)) d₂ ch₂ c₂ ide' (begin st.ext_lba_base c₂) lost
          ∙ ap (λ ps. ok (c₂, record ide' { partition_list = ps }))
              (append-nil ide'.partition_list),
    )
