-- ===== src/Device/Partition/Extended.antt =====
-- A well-formed extended partition: a chain of tables, each with one logical partition and, but for
-- the last, a link to the next.
use winux_os.Base.{
  ℕ, zero, suc, ◌+◌, ◌<◌, ◌≤◌, ◌≡◌, ◌≢◌, ◌∙◌, refl, true, false, List, [], ◌∷◌, ◌++◌, append_assoc,
  length, ◌==◌, leb, update, u8, u32, arith,
}
use winux_os.Device.Ide.{Disk}
use winux_os.Device.Partition.{
  Found, ScanState, ScanResult, scanned, fs_type_of, start_of, count_of, add_logic, scan_entry,
  scan_entries, partition_scan,
}

-- The table at `lba` has a logical partition in its first entry.
pub record IsLogical (disk : Disk) (lba : ℕ) (start cnt : ℕ) : Type 0 where
  pub not_mbr : lba ≢ 0
  pub used : fs_type_of disk lba 0 ≢ 0
  pub not_extended : fs_type_of disk lba 0 ≢ 5
  pub starts : u32 (lba + start_of disk lba 0) ≡ start
  pub counts : count_of disk lba 0 ≡ cnt
  pub third : fs_type_of disk lba 2 ≡ 0
  pub fourth : fs_type_of disk lba 3 ≡ 0

-- The tables from `lba` on, with the logical partitions that they hold. Links are relative to
-- `base`, the start of the extended partition.
pub data IsLinked (disk : Disk) (base : ℕ) : ℕ → List (ℕ × ℕ) → Type 0 where
  last :
      (lba start cnt : ℕ)
      → IsLogical disk lba start cnt
      → fs_type_of disk lba 1 ≡ 0
      → IsLinked disk base lba ((start, cnt) ∷ [])
  link :
      (lba start cnt : ℕ) (rest : List (ℕ × ℕ))
      → IsLogical disk lba start cnt
      → fs_type_of disk lba 1 ≡ 5
      → IsLinked disk base (u32 (base + start_of disk lba 1)) rest
      → IsLinked disk base lba ((start, cnt) ∷ rest)

-- The logical partitions, numbered from `l_no + 5` on.
abbrev pub numbered : ℕ → List (ℕ × ℕ) → List Found
numbered l_no [] = []
numbered l_no ((start, cnt) ∷ parts) =
    record { number = l_no + 5; start_lba = start; sec_cnt = cnt } ∷ numbered (l_no + 1) parts

module _ (disk : Disk) (base : ℕ) (extended : base ≢ 0) where
  abbrev added : ScanState → ℕ → ℕ → ScanState
  added st start cnt = record st {
    logic_parts =
        update st.logic_parts st.l_no
          (record { number = st.l_no + 5; start_lba = start; sec_cnt = cnt });
    partition_list =
        st.partition_list ++ record { number = st.l_no + 5; start_lba = start; sec_cnt = cnt } ∷ [];
    l_no = st.l_no + 1;
  }

  entry_logical :
      (scan : ℕ → ScanState → ScanResult) (lba start cnt : ℕ) (st : ScanState)
      → IsLogical disk lba start cnt
      → st.l_no < 8
      → scan_entry scan disk lba 0 st ≡ scanned (added st start cnt)
  unfolding scan_entry add_logic
  entry_logical scan lba start cnt st l room =
      let plain : (fs_type_of disk lba 0 == 5) ≡ false = ground (arith, l.not_extended) in
      let used : (fs_type_of disk lba 0 == 0) ≡ false = ground (arith, l.used) in
      let inner : (lba == 0) ≡ false = ground (arith, l.not_mbr) in
      let next : u8 (st.l_no + 1) ≡ st.l_no + 1 = omega arith in
      let allowed : leb (st.l_no + 1) 8 ≡ true = ground arith in
      rw (plain, used, inner, l.starts, l.counts, add_logic, next, allowed) refl

  entry_empty :
      (scan : ℕ → ScanState → ScanResult) (lba k : ℕ) (st : ScanState)
      → fs_type_of disk lba k ≡ 0
      → scan_entry scan disk lba k st ≡ scanned st
  unfolding scan_entry
  entry_empty scan lba k st h = rw h refl

  entry_link :
      (scan : ℕ → ScanState → ScanResult) (lba k : ℕ) (st : ScanState)
      → fs_type_of disk lba k ≡ 5
      → st.ext_lba_base ≡ base
      → scan_entry scan disk lba k st ≡ scan (u32 (base + start_of disk lba k)) st
  unfolding scan_entry
  entry_link scan lba k st h b =
      let some_base : (base == 0) ≡ false = ground arith in rw (h, b, some_base) refl

  -- From a chain of tables with at most eight logical partitions together with those before,
  -- `partition_scan` returns, with fuel for each table, and has added exactly the chain's
  -- partitions to the list, in order and numbered on from the last.
  pub partition_scan_lem :
      (fuel lba : ℕ) (parts : List (ℕ × ℕ)) (st : ScanState)
      → IsLinked disk base lba parts
      → st.ext_lba_base ≡ base
      → st.l_no + length parts ≤ 8
      → length parts ≤ fuel
      → (st' : ScanState) × (partition_scan fuel disk lba st ≡ scanned st')
        × (st'.partition_list ≡ st.partition_list ++ numbered st.l_no parts)
        × (st'.l_no ≡ st.l_no + length parts)
        × (st'.ext_lba_base ≡ base)
  unfolding partition_scan scan_entries
  partition_scan_lem zero lba _ st (last _ s c l e) b room f = absurd (omega arith)
  partition_scan_lem zero lba _ st (link _ s c rest l e k) b room f = absurd (omega arith)
  partition_scan_lem (suc fuel) lba _ st (last _ s c l e) b room f =
      let scan = partition_scan fuel disk in
      let st₁ = added st s c in
      (
        st₁,
        rw
            (
              entry_logical scan lba s c st l (omega arith),
              entry_empty scan lba 1 st₁ e,
              entry_empty scan lba 2 st₁ l.third,
              entry_empty scan lba 3 st₁ l.fourth,
            )
            refl,
        refl,
        refl,
        b,
      )
  partition_scan_lem (suc fuel) lba _ st (link _ s c rest l e k) b room f =
      let scan = partition_scan fuel disk in
      let st₁ = added st s c in
      let (st₂, run, list, count, kept) =
        partition_scan_lem fuel (u32 (base + start_of disk lba 1)) rest st₁ k b (omega arith)
          (omega arith) in
      (
        st₂,
        rw
            (
              entry_logical scan lba s c st l (omega arith),
              entry_link scan lba 1 st₁ e b,
              run,
              entry_empty scan lba 2 st₂ l.third,
              entry_empty scan lba 3 st₂ l.fourth,
            )
            refl,
        list ∙ append_assoc st.partition_list (_ ∷ []) (numbered (st.l_no + 1) rest),
        omega arith,
        kept,
      )
