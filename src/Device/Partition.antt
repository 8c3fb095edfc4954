-- ===== src/Device/Partition.antt =====
-- device/ide.c: `partition_scan`, which follows the partition tables of a disk. The disk is its
-- sectors, as `ide_read` reads them, and the buffer for a sector is always granted.
pub mod Extended
mod Examples
use winux_os.Base.{
  ℕ, zero, suc, ◌+◌, ◌*◌, Bool, true, false, List, [], ◌∷◌, ◌++◌, ◌==◌, leb, if◌then◌else◌, update,
  u8, u32,
}
use winux_os.Device.Ide.{Disk}
use winux_os.Fs.Words.{word_at}

-- What a partition gets: the number in its name, and where it lies.
pub record Found : Type 0 where
  pub number : ℕ
  pub start_lba : ℕ
  pub sec_cnt : ℕ

-- ext_lba_base, p_no, l_no, the two arrays of the disk, and partition_list.
pub record ScanState : Type 0 where
  pub ext_lba_base : ℕ
  pub p_no : ℕ
  pub l_no : ℕ
  pub prim_parts : ℕ → Found
  pub logic_parts : ℕ → Found
  pub partition_list : List Found

-- `stopped`: the ASSERT on `l_no`. `too_deep`: the tables are nested deeper than the fuel.
pub data ScanResult : Type 0 where
  scanned : ScanState → ScanResult
  stopped too_deep : ScanResult

infixl 5 ◌>>=◌
abbrev pub ◌>>=◌ : ScanResult → (ScanState → ScanResult) → ScanResult
scanned st >>= next = next st
stopped >>= next = stopped
too_deep >>= next = too_deep

-- Entry `k` of the table at the end of a sector: its type, first sector and length.
abbrev pub fs_type_of : Disk → ℕ → ℕ → ℕ
fs_type_of disk lba k = disk lba (446 + 16 * k + 4)

abbrev pub start_of : Disk → ℕ → ℕ → ℕ
start_of disk lba k = word_at (λ j. disk lba (446 + 16 * k + j)) 2

abbrev pub count_of : Disk → ℕ → ℕ → ℕ
count_of disk lba k = word_at (λ j. disk lba (446 + 16 * k + j)) 3

unfoldable pub add_primary : ScanState → ℕ → ℕ → ScanResult
add_primary st start cnt =
    let part : Found = record { number = st.p_no + 1; start_lba = start; sec_cnt = cnt } in
    scanned (record st {
      prim_parts = update st.prim_parts st.p_no part;
      partition_list = st.partition_list ++ part ∷ [];
      p_no = u8 (st.p_no + 1);
    })

unfoldable pub add_logic : ScanState → ℕ → ℕ → ScanResult
add_logic st start cnt =
    let part : Found = record { number = st.l_no + 5; start_lba = start; sec_cnt = cnt } in
    if leb (u8 (st.l_no + 1)) 8
    then scanned (record st {
      logic_parts = update st.logic_parts st.l_no part;
      partition_list = st.partition_list ++ part ∷ [];
      l_no = u8 (st.l_no + 1);
    })
    else stopped

-- One round of the loop; `scan` is the recursive call.
unfoldable pub scan_entry : (ℕ → ScanState → ScanResult) → Disk → ℕ → ℕ → ScanState → ScanResult
unfolding add_primary add_logic
scan_entry scan disk ext_lba k st =
    if fs_type_of disk ext_lba k == 5
    then (if st.ext_lba_base == 0
        then scan (start_of disk ext_lba k) (record st { ext_lba_base = start_of disk ext_lba k })
        else scan (u32 (st.ext_lba_base + start_of disk ext_lba k)) st)
    else if fs_type_of disk ext_lba k == 0
    then scanned st
    else if ext_lba == 0
    then add_primary st (start_of disk ext_lba k) (count_of disk ext_lba k)
    else add_logic st (u32 (ext_lba + start_of disk ext_lba k)) (count_of disk ext_lba k)

unfoldable pub scan_entries :
    (ℕ → ScanState → ScanResult) → Disk → ℕ → ℕ → ℕ → ScanState → ScanResult
unfolding scan_entry
scan_entries scan disk ext_lba zero k st = scanned st
scan_entries scan disk ext_lba (suc left) k st =
    scan_entry scan disk ext_lba k st >>= λ st'. scan_entries scan disk ext_lba left (k + 1) st'

-- `fuel` bounds the depth of the recursion, which a damaged disk could make endless.
unfoldable pub partition_scan : ℕ → Disk → ℕ → ScanState → ScanResult
unfolding scan_entries
partition_scan zero disk ext_lba st = too_deep
partition_scan (suc fuel) disk ext_lba st =
    scan_entries (λ lba s. partition_scan fuel disk lba s) disk ext_lba 4 0 st
