-- ===== src/Bitmap/Examples.antt =====
-- The bitmap's theorems at small maps.
use winux_os.Base.{
  ℕ, ◌+◌, ◌*◌, ◌<◌, ◌≤◌, ◌≡◌, refl, true, not, some, ◌==◌, if◌then◌else◌, ok, arith, all_below,
  all_below_sound,
}
use winux_os.Bitmap
use winux_os.Bitmap.{Bitmap, IsBytes, scan, scan_test}
use winux_os.Bitmap.Scan.{IsFirstFree, scan-one}
use winux_os.Bitmap.Update.{test-set}
use winux_os.Bitmap.Runs.{IsFree, scan-IsFree}

-- The first byte is full, in the second bits 0, 1 and 3 are taken.
abbrev holed_map : Bitmap
holed_map = record {
  btmp_bytes_len = 2;
  bits = λ i. if i == 0 then 255 else if i == 1 then 11 else 0;
}

abbrev full_map : Bitmap
full_map = record { btmp_bytes_len = 2; bits = λ i. if i == 2 then 0 else 255 }

holed_map-IsBytes : IsBytes holed_map.bits
holed_map-IsBytes i = ground arith

full_map-IsBytes : IsBytes full_map.bits
full_map-IsBytes i = ground arith

scan-one_example : (s : ℕ) × (scan holed_map 1 ≡ ok (some s)) × IsFirstFree holed_map s
scan-one_example = scan-one holed_map holed_map-IsBytes 12 (omega arith) (unfold scan_test in refl)

all_taken : (j : ℕ) → j < 16 → scan_test full_map j ≡ true
unfolding scan_test
all_taken j h = all_below_sound 16 (scan_test full_map) j (unfold all_below in refl) h

test-set_example :
    (m' : Bitmap) × (Bitmap.set holed_map 10 1 ≡ ok m')
    × (scan_test m' 12 ≡ (if 10 == 12 then not (1 == 0) else scan_test holed_map 12))
test-set_example = test-set holed_map 10 12 1 holed_map-IsBytes (omega arith) (omega arith)

scan-IsFree_example : IsFree holed_map 12 4 × (12 + 4 ≤ 2 * 8 + 1)
scan-IsFree_example =
    scan-IsFree holed_map holed_map-IsBytes 4 12 (omega arith) (omega arith)
      (unfold scan_test in refl) 12 (unfold scan in refl)
