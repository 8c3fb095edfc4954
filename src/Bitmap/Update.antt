-- ===== src/Bitmap/Update.antt =====
-- What `bitmap_set` does to every bit.
use winux_os.Base.{
  ℕ, ◌-◌, ◌*◌, ◌/◌, ◌%◌, ◌^◌, ◌<◌, ◌≤◌, bit_and, bit_or, ◌≡◌, ◌≢◌, ap, true, false, not, ◌==◌, ltb,
  if◌then◌else◌, update, u8, has_bit, has_bit-bit_or, has_bit-bit_and, has_bit-zero, byte-lt, ok,
  arith, inl, inr, Bool-cases,
}
use winux_os.Bitmap.{Bitmap, IsBytes, init, set, scan_test}

-- The map after writing `value` at bit `i`, with the index of the byte cut to eight bits.
abbrev pub after : Bitmap → ℕ → ℕ → Bitmap
after m i value = record m {
  bits = update m.bits (u8 (i / 8)) (
      if value == 0
      then bit_and (m.bits (u8 (i / 8))) (255 - 2 ^ (i % 8))
      else bit_or (m.bits (u8 (i / 8))) (2 ^ (i % 8)));
}

pub set-after : (m : Bitmap) (i value : ℕ) → value ≤ 1 → set m i value ≡ ok (after m i value)
unfolding set
set-after m i value h = ground arith

pub after-IsBytes : (m : Bitmap) (i value : ℕ) → IsBytes m.bits → IsBytes (after m i value).bits
after-IsBytes m i value h j =
    let b = byte-lt (m.bits (u8 (i / 8))) (i % 8) (h (u8 (i / 8))) (omega arith) in
    ground (arith, h j)

-- Bits in another byte stay, bits of the same byte follow the tables.
test-after_near :
    (m : Bitmap) (i j value : ℕ)
    → IsBytes m.bits
    → u8 (i / 8) ≡ j / 8
    → scan_test (after m i value) j ≡ (if i % 8 == j % 8 then not (value == 0) else scan_test m j)
unfolding scan_test
test-after_near m i j value h e =
    let b = h (u8 (i / 8)) in
    ground (
      arith,
      has_bit-bit_or (m.bits (u8 (i / 8))) (i % 8) (j % 8) b (omega arith) (omega arith),
      has_bit-bit_and (m.bits (u8 (i / 8))) (i % 8) (j % 8) b (omega arith) (omega arith),
    )

test-after_far :
    (m : Bitmap) (i j value : ℕ)
    → u8 (i / 8) ≢ j / 8
    → scan_test (after m i value) j ≡ scan_test m j
unfolding scan_test
test-after_far m i j value ne = ap (λ b. has_bit b (j % 8)) (ground arith)

-- What the code does, at every index: the bit that changes is `i % 2048`.
pub test-after :
    (m : Bitmap) (i j value : ℕ)
    → IsBytes m.bits
    → scan_test (after m i value) j ≡ (if i % 2048 == j then not (value == 0) else scan_test m j)
test-after m i j value h = elim (Bool-cases (u8 (i / 8) == j / 8)) [
  | inl near ↦ ground (arith, test-after_near m i j value h (ground arith))
  | inr far ↦ ground (arith, test-after_far m i j value (ground arith))
]

-- On a map of bytes `bitmap_set` of a bit below 2048 to 0 or 1 writes that bit and leaves every
-- other bit.
pub test-set :
    (m : Bitmap) (i j value : ℕ)
    → IsBytes m.bits
    → value ≤ 1
    → i < 2048
    → (m' : Bitmap) × (set m i value ≡ ok m')
      × (scan_test m' j ≡ (if i == j then not (value == 0) else scan_test m j))
test-set m i j value h v small =
    (after m i value, set-after m i value v, ground (arith, test-after m i j value h))

-- `bitmap_set` at any index is `bitmap_set` at the index modulo 2048.
pub set-mod : (m : Bitmap) (i value : ℕ) → set m i value ≡ set m (i % 2048) value
unfolding set
set-mod m i value =
    let e : u8 (i / 8) ≡ u8 (i % 2048 / 8) = omega arith in
    let f : i % 8 ≡ i % 2048 % 8 = omega arith in rw (e, f)

-- `bitmap_init` clears every bit of the map.
pub test-init : (m : Bitmap) (j : ℕ) → j < m.btmp_bytes_len * 8 → scan_test (init m) j ≡ false
unfolding scan_test init
test-init m j h = let e : ltb (j / 8) m.btmp_bytes_len ≡ true = ground arith in rw (e, has_bit-zero)
