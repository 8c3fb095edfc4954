-- ===== src/Bitmap.antt =====
-- lib/kernel/bitmap.c. The bytes that `bits` points to are a function, also past the last byte of
-- the map, since `bitmap_scan` reads there. An index found is `some`, the result -1 is `none`.
pub mod Update
pub mod Scan
pub mod Runs
mod Examples
use winux_os.Base.{
  ℕ, zero, suc, ◌+◌, ◌-◌, ◌*◌, ◌/◌, ◌%◌, ◌^◌, ◌<◌, bit_and, bit_or, Bool, true, false, not, Option,
  none, some, ◌==◌, ltb, if◌then◌else◌, Bytes, update, u8, has_bit, Outcome, ok, panic,
}

pub record Bitmap : Type 0 where
  pub btmp_bytes_len : ℕ
  pub bits : Bytes

-- Every cell holds a byte.
abbrev pub IsBytes : Bytes → Type 0
IsBytes p = (i : ℕ) → p i < 256

unfoldable pub init : Bitmap → Bitmap
init m = record m { bits = λ i. if ltb i m.btmp_bytes_len then 0 else m.bits i }

-- The mask is an `int`, so it is not cut off; the callers test the result against zero.
unfoldable pub scan_test : Bitmap → ℕ → Bool
unfolding has_bit
scan_test m bit_idx = has_bit (m.bits (bit_idx / 8)) (bit_idx % 8)

-- `byte_idx` is declared `uint8_t`.
unfoldable pub set : Bitmap → ℕ → ℕ → Outcome Bitmap
set m bit_idx value =
    if ltb 1 value
    then panic
    else (let byte_idx = u8 (bit_idx / 8) in
        let bit_remain = bit_idx % 8 in
        let old = m.bits byte_idx in
        ok (record m {
          bits = update m.bits byte_idx (
              if value == 0
              then bit_and old (255 - 2 ^ bit_remain)
              else bit_or old (2 ^ bit_remain));
        }))

-- `while (0xff == bits[idx] && idx < len)`: `left` is `len - idx`.
unfoldable pub skip_full : Bytes → ℕ → ℕ → ℕ
skip_full bits zero idx = idx
skip_full bits (suc left) idx =
    let rest = skip_full bits left (idx + 1) in if bits idx == 255 then rest else idx

-- `while ((uint8_t)(1 << idx_bit) & byte)`: the mask is 0 from bit 8 on; `left` is `8 - idx_bit`.
skip_used : ℕ → ℕ → ℕ → ℕ
skip_used byte zero idx_bit = idx_bit
skip_used byte (suc left) idx_bit =
    let rest = skip_used byte left (idx_bit + 1) in if has_bit byte idx_bit then rest else idx_bit

-- `while (bit_left-- > 0)`, with the loop's `next_bit` and `count`.
unfoldable pub find_run : Bitmap → ℕ → ℕ → ℕ → ℕ → Option ℕ
find_run m cnt zero next_bit count = none
find_run m cnt (suc bit_left) next_bit count =
    let count' = if scan_test m next_bit then 0 else count + 1 in
    let rest = find_run m cnt bit_left (next_bit + 1) count' in
    if count' == cnt then some (next_bit + 1 - cnt) else rest

-- The first free bit, once the byte that holds it is known.
unfoldable pub first_free : Bitmap → ℕ → ℕ
unfolding skip_used has_bit
first_free m idx_byte = idx_byte * 8 + skip_used (m.bits idx_byte) 8 0

-- The source counts bits in 32-bit integers, which the maps of this program do not exceed.
unfoldable pub scan : Bitmap → ℕ → Outcome (Option ℕ)
unfolding skip_full find_run first_free scan_test
scan m cnt =
    let len = m.btmp_bytes_len in
    let idx_byte = skip_full m.bits len 0 in
    if ltb idx_byte len
    then if idx_byte == len
      then ok none
      else (let start = first_free m idx_byte in
          if cnt == 1 then ok (some start) else ok (find_run m cnt (len * 8 - start) (start + 1) 1))
    else panic
