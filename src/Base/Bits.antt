-- ===== src/Base/Bits.antt =====
-- Single bits of a byte. The laws hold for every byte, by evaluation of all cases.
use Prim.Native.Nat.{ℕ, zero, suc, ◌-◌, ◌/◌, ◌%◌, ◌^◌, ◌<◌, bit_and, bit_or, bit_and-bitwise}
use mathlib.Core.Path.{◌≡◌, refl}
use mathlib.Core.Bool.{Bool, true, false, ◌&&◌, ◌||◌, not}
use native.Mathlib.Omega.{arith}
use winux_os.Base.Tests.{◌==◌}

abbrev pub u8 : ℕ → ℕ
u8 n = n % 2 ^ 8

abbrev pub u16 : ℕ → ℕ
u16 n = n % 2 ^ 16

abbrev pub u32 : ℕ → ℕ
u32 n = n % 2 ^ 32

-- `(byte & (1 << k)) != 0`
unfoldable pub has_bit : ℕ → ℕ → Bool
has_bit byte k = not (bit_and byte (2 ^ k) == 0)

no_bits : (mask : ℕ) → bit_and 0 mask ≡ 0
no_bits mask = bit_and-bitwise 0 mask

pub has_bit-zero : (k : ℕ) → has_bit 0 k ≡ false
unfolding has_bit
has_bit-zero k = rw (no_bits (2 ^ k))

-- A law of every number below a bound, tried from the top.
unfoldable pub all_below : ℕ → (ℕ → Bool) → Bool
all_below zero law = true
all_below (suc top) law = all_below top law && law top

pub all_below_sound :
    (bound : ℕ) (law : ℕ → Bool) (k : ℕ) → all_below bound law ≡ true → k < bound → law k ≡ true
unfolding all_below
all_below_sound zero law k all low = absurd (omega arith)
all_below_sound (suc top) law k all low = ground (arith, all_below_sound top law k)

abbrev pub same : Bool → Bool → Bool
same true b = b
same false b = not b

pub eq_of_same : (a b : Bool) → same a b ≡ true → a ≡ b
eq_of_same a b h = ground arith

abbrev set_law : ℕ → ℕ → ℕ → Bool
set_law b k j = same (has_bit (bit_or b (2 ^ k)) j) (k == j || has_bit b j)

abbrev clear_law : ℕ → ℕ → ℕ → Bool
clear_law b k j = same (has_bit (bit_and b (255 - 2 ^ k)) j) (not (k == j) && has_bit b j)

set_table : all_below 256 (λ b. all_below 8 (λ k. all_below 8 (set_law b k))) ≡ true
unfolding all_below has_bit
set_table = refl

clear_table : all_below 256 (λ b. all_below 8 (λ k. all_below 8 (clear_law b k))) ≡ true
unfolding all_below has_bit
clear_table = refl

module _ (b k j : ℕ) (hb : b < 256) (hk : k < 8) (hj : j < 8) where
  pub has_bit-bit_or : has_bit (bit_or b (2 ^ k)) j ≡ (k == j || has_bit b j)
  has_bit-bit_or = eq_of_same _ _ (
      all_below_sound 8 (set_law b k) j
        (all_below_sound 8 (λ k. all_below 8 (set_law b k)) k (all_below_sound 256 _ b set_table hb)
          hk)
        hj)

  pub has_bit-bit_and : has_bit (bit_and b (255 - 2 ^ k)) j ≡ (not (k == j) && has_bit b j)
  has_bit-bit_and = eq_of_same _ _ (
      all_below_sound 8 (clear_law b k) j
        (all_below_sound 8 (λ k. all_below 8 (clear_law b k)) k
          (all_below_sound 256 _ b clear_table hb) hk)
        hj)

-- Setting or clearing a bit keeps a byte a byte.
abbrev byte_law : ℕ → ℕ → Bool
byte_law b k = (bit_or b (2 ^ k) / 256 == 0) && (bit_and b (255 - 2 ^ k) / 256 == 0)

byte_table : all_below 256 (λ b. all_below 8 (byte_law b)) ≡ true
unfolding all_below
byte_table = refl

pub byte-lt :
    (b k : ℕ) → b < 256 → k < 8 → (bit_or b (2 ^ k) < 256) × (bit_and b (255 - 2 ^ k) < 256)
byte-lt b k hb hk =
    let h = all_below_sound 8 (byte_law b) k (all_below_sound 256 _ b byte_table hb) hk in
    ground arith
