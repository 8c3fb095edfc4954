-- ===== src/Str/Compare.antt =====
-- lib/kernel/string.c: `strlen`, `strcmp` and `memcmp`, against strings as bytes up to the first zero.
use winux_os.Base.{
  ℕ, zero, suc, ◌+◌, ◌<◌, ◌≤◌, ◌≡◌, ◌≢◌, ◌⊎◌, inl, inr, ◌==◌, if◌then◌else◌, some, Bytes, arith,
  Bool-cases,
}
use winux_os.Str.{equal, char_cmp, strlen, strlen_from, strcmp, strcmp_from}

-- The string from `i` on ends at `n`.
abbrev pub IsEnd : Bytes → ℕ → ℕ → Type 0
IsEnd s i n = (i ≤ n) × (s n ≡ 0) × ((j : ℕ) → i ≤ j → j < n → s j ≢ 0)

strlen_from-end :
    (fuel : ℕ) (s : Bytes) (i n : ℕ) → IsEnd s i n → n < i + fuel → strlen_from fuel s i ≡ some n
unfolding strlen_from
strlen_from-end zero s i n (le, z, nz) h = absurd (omega arith)
strlen_from-end (suc fuel) s i n (le, z, nz) h = elim (Bool-cases (i == n)) [
  | inl here ↦ ground arith
  | inr there ↦
      let go =
        strlen_from-end fuel s (i + 1) n (ground arith, z, λ j p q. nz j (omega arith) q)
          (omega arith) in
      let more = nz i (omega arith) (ground arith) in ground arith
]

-- With fuel for the zero, `strlen` returns the number of bytes before the first zero.
pub strlen_lem : (fuel : ℕ) (s : Bytes) (n : ℕ) → IsEnd s 0 n → n < fuel → strlen fuel s ≡ some n
unfolding strlen
strlen_lem fuel s n e h = strlen_from-end fuel s 0 n e (omega arith)

-- `a` and `b` agree from `i` to `n`, where both end or differ.
strcmp_from-at :
    (fuel : ℕ) (a b : Bytes) (i n : ℕ)
    → i ≤ n
    → n < i + fuel
    → ((j : ℕ) → i ≤ j → j < n → (a j ≡ b j) × (a j ≢ 0))
    → ((a n ≡ 0) × (b n ≡ 0)) ⊎ (a n ≢ b n)
    → strcmp_from fuel a b i ≡ some (if a n == b n then equal else char_cmp (a n) (b n))
unfolding strcmp_from
strcmp_from-at zero a b i n le h agree stop = absurd (omega arith)
strcmp_from-at (suc fuel) a b i n le h agree stop = elim (Bool-cases (i == n)) [
  | inl here ↦ ground arith
  | inr there ↦
      let go =
        strcmp_from-at fuel a b (i + 1) n (ground arith) (omega arith)
          (λ j p q. agree j (omega arith) q) stop in
      let (same, more) = agree i (omega arith) (ground arith) in ground arith
]

-- `strcmp` of two strings that agree before `n`, where both end, is equal.
pub strcmp-equal :
    (fuel : ℕ) (a b : Bytes) (n : ℕ)
    → IsEnd a 0 n
    → IsEnd b 0 n
    → ((j : ℕ) → j < n → a j ≡ b j)
    → n < fuel
    → strcmp fuel a b ≡ some equal
unfolding strcmp
strcmp-equal fuel a b n (le, z, nz) (le', z', nz') same h =
    let go =
      strcmp_from-at fuel a b 0 n le (omega arith) (λ j p q. (same j q, nz j p q)) (inl (z, z')) in
    ground arith
