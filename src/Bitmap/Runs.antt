-- ===== src/Bitmap/Runs.antt =====
-- `bitmap_scan` for several bits: the run that it returns, and when it returns none.
use winux_os.Base.{
  ℕ, zero, suc, ◌+◌, ◌-◌, ◌*◌, ◌<◌, ◌≤◌, ◌≡◌, ◌∙◌, ap, sym, true, false, Option, none, some, ◌⊎◌,
  ◌==◌, ltb, ok, arith, Bool-cases, inl, inr,
}
use winux_os.Bitmap.{Bitmap, IsBytes, find_run, scan, scan_test}
use winux_os.Bitmap.Scan.{scan_many}

-- Every bit of `[s, s + cnt)` is clear.
abbrev pub IsFree : Bitmap → ℕ → ℕ → Type 0
IsFree m s cnt = (j : ℕ) → s ≤ j → j < s + cnt → scan_test m j ≡ false

-- Some bit of `[s, s + cnt)` is set.
abbrev pub IsTaken : Bitmap → ℕ → ℕ → Type 0
IsTaken m s cnt = (j : ℕ) × (s ≤ j) × (j < s + cnt) × (scan_test m j ≡ true)

module _ (m : Bitmap) (cnt : ℕ) where
  -- What `find_run` returns is a run of `cnt` clear bits that ends at most at `stop`.
  find_run-IsFree :
      (left next count s stop : ℕ)
      → next + left ≡ stop
      → count ≤ next
      → IsFree m (next - count) count
      → find_run m cnt left next count ≡ some s
      → IsFree m s cnt × (s + cnt ≤ stop)
  unfolding find_run
  find_run-IsFree zero next count s stop e le run h = cc
  find_run-IsFree (suc left) next count s stop e le run h = elim (Bool-cases (scan_test m next)) [
    | inl used ↦ elim (Bool-cases (0 == cnt)) [
      | inl hit ↦ ((λ j p q. absurd (ground arith)), ground arith)
      | inr miss ↦
          find_run-IsFree left (next + 1) 0 s stop (omega arith) (omega arith)
            (λ j p q. absurd (omega arith)) (ground arith)
    ]
    | inr unused ↦ elim (Bool-cases ((count + 1) == cnt)) [
      | inl hit ↦ ((λ j p q. extend unused j (ground arith) (ground arith)), ground arith)
      | inr miss ↦
          find_run-IsFree left (next + 1) (count + 1) s stop (omega arith) (omega arith)
            (λ j p q. extend unused j (omega arith) (omega arith)) (ground arith)
    ]
  ]
    where
      extend :
          scan_test m next ≡ false
          → (j : ℕ) → next - count ≤ j
          → j < next + 1
          → scan_test m j ≡ false
      extend unused j p q = elim (Bool-cases (j == next)) [
        | inl here ↦ let t : j ≡ next = ground arith in ground arith
        | inr there ↦ run j p (ground arith)
      ]

  -- The run counted so far begins at `start` or behind a set bit.
  abbrev Edge : ℕ → ℕ → ℕ → Type 0
  Edge start next count =
      (next ≡ start + count) ⊎ ((start + count < next) × (scan_test m (next - count - 1) ≡ true))

  -- Every window that ends at `next` at the latest has a set bit.
  abbrev Seen : ℕ → ℕ → Type 0
  Seen start next = (s : ℕ) → start ≤ s → s + cnt ≤ next → IsTaken m s cnt

  Seen-used :
      (start next : ℕ) → scan_test m next ≡ true → 0 < cnt → Seen start next → Seen start (next + 1)
  Seen-used start next used pos seen s p q = elim (Bool-cases (ltb next (s + cnt))) [
    | inl last ↦ (next, ground arith, ground arith, used)
    | inr sooner ↦ seen s p (ground arith)
  ]

  Seen-unused :
      (start next count : ℕ)
      → count + 1 < cnt
      → Edge start next count
      → Seen start next
      → Seen start (next + 1)
  Seen-unused start next count few (inl e) seen s p q = seen s p (omega arith)
  Seen-unused start next count few (inr (lt, set)) seen s p q =
      elim (Bool-cases (ltb next (s + cnt))) [
        | inl last ↦ (next - count - 1, ground arith, ground arith, set)
        | inr sooner ↦ seen s p (ground arith)
      ]

  Edge-used : (start next : ℕ) → start ≤ next → scan_test m next ≡ true → Edge start (next + 1) 0
  Edge-used start next le used =
      let e : next + 1 - 0 - 1 ≡ next = omega arith in inr (omega arith, rw e used)

  Edge-unused : (start next count : ℕ) → Edge start next count → Edge start (next + 1) (count + 1)
  Edge-unused start next count (inl e) = inl (omega arith)
  Edge-unused start next count (inr (lt, set)) =
      let e : next + 1 - (count + 1) - 1 ≡ next - count - 1 = omega arith in
      inr (omega arith, rw e set)

  -- If `find_run` returns none, every run of `cnt` bits between `start` and `stop` has a set bit.
  find_run-IsTaken :
      (left next count start stop : ℕ)
      → next + left ≡ stop
      → start + count ≤ next
      → count < cnt
      → Edge start next count
      → Seen start next
      → find_run m cnt left next count ≡ none
      → Seen start stop
  unfolding find_run
  find_run-IsTaken zero next count start stop e le few edge seen h = λ s p q. seen s p (omega arith)
  find_run-IsTaken (suc left) next count start stop e le few edge seen h =
      elim (Bool-cases (scan_test m next)) [
        | inl used ↦
            find_run-IsTaken left (next + 1) 0 start stop (omega arith) (omega arith) (omega arith)
              (Edge-used start next (omega arith) used)
              (Seen-used start next used (omega arith) seen) (ground arith)
        | inr unused ↦
            find_run-IsTaken left (next + 1) (count + 1) start stop (omega arith) (omega arith)
              (ground arith) (Edge-unused start next count edge)
              (Seen-unused start next count (ground arith) edge seen) (ground arith)
      ]

ok_injective : {a b : Option ℕ} → ok a ≡ ok b → a ≡ b
ok_injective h = cc

module _ (m : Bitmap) (h : IsBytes m.bits) (cnt f : ℕ) (many : 1 < cnt)
    (inside : f < m.btmp_bytes_len * 8) (free : scan_test m f ≡ false) where
  -- On a map of bytes with a free bit inside, a run that `bitmap_scan` returns for two bits or
  -- more is all clear, and ends at most one bit after the end of the map.
  pub scan-IsFree :
      (s : ℕ) → scan m cnt ≡ ok (some s) → IsFree m s cnt × (s + cnt ≤ m.btmp_bytes_len * 8 + 1)
  scan-IsFree s found =
      let (s₀, first, e) = scan_many m h cnt (omega arith) f inside free in
      let one = first.free in
      let lt = first.inside in
      find_run-IsFree m cnt (m.btmp_bytes_len * 8 - s₀) (s₀ + 1) 1 s (m.btmp_bytes_len * 8 + 1)
        (omega arith) (omega arith) (λ j p q. let t : j ≡ s₀ = omega arith in rw t one)
        (ok_injective (sym e ∙ found))

  -- On a map of bytes with a free bit inside, if `bitmap_scan` returns -1 for two bits or more,
  -- every run of that length inside the map has a set bit.
  pub scan-IsTaken :
      scan m cnt ≡ ok none → (s : ℕ) → s + cnt ≤ m.btmp_bytes_len * 8 → IsTaken m s cnt
  scan-IsTaken none_found s fits =
      let (s₀, first, e) = scan_many m h cnt (omega arith) f inside free in
      let before = first.before in
      let lt = first.inside in
      elim (Bool-cases (ltb s s₀)) [
        | inl early ↦ (s, omega arith, omega arith, before s (ground arith))
        | inr late ↦
            find_run-IsTaken m cnt (m.btmp_bytes_len * 8 - s₀) (s₀ + 1) 1 s₀
              (m.btmp_bytes_len * 8 + 1) (omega arith) (omega arith) many (inl (omega arith))
              (λ s p q. absurd (omega arith)) (ok_injective (sym e ∙ none_found)) s (ground arith)
              (omega arith)
      ]

find_run_two :
    (m : Bitmap) (next : ℕ) → scan_test m next ≡ false → find_run m 2 1 next 1 ≡ some (next - 1)
unfolding find_run
find_run_two m next clear = ground arith

-- The run may use the bit after the end: if the last bit of the map is the only free one and the
-- bit that follows the map in memory is clear, two bits are found at the last index.
pub scan_overrun :
    (m : Bitmap)
    → IsBytes m.bits
    → 0 < m.btmp_bytes_len
    → ((j : ℕ) → j + 1 < m.btmp_bytes_len * 8 → scan_test m j ≡ true)
    → scan_test m (m.btmp_bytes_len * 8 - 1) ≡ false
    → scan_test m (m.btmp_bytes_len * 8) ≡ false
    → scan m 2 ≡ ok (some (m.btmp_bytes_len * 8 - 1))
scan_overrun m h pos used last past =
    let total = m.btmp_bytes_len * 8 in
    let (s₀, first, e) = scan_many m h 2 (omega arith) (total - 1) (omega arith) last in
    let free = first.free in
    let lt = first.inside in
    let at_last : s₀ ≡ total - 1 = elim (Bool-cases (ltb (s₀ + 1) total)) [
      | inl early ↦ absurd (let t = used s₀ (ground arith) in cc)
      | inr late ↦ ground arith
    ] in
    e ∙ ap ok (run_at_end s₀ at_last)
  where
    run_at_end :
        (s₀ : ℕ)
        → s₀ ≡ m.btmp_bytes_len * 8 - 1
        → find_run m 2 (m.btmp_bytes_len * 8 - s₀) (s₀ + 1) 1 ≡ some (m.btmp_bytes_len * 8 - 1)
    run_at_end s₀ e =
        let left : m.btmp_bytes_len * 8 - s₀ ≡ 1 = omega arith in
        let next : s₀ + 1 ≡ m.btmp_bytes_len * 8 = omega arith in
        rw (left, next) (find_run_two m (m.btmp_bytes_len * 8) past)
