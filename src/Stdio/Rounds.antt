-- ===== src/Stdio/Rounds.antt =====
-- The loop of `vsprintf`, round by round, writes what the format means.
use winux_os.Base.{
  ℕ, zero, suc, ◌+◌, ◌^◌, ◌<◌, ◌≤◌, ◌≡◌, ◌≢◌, ◌∙◌, refl, ap, subst, inl, inr, ◌==◌, List, [], ◌∷◌,
  ◌++◌, length, length-append, Bytes, update, arith, Bool-cases, some, true, false,
}
use winux_os.Str.Compare.{IsEnd}
use winux_os.Stdio.{is_conversion, convert, vsprintf_from}
use winux_os.Stdio.Text.{IsPut, IsPut-nothing, IsPut-char, IsPut-++}
use winux_os.Stdio.Render.{Shows, Renders, ends, plain, converts, skips, Writes, convert_lem}

IsEnd-next : (s : Bytes) (i n : ℕ) → IsEnd s i n → s i ≢ 0 → IsEnd s (i + 1) n
IsEnd-next s i n (le, z, nz) h = elim (Bool-cases (i == n)) [
  | inl at ↦ absurd (h (ground arith))
  | inr before ↦ (ground arith, z, λ j p q. nz j (omega arith) q)
]

-- The rounds of the loop, one lemma each.
module _ (mem : ℕ → Bytes) (format : Bytes) (args : ℕ → ℕ) where
  abbrev Prints : ℕ → ℕ → ℕ → Bytes → ℕ → Type 0
  Prints fuel i k buf pos =
      (text : List ℕ) × Writes buf pos (vsprintf_from fuel mem format args i k (buf, pos)) text
      × Renders mem format args i k text

  round_end :
      (fuel i k : ℕ) (buf : Bytes) (pos : ℕ)
      → (format i == 0) ≡ true
      → Prints (suc fuel) i k buf pos
  unfolding vsprintf_from
  round_end fuel i k buf pos stop =
      let at : pos + 0 ≡ pos = omega arith in
      ([], (buf, rw (vsprintf_from, stop, at) refl, IsPut-nothing buf pos), ends i k (ground arith))

  round_plain :
      (fuel i k : ℕ) (buf : Bytes) (pos : ℕ)
      → (format i == 0) ≡ false
      → (format i == 37) ≡ false
      → Prints fuel (i + 1) k (update buf pos (format i)) (pos + 1)
      → Prints (suc fuel) i k buf pos
  unfolding vsprintf_from
  round_plain fuel i k buf pos more usual (text, (out, run, put), renders) =
      let at : pos + 1 + length text ≡ pos + suc (length text) = omega arith in
      (
        format i ∷ text,
        (
          out,
          rw (vsprintf_from, more, usual) (run ∙ ap (λ j. some (out, j)) at),
          IsPut-++ buf pos (format i ∷ []) _ text out (IsPut-char buf pos (format i)) put,
        ),
        plain i k text (ground arith) (ground arith) renders,
      )

  round_skip :
      (fuel i k : ℕ) (buf : Bytes) (pos : ℕ)
      → format i ≡ 37
      → is_conversion (format (i + 1)) ≡ false
      → Prints fuel (i + 1) k buf pos
      → Prints (suc fuel) i k buf pos
  unfolding vsprintf_from
  round_skip fuel i k buf pos percent other (text, (out, run, put), renders) =
      let more : (format i == 0) ≡ false = ground arith in
      let here : (format i == 37) ≡ true = ground arith in
      (
        text,
        (out, rw (vsprintf_from, more, here, other) run, put),
        skips i k text percent other renders,
      )

  round_convert :
      (fuel i k : ℕ) (buf : Bytes) (pos : ℕ) (shown : List ℕ) (mid : Bytes)
      → format i ≡ 37
      → is_conversion (format (i + 1)) ≡ true
      → convert fuel mem (format (i + 1)) (args k) (buf, pos) ≡ some (mid, pos + length shown)
      → IsPut buf pos shown mid
      → Shows mem (args k) (format (i + 1)) shown
      → Prints fuel (i + 2) (k + 1) mid (pos + length shown)
      → Prints (suc fuel) i k buf pos
  unfolding vsprintf_from
  round_convert fuel i k buf pos shown mid percent known first fput shows
        (text, (out, run, put), renders) =
      let at : pos + length shown + length text ≡ pos + length (shown ++ text) =
        omega (arith, length-append shown text) in
      let more : (format i == 0) ≡ false = ground arith in
      let here : (format i == 37) ≡ true = ground arith in
      (
        shown ++ text,
        (
          out,
          rw (vsprintf_from, more, here, known, first) (run ∙ ap (λ j. some (out, j)) at),
          IsPut-++ buf pos shown mid text out fput put,
        ),
        converts i k shown text percent shows renders,
      )

-- The strings that the format's `%s` may take have their zero within `room` bytes.
abbrev pub HasStrings : ℕ → (ℕ → Bytes) → Bytes → (ℕ → ℕ) → Type 0
HasStrings room mem format args =
    (i k : ℕ)
    → format i ≡ 37
    → format (i + 1) ≡ 115
    → (e : ℕ) × IsEnd (mem (args k)) 0 e × (e < room)

module _ (room : ℕ) (mem : ℕ → Bytes) (format : Bytes) (args : ℕ → ℕ) (n : ℕ) (digits : 32 ≤ room)
    (words : (k : ℕ) → args k < 2 ^ 32) (strings : HasStrings room mem format args) where
  round_percent :
      (fuel i k : ℕ) (buf : Bytes) (pos : ℕ)
      → IsEnd format i n
      → format i ≡ 37
      → n + room < i + suc fuel
      → ((i k : ℕ) (buf : Bytes) (pos : ℕ)
          → IsEnd format i n
          → n + room < i + fuel
          → Prints mem format args fuel i k buf pos)
      → Prints mem format args (suc fuel) i k buf pos
  round_percent fuel i k buf pos e percent h go =
      let next = IsEnd-next format i n e (ground arith) in
      elim (Bool-cases (is_conversion (format (i + 1)))) [
        | inr other ↦
            round_skip mem format args fuel i k buf pos percent other
              (go (i + 1) k buf pos next (omega arith))
        | inl known ↦
            let after = IsEnd-next format (i + 1) n next (ground arith) in
            let there : i + 1 + 1 ≡ i + 2 = omega arith in
            let (shown, (mid, first, fput), shows) =
              convert_lem fuel mem (args k) buf pos (omega (arith, next.0)) (words k)
                (format (i + 1)) known
                (λ s. let (q, z, l) = strings i k percent s in (q, z, omega (arith, next.0))) in
            round_convert mem format args fuel i k buf pos shown mid percent known first fput shows
              (go (i + 2) (k + 1) mid (pos + length shown)
                (subst (λ j. IsEnd format j n) there after) (omega arith))
      ]

  -- With fuel for the rest of the format, for its strings and for 32 digits, the loop of
  -- `vsprintf` ends: it has written the text that the format and the 32-bit arguments stand for.
  pub vsprintf_from_lem :
      (fuel i k : ℕ) (buf : Bytes) (pos : ℕ)
      → IsEnd format i n
      → n + room < i + fuel
      → (text : List ℕ) × Writes buf pos (vsprintf_from fuel mem format args i k (buf, pos)) text
        × Renders mem format args i k text
  vsprintf_from_lem zero i k buf pos e h = absurd (omega (arith, e.0))
  vsprintf_from_lem (suc fuel) i k buf pos e h = elim (Bool-cases (format i == 0)) [
    | inl stop ↦ round_end mem format args fuel i k buf pos stop
    | inr more ↦ elim (Bool-cases (format i == 37)) [
      | inl percent ↦ round_percent fuel i k buf pos e (ground arith) h (vsprintf_from_lem fuel)
      | inr usual ↦ round_plain mem format args fuel i k buf pos more usual (
          vsprintf_from_lem fuel (i + 1) k (update buf pos (format i)) (pos + 1)
            (IsEnd-next format i n e (ground arith)) (omega arith))
    ]
  ]
