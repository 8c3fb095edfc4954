-- ===== src/Stdio/Digits.antt =====
-- `itoa` writes the numeral of its value: the digits of that number, none of them a leading zero.
use winux_os.Base.{
  ℕ, zero, suc, ◌+◌, ◌-◌, ◌*◌, ◌/◌, ◌%◌, ◌^◌, ◌<◌, ◌≤◌, ◌≡◌, ◌≢◌, refl, ap, subst, ◌==◌, List, [],
  ◌∷◌, ◌++◌, length, length-append, get_or, Bytes, update, if◌then◌else◌, arith, Bool-cases, ltb,
  inl, inr, some, u8, true, false,
}
use winux_os.Base.Options.{◌>>=◌}
use winux_os.Stdio.{digit, put_char, itoa}
use winux_os.Stdio.Text.{IsPut, IsPut-char, IsPut-++}
use native.Mathlib.Nat.{div-lt_iff_lt-mul, mod-lt, div-add-mod', mul-le-mul_left, pow-suc}

abbrev pub digit_value : ℕ → ℕ
digit_value c = if ltb c 58 then c - 48 else c - 97 + 10

-- The number that digits stand for, behind those that make `high`.
abbrev pub number : ℕ → ℕ → List ℕ → ℕ
number base high [] = high
number base high (c ∷ cs) = number base (high * base + digit_value c) cs

abbrev pub AllDigits : ℕ → List ℕ → Type 0
AllDigits base [] = Unit
AllDigits base (c ∷ cs) = ((m : ℕ) × (m < base) × (c ≡ digit m)) × AllDigits base cs

-- The digits are those of `value`; the first is a zero only where the value is.
pub record IsNumeral (base value : ℕ) (cs : List ℕ) : Type 0 where
  pub digits : AllDigits base cs
  pub denotes : number base 0 cs ≡ value
  pub some_digit : 0 < length cs
  pub leading : 0 < value → get_or cs 0 0 ≢ 48

digit_value-digit : (m : ℕ) → m < 169 → digit_value (digit m) ≡ m
digit_value-digit m h = ground arith

number-append :
    (base high : ℕ) (cs : List ℕ) (c : ℕ)
    → number base high (cs ++ c ∷ []) ≡ number base high cs * base + digit_value c
number-append base high [] c = refl
number-append base high (d ∷ cs) c = number-append base (high * base + digit_value d) cs c

AllDigits-append :
    (base : ℕ) (cs : List ℕ) (m : ℕ)
    → AllDigits base cs
    → m < base
    → AllDigits base (cs ++ digit m ∷ [])
AllDigits-append base [] m a h = ((m, h, refl), tt)
AllDigits-append base (c ∷ cs) m a h = (a.0, AllDigits-append base cs m a.1 h)

first-append : (cs : List ℕ) (c : ℕ) → 0 < length cs → get_or (cs ++ c ∷ []) 0 0 ≡ get_or cs 0 0
first-append [] c h = absurd (omega arith)
first-append (d ∷ cs) c h = refl

IsNumeral-digit : (base m : ℕ) → m < base → base ≤ 169 → IsNumeral base m (digit m ∷ [])
IsNumeral-digit base m h w = record {
  digits = ((m, h, refl), tt);
  denotes = ground arith;
  some_digit = omega arith;
  leading = λ p e. ground arith;
}

IsNumeral-append :
    (base value : ℕ) (cs : List ℕ)
    → 2 ≤ base
    → base ≤ 169
    → 0 < value / base
    → IsNumeral base (value / base) cs
    → IsNumeral base value (cs ++ digit (value % base) ∷ [])
IsNumeral-append base value cs b w h n =
    let rem : value % base < base = mod-lt value (omega arith) in
    let within : value % base < 169 = omega (arith, rem) in
    record {
      digits = AllDigits-append base cs (value % base) n.digits (mod-lt value (omega arith));
      denotes =
          rw
            (
              number-append base 0 cs (digit (value % base)),
              n.denotes,
              digit_value-digit (value % base) within,
            )
            (div-add-mod' value base);
      some_digit = omega (arith, length-append cs (digit (value % base) ∷ []), n.some_digit);
      leading = λ p. rw (first-append cs (digit (value % base)) n.some_digit) (n.leading h);
    }

shorter : (value base fuel : ℕ) → 2 ≤ base → value < 2 ^ suc fuel → value / base < 2 ^ fuel
shorter value base fuel b h =
    let grow : 2 ^ fuel * 2 ≤ 2 ^ fuel * base = mul-le-mul_left (2 ^ fuel) b in
    let room : value < 2 ^ fuel * base = omega (arith, pow-suc 2 fuel) in
    (div-lt_iff_lt-mul (omega arith)).1 room

some_fuel : (fuel q : ℕ) → q < 2 ^ fuel → 0 < q → 0 < fuel
some_fuel zero q h p = absurd (omega arith)
some_fuel (suc fuel) q h p = omega arith

-- A base up to 169 is a uint8_t, and its digits are characters.
itoa_step :
    (fuel value base : ℕ) (out : Bytes × ℕ)
    → base ≤ 169
    → itoa (suc fuel) value base out ≡ elim (value / base == 0) [
      | true ↦ some (put_char (digit (value % base)) out)
      | false ↦
          (itoa fuel (value / base) base out >>= λ high.
          some (put_char (digit (value % base)) high))
    ]
unfolding itoa
itoa_step fuel value base out w =
    let narrow : u8 base ≡ base = omega arith in
    ap
      (λ b. elim (value / b == 0) [
        | true ↦ some (put_char (digit (value % b)) out)
        | false ↦
            (itoa fuel (value / b) base out >>= λ high. some (put_char (digit (value % b)) high))
      ])
      narrow

-- With fuel for the binary digits of the value `itoa` ends, in every base from 2 to 169, whose
-- digits are characters: it writes at `pos` the numeral of the value, digits that denote it
-- without a leading zero, and returns the place behind it.
pub itoa_lem :
    (fuel value base : ℕ) (buf : Bytes) (pos : ℕ)
    → 2 ≤ base
    → base ≤ 169
    → 0 < fuel
    → value < 2 ^ fuel
    → (cs : List ℕ) × (out : Bytes) × (itoa fuel value base (buf, pos)
        ≡ some (out, pos + length cs))
      × IsNumeral base value cs
      × IsPut buf pos cs out
itoa_lem zero value base buf pos b w f h = absurd (omega arith)
itoa_lem (suc fuel) value base buf pos b w f h = elim (Bool-cases (value / base == 0)) [
  | inl last ↦
      let m = value % base in
      let whole : m ≡ value = ground (arith, div-add-mod' value base) in
      (
        digit m ∷ [],
        update buf pos (digit m),
        rw (itoa_step fuel value base (buf, pos) w, last) refl,
        subst (λ v. IsNumeral base v (digit m ∷ [])) whole
            (IsNumeral-digit base m (mod-lt value (omega arith)) w),
        IsPut-char buf pos (digit m),
      )
  | inr more ↦
      let small = shorter value base fuel b h in
      let (cs, out, run, numeral, put) =
        itoa_lem fuel (value / base) base buf pos b w
          (some_fuel fuel (value / base) small (ground arith)) small in
      let c = digit (value % base) in
      (
        cs ++ c ∷ [],
        update out (pos + length cs) c,
        rw (itoa_step fuel value base (buf, pos) w, more, run)
            (ap (λ k. some (update out (pos + length cs) c, k))
              (omega (arith, length-append cs (c ∷ [])))),
        IsNumeral-append base value cs b w (ground arith) numeral,
        IsPut-++ buf pos cs out (c ∷ []) _ put (IsPut-char out (pos + length cs) c),
      )
]
