-- ===== src/Stdio/Render.antt =====
-- What a format means, and that `vsprintf` writes it.
use winux_os.Base.{
  Option, ℕ, zero, suc, ◌+◌, ◌-◌, ◌^◌, ◌<◌, ◌≤◌, ◌≡◌, ◌≢◌, ◌∙◌, refl, ap, subst, sym, ◌⊎◌, inl, inr,
  List, [], ◌∷◌, ◌++◌, length, get_or, leb, ltb, ◌&&◌, Bytes, update, if◌then◌else◌, u8, u32, arith,
  Bool-cases, some, true, false,
}
use winux_os.Str.Compare.{IsEnd, strlen_lem}
use winux_os.Str.Copy.{strcpy_from-end}
use winux_os.Stdio.{itoa, is_conversion, show_int, show_str, convert}
use winux_os.Stdio.Text.{IsPut, IsPut-char, IsPut-++}
use native.Mathlib.Nat.{pow-le-pow_right}
use winux_os.Stdio.Digits.{IsNumeral, itoa_lem}

-- The bytes `s[i]` to `s[i + n - 1]`.
abbrev pub chars_of : Bytes → ℕ → ℕ → List ℕ
chars_of s i zero = []
chars_of s i (suc n) = s i ∷ chars_of s (i + 1) n

-- The text for one conversion of a 32-bit word.
pub data Shows (mem : ℕ → Bytes) (w : ℕ) : ℕ → List ℕ → Type 0 where
  hex : (cs : List ℕ) → IsNumeral 16 w cs → Shows mem w 120 cs
  string : (n : ℕ) → IsEnd (mem w) 0 n → Shows mem w 115 (chars_of (mem w) 0 n)
  decimal : (cs : List ℕ) → w < 2 ^ 31 → IsNumeral 10 w cs → Shows mem w 100 cs
  negative : (cs : List ℕ) → 2 ^ 31 ≤ w → IsNumeral 10 (2 ^ 32 - w) cs → Shows mem w 100 (45 ∷ cs)
  char : Shows mem w 99 (u8 w ∷ [])

-- The text of the format from `format[i]` and argument `k` on.
pub data Renders (mem : ℕ → Bytes) (format : Bytes) (args : ℕ → ℕ) : ℕ → ℕ → List ℕ → Type 0 where
  ends : (i k : ℕ) → format i ≡ 0 → Renders mem format args i k []
  plain :
      (i k : ℕ) (text : List ℕ)
      → format i ≢ 0
      → format i ≢ 37
      → Renders mem format args (i + 1) k text
      → Renders mem format args i k (format i ∷ text)
  converts :
      (i k : ℕ) (shown text : List ℕ)
      → format i ≡ 37
      → Shows mem (args k) (format (i + 1)) shown
      → Renders mem format args (i + 2) (k + 1) text
      → Renders mem format args i k (shown ++ text)
  skips :
      (i k : ℕ) (text : List ℕ)
      → format i ≡ 37
      → is_conversion (format (i + 1)) ≡ false
      → Renders mem format args (i + 1) k text
      → Renders mem format args i k text

length-chars_of : (s : Bytes) (i n : ℕ) → length (chars_of s i n) ≡ n
length-chars_of s i zero = refl
length-chars_of s i (suc n) = omega (arith, length-chars_of s (i + 1) n)

get_or-chars_of : (s : Bytes) (i n j : ℕ) → j < n → get_or (chars_of s i n) j 0 ≡ s (i + j)
get_or-chars_of s i zero j h = absurd (omega arith)
get_or-chars_of s i (suc n) zero h = let e : i + 0 ≡ i = omega arith in rw e
get_or-chars_of s i (suc n) (suc j) h =
    let e : i + suc j ≡ i + 1 + j = omega arith in
    rw e (get_or-chars_of s (i + 1) n j (omega arith))

-- What `strcpy` leaves is the string, and its zero behind it.
IsPut-copied :
    (buf : Bytes) (pos : ℕ) (s : Bytes) (n : ℕ) (out : Bytes)
    → s n ≡ 0
    → ((j : ℕ) → out j ≡ (if leb (pos + 0) j && leb j (pos + n) then s (j - pos) else buf j))
    → IsPut buf pos (chars_of s 0 n) out
IsPut-copied buf pos s n out z bytes =
    let l = length-chars_of s 0 n in
    record {
      inside = λ j h.
          let off : pos + j - pos ≡ j = omega arith in
          bytes (pos + j) ∙ rw off (ground (arith, get_or-chars_of s 0 n j));
      below = λ j h. bytes j ∙ ground arith;
      above = λ j h. bytes j ∙ ground arith;
      end = inr (
          rw l
            (let off : pos + n - pos ≡ n = omega arith in bytes (pos + n) ∙ rw off (ground arith)));
    }

-- The run returns, after it has written `text` at `pos`.
abbrev pub Writes : Bytes → ℕ → Option (Bytes × ℕ) → List ℕ → Type 0
Writes buf pos run text =
    (out : Bytes) × (run ≡ some (out, pos + length text)) × IsPut buf pos text out

below_power : (fuel v : ℕ) → 32 ≤ fuel → v < 2 ^ 32 → v < 2 ^ fuel
below_power fuel v f h = let p : 2 ^ 32 ≤ 2 ^ fuel = pow-le-pow_right (omega arith) f in omega arith

conversion_cases :
    (c : ℕ) → is_conversion c ≡ true → ((c ≡ 120) ⊎ (c ≡ 115)) ⊎ ((c ≡ 100) ⊎ (c ≡ 99))
conversion_cases c h = ground arith

module _ (fuel : ℕ) (mem : ℕ → Bytes) (w : ℕ) (buf : Bytes) (pos : ℕ) (enough : 32 ≤ fuel)
    (word : w < 2 ^ 32) where
  show_hex :
      (text : List ℕ) × Writes buf pos (itoa fuel w 16 (buf, pos)) text × Shows mem w 120 text
  show_hex =
      let (cs, out, run, numeral, put) =
        itoa_lem fuel w 16 buf pos (omega arith) (omega arith) (omega arith)
          (below_power fuel w enough word) in
      (cs, (out, run, put), hex cs numeral)

  show_int_lem :
      (text : List ℕ) × Writes buf pos (show_int fuel w (buf, pos)) text × Shows mem w 100 text
  unfolding show_int
  show_int_lem = elim (Bool-cases (ltb w (2 ^ 31))) [
    | inl small ↦
        let (cs, out, run, numeral, put) =
          itoa_lem fuel w 10 buf pos (omega arith) (omega arith) (omega arith)
            (below_power fuel w enough word) in
        (cs, (out, rw (show_int, small) run, put), decimal cs (ground arith) numeral)
    | inr large ↦
        let v = 2 ^ 32 - w in
        let e : u32 v ≡ v = ground arith in
        let minus = update buf pos 45 in
        let (cs, out, run, numeral, put) =
          itoa_lem fuel (u32 v) 10 minus (pos + 1) (omega arith) (omega arith) (omega arith)
            (below_power fuel (u32 v) enough (omega arith)) in
        let at : pos + 1 + length cs ≡ pos + suc (length cs) = omega arith in
        (
          45 ∷ cs,
          (
            out,
            rw (show_int, large) (run ∙ ap (λ k. some (out, k)) at),
            IsPut-++ buf pos (45 ∷ []) minus cs out (IsPut-char buf pos 45) put,
          ),
          negative cs (ground arith) (subst (λ x. IsNumeral 10 x cs) e numeral),
        )
  ]

  show_str_lem :
      (n : ℕ)
      → IsEnd (mem w) 0 n
      → n < fuel
      → Writes buf pos (show_str fuel (mem w) (buf, pos)) (chars_of (mem w) 0 n)
  unfolding show_str
  show_str_lem n e h =
      let (out, run, bytes) = strcpy_from-end fuel buf pos (mem w) 0 n e (omega arith) in
      (
        out,
        rw (run, strlen_lem fuel (mem w) n e h, length-chars_of (mem w) 0 n) refl,
        IsPut-copied buf pos (mem w) n out e.1 bytes,
      )

  abbrev Converts : ℕ → Type 0
  Converts c =
      (text : List ℕ) × Writes buf pos (convert fuel mem c w (buf, pos)) text × Shows mem w c text

  pub convert_lem :
      (c : ℕ)
      → is_conversion c ≡ true
      → (c ≡ 115 → (n : ℕ) × IsEnd (mem w) 0 n × (n < fuel))
      → Converts c
  unfolding convert
  convert_lem c known str = elim (conversion_cases c known) [
    | inl (inl x) ↦ subst Converts (sym x) show_hex
    | inl (inr s) ↦
        let (n, e, h) = str s in
        subst Converts (sym s) (chars_of (mem w) 0 n, show_str_lem n e h, string n e)
    | inr (inl d) ↦ subst Converts (sym d) show_int_lem
    | inr (inr c) ↦
        subst Converts (sym c)
          (u8 w ∷ [], (update buf pos (u8 w), refl, IsPut-char buf pos (u8 w)), char)
  ]
