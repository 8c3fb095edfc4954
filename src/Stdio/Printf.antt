-- ===== src/Stdio/Printf.antt =====
-- The functions around the loop: what they return, for a buffer that was zero.
use winux_os.Base.{
  Option, ℕ, zero, suc, ◌+◌, ◌^◌, ◌<◌, ◌≤◌, ◌≡◌, ◌≢◌, ◌∙◌, refl, ap, subst, sym, ◌⊎◌, List, [], ◌∷◌,
  ◌++◌, length, get_or, Bytes, u8, arith, some, none,
}
use winux_os.Str.Compare.{IsEnd, strlen_lem}
use winux_os.Stdio.{vsprintf_from, vsprintf, printf, zeroed}
use winux_os.Stdio.Text.{IsPut}
use winux_os.Stdio.Digits.{AllDigits}
use winux_os.Stdio.Render.{
  chars_of, Shows, hex, string, decimal, negative, char, Renders, ends, plain, converts, skips,
}
use winux_os.Stdio.Rounds.{HasStrings, vsprintf_from_lem}

abbrev pub HasNoZero : List ℕ → Type 0
HasNoZero [] = Unit
HasNoZero (c ∷ cs) = (c ≢ 0) × HasNoZero cs

HasNoZero-append : (xs ys : List ℕ) → HasNoZero xs → HasNoZero ys → HasNoZero (xs ++ ys)
HasNoZero-append [] ys p q = q
HasNoZero-append (x ∷ xs) ys p q = (p.0, HasNoZero-append xs ys p.1 q)

HasNoZero-digits : (base : ℕ) (cs : List ℕ) → base ≤ 169 → AllDigits base cs → HasNoZero cs
HasNoZero-digits base [] w a = tt
HasNoZero-digits base (c ∷ cs) w ((m, h, e), rest) =
    (λ z. ground arith, HasNoZero-digits base cs w rest)

HasNoZero-chars :
    (s : Bytes) (i n : ℕ) → ((j : ℕ) → j < i + n → s j ≢ 0) → HasNoZero (chars_of s i n)
HasNoZero-chars s i zero h = tt
HasNoZero-chars s i (suc n) h =
    (h i (omega arith), HasNoZero-chars s (i + 1) n (λ j l. h j (omega arith)))

HasNoZero-get : (cs : List ℕ) (j : ℕ) → HasNoZero cs → j < length cs → get_or cs j 0 ≢ 0
HasNoZero-get [] j p h = absurd (omega arith)
HasNoZero-get (c ∷ cs) zero p h = p.0
HasNoZero-get (c ∷ cs) (suc j) p h = HasNoZero-get cs j p.1 (omega arith)

-- No `%c` takes a zero character.
abbrev pub HasChars : Bytes → (ℕ → ℕ) → Type 0
HasChars format args = (i k : ℕ) → format i ≡ 37 → format (i + 1) ≡ 99 → u8 (args k) ≢ 0

Shows-HasNoZero :
    (mem : ℕ → Bytes) (w c : ℕ) (text : List ℕ)
    → Shows mem w c text
    → (c ≡ 99 → u8 w ≢ 0)
    → HasNoZero text
Shows-HasNoZero mem w _ _ (hex cs n) h = HasNoZero-digits 16 cs (omega arith) n.digits
Shows-HasNoZero mem w _ _ (string n e) h =
    HasNoZero-chars (mem w) 0 n (λ j l. e.2 j (omega arith) (omega arith))
Shows-HasNoZero mem w _ _ (decimal cs l n) h = HasNoZero-digits 10 cs (omega arith) n.digits
Shows-HasNoZero mem w _ _ (negative cs l n) h =
    (λ z. absurd (omega arith), HasNoZero-digits 10 cs (omega arith) n.digits)
Shows-HasNoZero mem w _ _ char h = (h refl, tt)

Renders-HasNoZero :
    (mem : ℕ → Bytes) (format : Bytes) (args : ℕ → ℕ) (i k : ℕ) (text : List ℕ)
    → HasChars format args
    → Renders mem format args i k text
    → HasNoZero text
Renders-HasNoZero mem format args i k _ h (ends _ _ z) = tt
Renders-HasNoZero mem format args i k _ h (plain _ _ text nz np r) =
    (nz, Renders-HasNoZero mem format args (i + 1) k text h r)
Renders-HasNoZero mem format args i k _ h (converts _ _ shown text p s r) =
    HasNoZero-append shown text (Shows-HasNoZero mem (args k) (format (i + 1)) shown s (h i k p))
      (Renders-HasNoZero mem format args (i + 2) (k + 1) text h r)
Renders-HasNoZero mem format args i k text h (skips _ _ _ p q r) =
    Renders-HasNoZero mem format args (i + 1) k text h r

pair_of : Bytes × ℕ → Option (Bytes × ℕ) → Bytes × ℕ
pair_of d none = d
pair_of d (some r) = r

some_pair : (p q : Bytes × ℕ) → some p ≡ some q → (p.0 ≡ q.0) × (p.1 ≡ q.1)
unfolding pair_of
some_pair p q e = (ap (λ r. (pair_of p r).0) e, ap (λ r. (pair_of p r).1) e)

put-IsEnd :
    (text : List ℕ) (out : Bytes)
    → HasNoZero text
    → IsPut zeroed 0 text out
    → IsEnd out 0 (length text)
put-IsEnd text out nz put =
    let whole : 0 + length text ≡ length text = omega arith in
    let z : (out (length text) ≡ 0) ⊎ (out (length text) ≡ 0) =
      subst (λ k. (out k ≡ 0) ⊎ (out k ≡ 0)) whole put.end in
    (
      omega arith,
      ground (arith, z),
      λ j p q e.
          let here : 0 + j ≡ j = omega arith in
          HasNoZero-get text j nz q (sym (put.inside j q) ∙ ap out here ∙ e),
    )

module _ (room : ℕ) (mem : ℕ → Bytes) (format : Bytes) (args : ℕ → ℕ) (n fuel : ℕ)
    (e : IsEnd format 0 n) (digits : 32 ≤ room) (words : (k : ℕ) → args k < 2 ^ 32)
    (strings : HasStrings room mem format args) (chars : HasChars format args)
    (enough : n + room < fuel) (out : Bytes) (pos : ℕ)
    (run : vsprintf_from fuel mem format args 0 0 (zeroed, 0) ≡ some (out, pos)) where
  -- What the loop has written into a zeroed buffer is a C string, of the length of the text.
  written :
      (text : List ℕ) × Renders mem format args 0 0 text
      × IsPut zeroed 0 text out
      × (pos ≡ length text)
      × IsEnd out 0 pos
  written =
      let (text, (out', run', put), renders) =
        vsprintf_from_lem room mem format args n digits words strings fuel 0 0 zeroed 0 e
          (omega arith) in
      let same = some_pair (out, pos) (out', 0 + length text) (sym run ∙ run') in
      let at : pos ≡ length text = omega (arith, same.1) in
      let put' = subst (λ b. IsPut zeroed 0 text b) (sym same.0) put in
      let nz = Renders-HasNoZero mem format args 0 0 text chars renders in
      (text, renders, put', at, rw at (put-IsEnd text out nz put'))

  -- For a run of the loop into the zeroed buffer, with arguments as it needs them and no `%c` of a
  -- zero character: while the text and its zero fit into the 1024 bytes of `buf`, `printf` passes
  -- to `write` the text that the format and the arguments stand for, and its length.
  pub printf_lem :
      pos < 1024
      → 1024 ≤ fuel
      → (text : List ℕ) × Renders mem format args 0 0 text
        × (printf fuel mem format args ≡ some (out, length text))
        × IsPut zeroed 0 text out
  unfolding printf vsprintf
  printf_lem fits f =
      let (text, renders, put, at, end) = written in
      let len = strlen_lem fuel out pos end (omega arith) in
      (text, renders, rw (run, len, len) (ap (λ k. some (out, k)) at), put)
