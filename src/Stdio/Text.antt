-- ===== src/Stdio/Text.antt =====
-- A text written into the buffer, and how two of them follow each other.
use winux_os.Base.{
  ℕ, zero, suc, ◌+◌, ◌-◌, ◌<◌, ◌≡◌, ◌∙◌, refl, sym, subst, ◌⊎◌, inl, inr, ◌==◌, List, [], ◌∷◌, ◌++◌,
  length, length-append, get_or, Bytes, update, arith, Bool-cases, ltb,
}

-- Between `before` and `after`, `text` was put at `pos`. The byte behind it may have become a
-- string's zero; nothing else changed.
pub record IsPut (before : Bytes) (pos : ℕ) (text : List ℕ) (after : Bytes) : Type 0 where
  pub inside : (j : ℕ) → j < length text → after (pos + j) ≡ get_or text j 0
  pub below : (j : ℕ) → j < pos → after j ≡ before j
  pub above : (j : ℕ) → pos + length text < j → after j ≡ before j
  pub end :
      (after (pos + length text) ≡ before (pos + length text)) ⊎ (after (pos + length text) ≡ 0)

pub IsPut-nothing : (buf : Bytes) (pos : ℕ) → IsPut buf pos [] buf
IsPut-nothing buf pos = record {
  inside = λ j h. absurd (omega arith);
  below = λ j h. refl;
  above = λ j h. refl;
  end = inl refl;
}

pub IsPut-char : (buf : Bytes) (pos c : ℕ) → IsPut buf pos (c ∷ []) (update buf pos c)
IsPut-char buf pos c = record {
  inside = λ j h. let first : j ≡ 0 = omega arith in rw first (ground arith);
  below = λ j h. ground arith;
  above = λ j h. ground arith;
  end = inl (ground arith);
}

get_or-left : (xs ys : List ℕ) (j : ℕ) → j < length xs → get_or (xs ++ ys) j 0 ≡ get_or xs j 0
get_or-left [] ys j h = absurd (omega arith)
get_or-left (x ∷ xs) ys zero h = refl
get_or-left (x ∷ xs) ys (suc j) h = get_or-left xs ys j (omega arith)

get_or-right : (xs ys : List ℕ) (j : ℕ) → get_or (xs ++ ys) (length xs + j) 0 ≡ get_or ys j 0
get_or-right [] ys j = let e : 0 + j ≡ j = omega arith in rw e
get_or-right (x ∷ xs) ys j =
    let e : suc (length xs) + j ≡ suc (length xs + j) = omega arith in rw e (get_or-right xs ys j)

module _ (a : Bytes) (pos : ℕ) (xs : List ℕ) (b : Bytes) (ys : List ℕ) (c : Bytes)
    (p : IsPut a pos xs b) (q : IsPut b (pos + length xs) ys c) where
  inside_right :
      (k : ℕ) → k < length ys → c (pos + (length xs + k)) ≡ get_or (xs ++ ys) (length xs + k) 0
  inside_right k h =
      let at : pos + (length xs + k) ≡ pos + length xs + k = omega arith in
      rw (at, get_or-right xs ys k) (q.inside k h)

  inside_both : (j : ℕ) → j < length (xs ++ ys) → c (pos + j) ≡ get_or (xs ++ ys) j 0
  inside_both j h = elim (Bool-cases (ltb j (length xs))) [
    | inl left ↦
        q.below (pos + j) (ground arith)
        ∙ p.inside j (ground arith)
        ∙ sym (get_or-left xs ys j (ground arith))
    | inr right ↦
        let e : length xs + (j - length xs) ≡ j = ground arith in
        subst (λ k. c (pos + k) ≡ get_or (xs ++ ys) k 0) e
          (inside_right (j - length xs) (omega (arith, length-append xs ys)))
  ]

  end_both :
      (c (pos + length (xs ++ ys)) ≡ a (pos + length (xs ++ ys)))
      ⊎ (c (pos + length (xs ++ ys)) ≡ 0)
  end_both =
      let l : pos + length (xs ++ ys) ≡ pos + length xs + length ys =
        omega (arith, length-append xs ys) in
      elim (Bool-cases (length ys == 0)) [
        | inl nothing ↦
            let z : pos + length xs + length ys ≡ pos + length xs = ground arith in
            rw (l, z) (ground (arith, subst (λ k. (c k ≡ b k) ⊎ (c k ≡ 0)) z q.end, p.end))
        | inr more ↦
            let same = p.above (pos + length xs + length ys) (ground arith) in
            rw l (ground (arith, q.end, same))
      ]

  pub IsPut-++ : IsPut a pos (xs ++ ys) c
  IsPut-++ = record {
    inside = inside_both;
    below = λ j h. q.below j (omega arith) ∙ p.below j h;
    above = λ j h. let l = length-append xs ys in q.above j (omega arith) ∙ p.above j (omega arith);
    end = end_both;
  }
