-- ===== src/Memory/Heap/Books/Places.antt =====
-- Where blocks lie, and how often a list has them.
use winux_os.Base.{
  ℕ, zero, suc, ◌+◌, ◌-◌, ◌%◌, ◌<◌, ◌≤◌, ◌≡◌, ◌∙◌, refl, sym, ap, false, inl, inr, Bool-cases, List,
  [], ◌∷◌, ◌++◌, ◌==◌, ltb, leb, ◌&&◌, dec_lt, arith,
}
use winux_os.Memory.{page_size}
use winux_os.Memory.Heap.{
  desc_at, desc_cnt, block_desc_init, arena2block, block2arena, blocks_from, remove, remove_all,
}
use winux_os.Memory.Heap.Blocks.{block_desc_init-IsClass, mul_step}
use winux_os.Memory.Heap.Books.{
  one_if, occurrences, sum_below, sum_below-ext, sum_below-add, sum_below-zero, sum_below-hit,
  size_of, blocks_of, block_at, count_in,
}

-- A block lies in the page of its arena.
pub block2arena-block_at :
    (a i k : ℕ)
    → i < desc_cnt
    → a % page_size ≡ 0
    → k < blocks_of i
    → block2arena (block_at a i k) ≡ a
unfolding block2arena arena2block size_of blocks_of
block2arena-block_at a i k h al p =
    let c = block_desc_init-IsClass i h in
    omega (
      arith,
      c.fits,
      c.not_empty,
      mul_step k (desc_at block_desc_init i).blocks_pre_arena (desc_at block_desc_init i).block_size
          p,
    )

pub block_at-injective : (a i j k : ℕ) → i < desc_cnt → block_at a i j ≡ block_at a i k → j ≡ k
unfolding arena2block size_of
block_at-injective a i j k h e =
    let c = block_desc_init-IsClass i h in
    let s = (desc_at block_desc_init i).block_size in
    elim (dec_lt j k) [
      | yes p ↦ absurd (omega (arith, c.not_empty, mul_step j k s p))
      | no p ↦ elim (dec_lt k j) [
        | yes q ↦ absurd (omega (arith, c.not_empty, mul_step k j s q))
        | no q ↦ omega arith
      ]
    ]

pub occurrences-remove :
    (y b : ℕ) (xs : List ℕ) → occurrences y (remove b xs) ≡ occurrences y xs - one_if (b == y)
unfolding remove
occurrences-remove y b [] = omega arith
occurrences-remove y b (x ∷ xs) = ground (arith, occurrences-remove y b xs)

pub occurrences-remove_all :
    (y : ℕ) (bs xs : List ℕ)
    → occurrences y (remove_all bs xs) ≡ occurrences y xs - occurrences y bs
unfolding remove_all
occurrences-remove_all y [] xs = omega arith
occurrences-remove_all y (b ∷ bs) xs =
    omega (arith, occurrences-remove_all y bs (remove b xs), occurrences-remove y b xs)

pub count_in-++ : (a : ℕ) (xs ys : List ℕ) → count_in a (xs ++ ys) ≡ count_in a xs + count_in a ys
count_in-++ a [] ys = omega arith
count_in-++ a (x ∷ xs) ys = omega (arith, count_in-++ a xs ys)

count_in-remove :
    (a b : ℕ) (xs : List ℕ)
    → (block2arena b == a) ≡ false
    → count_in a (remove b xs) ≡ count_in a xs
unfolding remove
count_in-remove a b [] other = refl
count_in-remove a b (x ∷ xs) other = elim (Bool-cases (x == b)) [
  | inl here ↦
      let e : x ≡ b = ground arith in
      rw here (omega (arith, ap one_if (ap (λ t. block2arena t == a) e ∙ other)))
  | inr there ↦ rw there (omega (arith, count_in-remove a b xs other))
]

pub count_in-remove_all :
    (a : ℕ) (bs xs : List ℕ)
    → ((b : ℕ) → 0 < occurrences b bs → (block2arena b == a) ≡ false)
    → count_in a (remove_all bs xs) ≡ count_in a xs
unfolding remove_all
count_in-remove_all a [] xs other = refl
count_in-remove_all a (b ∷ bs) xs other =
    count_in-remove_all a bs (remove b xs) (λ c p. other c (omega arith))
    ∙ count_in-remove a b xs (other b (ground arith))

-- The blocks of a new arena.
module _ (a i : ℕ) (classed : i < desc_cnt) where
  pub occurrences-blocks_from :
      (start left k : ℕ)
      → occurrences (block_at a i k) (blocks_from a (size_of i) start left)
        ≡ one_if (leb start k && ltb k (start + left))
  unfolding blocks_from
  occurrences-blocks_from start zero k = ground arith
  occurrences-blocks_from start (suc left) k =
      let rest = occurrences-blocks_from (start + 1) left k in
      elim (Bool-cases (block_at a i start == block_at a i k)) [
        | inl here ↦
            let e : start ≡ k = block_at-injective a i start k classed (ground arith) in
            ground (arith, rest)
        | inr there ↦
            let ne : (start == k) ≡ false = ground (arith, ap (block_at a i)) in
            ground (arith, rest)
      ]

  pub blocks_from-block_at :
      (start left x : ℕ)
      → 0 < occurrences x (blocks_from a (size_of i) start left)
      → (k : ℕ) × (k < start + left) × (x ≡ block_at a i k)
  unfolding blocks_from
  blocks_from-block_at start zero x h = absurd (omega arith)
  blocks_from-block_at start (suc left) x h = elim (Bool-cases (block_at a i start == x)) [
    | inl here ↦ (start, omega arith, ground arith)
    | inr there ↦
        let (k, p, e) = blocks_from-block_at (start + 1) left x (omega (arith, ap one_if there)) in
        (k, omega arith, e)
  ]

  pub count_in-blocks_from :
      (start left : ℕ)
      → a % page_size ≡ 0
      → start + left ≤ blocks_of i
      → count_in a (blocks_from a (size_of i) start left) ≡ left
  unfolding blocks_from
  count_in-blocks_from start zero al h = refl
  count_in-blocks_from start (suc left) al h =
      let home = block2arena-block_at a i start classed al (omega arith) in
      ground (arith, home, count_in-blocks_from (start + 1) left al (omega arith))

  pub count_in-other :
      (c start left : ℕ)
      → (a == c) ≡ false
      → a % page_size ≡ 0
      → start + left ≤ blocks_of i
      → count_in c (blocks_from a (size_of i) start left) ≡ 0
  unfolding blocks_from
  count_in-other c start zero ne al h = refl
  count_in-other c start (suc left) ne al h =
      let home = block2arena-block_at a i start classed al (omega arith) in
      ground (arith, home, count_in-other c (start + 1) left ne al (omega arith))

  hit : (x k j : ℕ) → x ≡ block_at a i k → one_if (k == j) ≡ one_if (x == block_at a i j)
  hit x k j e = elim (Bool-cases (k == j)) [
    | inl here ↦ let q : k ≡ j = ground arith in ground (arith, ap (block_at a i) q)
    | inr there ↦
        ground
          (arith, λ (h : block_at a i k ≡ block_at a i j). block_at-injective a i k j classed h)
  ]

  miss :
      (x j : ℕ)
      → a % page_size ≡ 0
      → j < blocks_of i
      → (block2arena x == a) ≡ false
      → one_if (x == block_at a i j) ≡ 0
  miss x j al p other =
      let home = block2arena-block_at a i j classed al p in
      elim (Bool-cases (x == block_at a i j)) [
        | inl here ↦
            let e : x ≡ block_at a i j = ground arith in
            absurd (ground (arith, ap block2arena e, home))
        | inr there ↦ ap one_if there
      ]

  -- The blocks of an arena in a list, counted by their places.
  pub count_in-sum_below :
      (xs : List ℕ)
      → a % page_size ≡ 0
      → ((x : ℕ)
          → 0 < occurrences x xs
          → block2arena x ≡ a
          → (k : ℕ) × (k < blocks_of i) × (x ≡ block_at a i k))
      → count_in a xs ≡ sum_below (blocks_of i) (λ k. occurrences (block_at a i k) xs)
  count_in-sum_below [] al placed = sym (sum_below-zero (blocks_of i) (λ k. 0) (λ k p. refl))
  count_in-sum_below (x ∷ xs) al placed =
      let rest = count_in-sum_below xs al (λ y p e. placed y (omega arith) e) in
      let split =
        sum_below-add (blocks_of i) (λ k. one_if (x == block_at a i k))
          (λ k. occurrences (block_at a i k) xs) in
      omega (arith, rest, split, head)
    where
      head :
          one_if (block2arena x == a) ≡ sum_below (blocks_of i) (λ k. one_if (x == block_at a i k))
      head = elim (Bool-cases (block2arena x == a)) [
        | inl here ↦
            let (k, p, e) = placed x (ground arith) (ground arith) in
            ap one_if here
            ∙ sym (sum_below-hit (blocks_of i) k p)
            ∙ sum_below-ext (blocks_of i) (λ j. one_if (k == j)) (λ j. one_if (x == block_at a i j))
                (λ j q. hit x k j e)
        | inr there ↦
            ap one_if there
            ∙ sym (
                sum_below-zero (blocks_of i) (λ j. one_if (x == block_at a i j))
                  (λ j q. miss x j al q there))
      ]
