-- ===== src/Memory/Heap/Books/Closing.antt =====
-- The page of an arena whose blocks are all free is given back.
use winux_os.Base.{
  ℕ, ◌%◌, ◌<◌, ◌≡◌, ◌∙◌, sym, ap, subst, false, inl, inr, Bool-cases, List, none, some, ◌==◌,
  update, arith,
}
use winux_os.Memory.{page_size}
use winux_os.Memory.Heap.{block2arena, blocks_from, remove_all, desc_cnt}
use winux_os.Memory.Heap.Books.{
  occurrences, sum_below-full, Books, size_of, blocks_of, block_at, IsPlaced, IsArena, IsBalanced,
  close_arena,
}
use winux_os.Memory.Heap.Books.Places.{
  occurrences-remove_all, count_in-remove_all, count_in-sum_below,
}
use winux_os.Memory.Heap.Books.Arenas.{block_home, not_here, here_once}

-- An arena whose header counts all its blocks as free.
module _ (s : Books) (bal : IsBalanced s) (a i : ℕ) (classed : i < desc_cnt)
    (aligned : a % page_size ≡ 0) (own : s.owner a ≡ some i) (all : s.cnt a ≡ blocks_of i) where
  abbrev blocks : List ℕ
  blocks = blocks_from a (size_of i) 0 (blocks_of i)

  -- Each of them is in the free list once, so that nobody holds one.
  none_live :
      (k : ℕ)
      → k < blocks_of i
      → (occurrences (block_at a i k) (s.free i) ≡ 1) × (occurrences (block_at a i k) s.live ≡ 0)
  none_live k p =
      let arena = bal.arenas a i own in
      let total = count_in-sum_below a i classed (s.free i) aligned (λ x h e.
        let q = bal.free_placed i x h in
        (q.index, q.in_arena, q.lies ∙ ap (λ t. block_at t i q.index) e)) in
      let one : occurrences (block_at a i k) (s.free i) ≡ 1 =
        sum_below-full (blocks_of i) (λ j. occurrences (block_at a i j) (s.free i))
          (λ j q. omega (arith, arena.once j q)) (omega (arith, arena.counted)) k p in
      (one, omega (arith, arena.once k p))

  -- A block of this arena is `block_at` its index.
  at_place :
      (j x : ℕ)
      → IsPlaced s.owner j x
      → block2arena x ≡ a
      → (k : ℕ) × (k < blocks_of i) × (x ≡ block_at a i k)
  at_place j x p e =
      let same : some j ≡ some i = sym p.owned ∙ ap s.owner e ∙ own in
      let e' : j ≡ i = ground (arith, same) in
      (
        p.index,
        subst (λ t. p.index < blocks_of t) e' p.in_arena,
        p.lies ∙ ap (λ t. block_at t j p.index) e ∙ ap (λ t. block_at a t p.index) e',
      )

  not_held : (x : ℕ) → 0 < occurrences x s.live → (block2arena x == a) ≡ false
  not_held x h = elim (Bool-cases (block2arena x == a)) [
    | inr no_hit ↦ no_hit
    | inl here ↦
        let (j, p) = bal.live_placed x h in
        let (k, q, e) = at_place j x p (ground arith) in
        absurd (omega (arith, ap (λ t. occurrences t s.live) e, none_live k q))
  ]

  not_left :
      (x : ℕ) → occurrences x blocks < occurrences x (s.free i) → (block2arena x == a) ≡ false
  not_left x h = elim (Bool-cases (block2arena x == a)) [
    | inr no_hit ↦ no_hit
    | inl here ↦
        let (k, q, e) = at_place i x (bal.free_placed i x (omega arith)) (ground arith) in
        absurd (
          omega (
            arith,
            ap (λ t. occurrences t (s.free i)) e,
            ap (λ t. occurrences t blocks) e,
            none_live k q,
            here_once s bal a i classed aligned k q,
          ))
  ]

  remains :
      (j x : ℕ)
      → IsPlaced s.owner j x
      → (block2arena x == a) ≡ false
      → IsPlaced (update s.owner a none) j x
  remains j x p ne = record {
    index = p.index;
    in_arena = p.in_arena;
    owned = ground (arith, ne, p.owned);
    lies = p.lies;
  }

  other_class : (j x : ℕ) → (i == j) ≡ false → IsPlaced s.owner j x → (block2arena x == a) ≡ false
  other_class j x differ p = elim (Bool-cases (block2arena x == a)) [
    | inr no_hit ↦ no_hit
    | inl here ↦
        let e : block2arena x ≡ a = ground arith in
        let same : some j ≡ some i = sym p.owned ∙ ap s.owner e ∙ own in
        absurd (ground (arith, same))
  ]

  abbrev closed : Books
  closed = close_arena s i a

  closed-IsArena : (c j : ℕ) → (a == c) ≡ false → s.owner c ≡ some j → IsArena closed c j
  unfolding close_arena
  closed-IsArena c j ne own' =
      let arena = bal.arenas c j own' in
      record {
        classed = arena.classed;
        aligned = arena.aligned;
        not_null = arena.not_null;
        counted = ground (
          arith,
          arena.counted,
          count_in-remove_all c blocks (s.free j)
              (λ b h. ground (arith, block_home s bal a i classed aligned b h)),
        );
        once = λ k p. ground (
          arith,
          arena.once k p,
          occurrences-remove_all (block_at c j k) blocks (s.free j),
          not_here s bal a i classed aligned c j k own' p ne,
        );
      }

  pub close_arena-IsBalanced : IsBalanced closed
  unfolding close_arena
  close_arena-IsBalanced = record {
    arenas = λ c j own'. elim (Bool-cases (a == c)) [
      | inl here ↦ let clash : none ≡ some j = rw here at own' in absurd (ground (arith, clash))
      | inr there ↦ closed-IsArena c j there (rw there at own')
    ];
    free_placed = λ j x h. elim (Bool-cases (i == j)) [
      | inl same ↦
          let e : i ≡ j = ground arith in
          let h' : 0 < occurrences x (remove_all blocks (s.free j)) = rw same at h in
          let left : occurrences x blocks < occurrences x (s.free j) =
            omega (arith, occurrences-remove_all x blocks (s.free j)) in
          remains j x (bal.free_placed j x (omega arith))
            (not_left x (subst (λ t. occurrences x blocks < occurrences x (s.free t)) (sym e) left))
      | inr differ ↦
          let p = bal.free_placed j x (rw differ at h) in remains j x p (other_class j x differ p)
    ];
    live_placed = λ x h. let (j, p) = bal.live_placed x h in (j, remains j x p (not_held x h));
  }
