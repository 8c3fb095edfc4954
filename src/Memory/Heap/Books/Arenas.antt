-- ===== src/Memory/Heap/Books/Arenas.antt =====
-- A page becomes a new arena.
use winux_os.Base.{
  ℕ, ◌%◌, ◌<◌, ◌≡◌, ◌≢◌, ◌∙◌, refl, sym, ap, subst, false, inl, inr, Bool-cases, List, [], ◌∷◌,
  ◌++◌, none, some, ◌==◌, update, arith, dec_lt,
}
use winux_os.Memory.{page_size}
use winux_os.Memory.Heap.{block2arena, blocks_from, desc_cnt}
use winux_os.Memory.Heap.Books.{
  one_if, occurrences, occurrences-++, Books, size_of, blocks_of, block_at, count_in, IsPlaced,
  IsArena, IsBalanced, open_arena,
}
use winux_os.Memory.Heap.Books.Places.{
  block2arena-block_at, count_in-++, occurrences-blocks_from, blocks_from-block_at,
  count_in-blocks_from, count_in-other,
}

count_in-none :
    (a : ℕ) (xs : List ℕ)
    → ((x : ℕ) → 0 < occurrences x xs → (block2arena x == a) ≡ false)
    → count_in a xs ≡ 0
count_in-none a [] h = refl
count_in-none a (x ∷ xs) h =
    omega (arith, ap one_if (h x (ground arith)), count_in-none a xs (λ y p. h y (omega arith)))

-- Blocks of the arena at `a` are in no other arena.
module _ (s : Books) (bal : IsBalanced s) (a i : ℕ) (classed : i < desc_cnt)
    (aligned : a % page_size ≡ 0) where
  abbrev blocks : List ℕ
  blocks = blocks_from a (size_of i) 0 (blocks_of i)

  pub block_home : (x : ℕ) → 0 < occurrences x blocks → block2arena x ≡ a
  block_home x h =
      let (k, p, e) = blocks_from-block_at a i classed 0 (blocks_of i) x h in
      ap block2arena e ∙ block2arena-block_at a i k classed aligned (omega arith)

  pub not_here :
      (c j k : ℕ)
      → s.owner c ≡ some j
      → k < blocks_of j
      → (a == c) ≡ false
      → occurrences (block_at c j k) blocks ≡ 0
  not_here c j k own p ne =
      let arena = bal.arenas c j own in
      let home = block2arena-block_at c j k arena.classed arena.aligned p in
      ground (arith, home, block_home (block_at c j k))

  pub here_once : (k : ℕ) → k < blocks_of i → occurrences (block_at a i k) blocks ≡ 1
  here_once k p = ground (arith, occurrences-blocks_from a i classed 0 (blocks_of i) k)

  module _ (unused : s.owner a ≡ none) (not_null : a ≢ 0) where
    -- Nothing is placed in a page that is no arena.
    elsewhere : (j x : ℕ) → IsPlaced s.owner j x → (block2arena x == a) ≡ false
    elsewhere j x placed = elim (Bool-cases (block2arena x == a)) [
      | inr no_hit ↦ no_hit
      | inl here ↦
          let e : block2arena x ≡ a = ground arith in
          let clash : some j ≡ none = sym placed.owned ∙ ap s.owner e ∙ unused in
          absurd (ground (arith, clash))
    ]

    unplaced :
        (k : ℕ)
        → k < blocks_of i
        → (occurrences (block_at a i k) (s.free i) ≡ 0) × (occurrences (block_at a i k) s.live ≡ 0)
    unplaced k p =
        let home = block2arena-block_at a i k classed aligned p in
        (
          ground (
            arith,
            home,
            λ (h : 0 < occurrences (block_at a i k) (s.free i)).
                elsewhere i (block_at a i k) (bal.free_placed i (block_at a i k) h),
          ),
          ground (
            arith,
            home,
            λ (h : 0 < occurrences (block_at a i k) s.live).
                elsewhere (bal.live_placed (block_at a i k) h).0 (block_at a i k)
                  (bal.live_placed (block_at a i k) h).1,
          ),
        )

    -- The place of an old block is as before.
    still : (j x : ℕ) → IsPlaced s.owner j x → IsPlaced (update s.owner a (some i)) j x
    still j x p = record {
      index = p.index;
      in_arena = p.in_arena;
      owned = ground (arith, elsewhere j x p, p.owned);
      lies = p.lies;
    }

    fresh : (x : ℕ) → 0 < occurrences x blocks → IsPlaced (update s.owner a (some i)) i x
    fresh x h =
        let (k, p, e) = blocks_from-block_at a i classed 0 (blocks_of i) x h in
        let home = block_home x h in
        record {
          index = k;
          in_arena = omega arith;
          owned = ground (arith, home);
          lies = e ∙ ap (λ t. block_at t i k) (sym home);
        }

    abbrev opened : Books
    opened = open_arena s i a

    new-IsArena : IsArena opened a i
    unfolding open_arena
    new-IsArena = record {
      classed = classed;
      aligned = aligned;
      not_null = not_null;
      counted = ground (
        arith,
        count_in-++ a (s.free i) blocks,
        count_in-blocks_from a i classed 0 (blocks_of i) aligned (omega arith),
        count_in-none a (s.free i) (λ x h. elsewhere i x (bal.free_placed i x h)),
      );
      once = λ k p.
          ground
            (arith, occurrences-++ (block_at a i k) (s.free i) blocks, here_once k p, unplaced k p);
    }

    old-IsArena : (c j : ℕ) → (a == c) ≡ false → s.owner c ≡ some j → IsArena opened c j
    unfolding open_arena
    old-IsArena c j ne own =
        let arena = bal.arenas c j own in
        record {
          classed = arena.classed;
          aligned = arena.aligned;
          not_null = arena.not_null;
          counted = ground (
            arith,
            arena.counted,
            count_in-++ c (s.free j) blocks,
            count_in-other a i classed c 0 (blocks_of i) ne aligned (omega arith),
          );
          once = λ k p. ground (
            arith,
            arena.once k p,
            occurrences-++ (block_at c j k) (s.free j) blocks,
            not_here c j k own p ne,
          );
        }

    pub open_arena-IsBalanced : IsBalanced opened
    unfolding open_arena
    open_arena-IsBalanced = record {
      arenas = λ c j own. elim (Bool-cases (a == c)) [
        | inl here ↦
            let e : a ≡ c = ground arith in
            let same : some i ≡ some j = rw here at own in
            let e' : i ≡ j = ground (arith, same) in
            subst (λ t. IsArena opened t j) e (subst (λ t. IsArena opened a t) e' new-IsArena)
        | inr there ↦ old-IsArena c j there (rw there at own)
      ];
      free_placed = λ j x h. elim (Bool-cases (i == j)) [
        | inr differ ↦ still j x (bal.free_placed j x (rw differ at h))
        | inl same ↦
            let e : i ≡ j = ground arith in
            let h' : 0 < occurrences x (s.free j ++ blocks) = rw same at h in
            elim (dec_lt 0 (occurrences x blocks)) [
              | yes new ↦ subst (λ t. IsPlaced (update s.owner a (some i)) t x) e (fresh x new)
              | no old ↦
                  still j x
                    (bal.free_placed j x (omega (arith, occurrences-++ x (s.free j) blocks)))
            ]
      ];
      live_placed = λ x h. let (j, p) = bal.live_placed x h in (j, still j x p);
    }
