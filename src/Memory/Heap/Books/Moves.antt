-- ===== src/Memory/Heap/Books/Moves.antt =====
-- Handing out a block and taking one back keep the books balanced.
use winux_os.Base.{
  ℕ, ◌+◌, ◌-◌, ◌<◌, ◌≡◌, ◌∙◌, sym, ap, subst, false, inl, inr, Bool-cases, List, [], ◌∷◌, ◌++◌,
  some, ◌==◌, if◌then◌else◌, update, arith,
}
use winux_os.Memory.Heap.{block2arena, remove}
use winux_os.Memory.Heap.Books.{
  one_if, occurrences, occurrences-++, Books, blocks_of, block_at, count_in, IsPlaced, IsBalanced,
  take, give,
}
use winux_os.Memory.Heap.Books.Places.{block2arena-block_at, occurrences-remove, count_in-++}

module _ (s : Books) (bal : IsBalanced s) where
  -- A block of an arena and a block that is placed elsewhere are different.
  pub apart :
      (a i j k b : ℕ)
      → s.owner a ≡ some j
      → k < blocks_of j
      → IsPlaced s.owner i b
      → (i == j) ≡ false
      → (b == block_at a j k) ≡ false
  apart a i j k b own p placed ne = elim (Bool-cases (b == block_at a j k)) [
    | inr no_hit ↦ no_hit
    | inl here ↦
        let arena = bal.arenas a j own in
        let home = block2arena-block_at a j k arena.classed arena.aligned p in
        let e : b ≡ block_at a j k = ground arith in
        let same : some i ≡ some j =
          sym placed.owned ∙ ap s.owner (ap block2arena e ∙ home) ∙ own in
        ground (arith, same)
  ]

  -- A free block is not handed out.
  pub free-not_live :
      (i b : ℕ)
      → 0 < occurrences b (s.free i)
      → (occurrences b (s.free i) ≡ 1) × (occurrences b s.live ≡ 0)
  free-not_live i b h =
      let p = bal.free_placed i b h in
      let once = (bal.arenas (block2arena b) i p.owned).once p.index p.in_arena in
      let free = ap (λ t. occurrences t (s.free i)) p.lies in
      let live = ap (λ t. occurrences t s.live) p.lies in (omega arith, omega arith)

  -- An arena has one class.
  pub other_arena :
      (a i j b : ℕ)
      → s.owner a ≡ some j
      → IsPlaced s.owner i b
      → (i == j) ≡ false
      → (block2arena b == a) ≡ false
  other_arena a i j b own placed ne = elim (Bool-cases (block2arena b == a)) [
    | inr no_hit ↦ no_hit
    | inl here ↦
        let e : block2arena b ≡ a = ground arith in
        let same : some i ≡ some j = sym placed.owned ∙ ap s.owner e ∙ own in ground (arith, same)
  ]

  module _ (i b : ℕ) (rest : List ℕ) (first : s.free i ≡ b ∷ rest) where
    taken : IsPlaced s.owner i b
    taken = bal.free_placed i b (ground (arith, first))

    take_counted :
        (a j : ℕ)
        → s.owner a ≡ some j
        → update s.cnt (block2arena b) (s.cnt (block2arena b) - 1) a
          ≡ count_in a (if i == j then rest else s.free j)
    take_counted a j own =
        let counted = (bal.arenas a j own).counted in
        elim (Bool-cases (i == j)) [
          | inl same ↦
              let e : i ≡ j = ground arith in
              let before : count_in a (s.free j) ≡ one_if (block2arena b == a) + count_in a rest =
                ap (count_in a) (ap s.free (sym e) ∙ first) in
              rw same (ground (arith, before))
          | inr differ ↦ rw differ (ground (arith, other_arena a i j b own taken differ))
        ]

    take_once :
        (a j k : ℕ)
        → s.owner a ≡ some j
        → k < blocks_of j
        → occurrences (block_at a j k) (if i == j then rest else s.free j)
            + occurrences (block_at a j k) (b ∷ s.live)
          ≡ 1
    take_once a j k own p =
        let once = (bal.arenas a j own).once k p in
        elim (Bool-cases (i == j)) [
          | inl same ↦
              let e : i ≡ j = ground arith in
              let before = ap (occurrences (block_at a j k)) (ap s.free (sym e) ∙ first) in
              rw same (omega arith)
          | inr differ ↦ rw differ (omega (arith, ap one_if (apart a i j k b own p taken differ)))
        ]

    take_placed :
        (j x : ℕ)
        → 0 < occurrences x (if i == j then rest else s.free j)
        → 0 < occurrences x (s.free j)
    take_placed j x h = elim (Bool-cases (i == j)) [
      | inl same ↦
          let e : i ≡ j = ground arith in
          let before = ap (occurrences x) (ap s.free (sym e) ∙ first) in
          let h' : 0 < occurrences x rest = rw same at h in omega arith
      | inr differ ↦ rw differ at h
    ]

    pub take-IsBalanced : IsBalanced (take s i b rest)
    unfolding take
    take-IsBalanced = record {
      arenas = λ a j own.
          let arena = bal.arenas a j own in
          record {
            classed = arena.classed;
            aligned = arena.aligned;
            not_null = arena.not_null;
            counted = take_counted a j own;
            once = λ k p. take_once a j k own p;
          };
      free_placed = λ j x h. bal.free_placed j x (take_placed j x h);
      live_placed = λ x h. elim (Bool-cases (b == x)) [
        | inl here ↦
            let e : b ≡ x = ground arith in subst (λ t. (j : ℕ) × IsPlaced s.owner j t) e (i, taken)
        | inr there ↦ bal.live_placed x (omega (arith, ap one_if there))
      ];
    }

  -- A block that is handed out is not free.
  pub live-not_free :
      (i b : ℕ)
      → IsPlaced s.owner i b
      → 0 < occurrences b s.live
      → (occurrences b s.live ≡ 1) × (occurrences b (s.free i) ≡ 0)
  live-not_free i b p h =
      let once = (bal.arenas (block2arena b) i p.owned).once p.index p.in_arena in
      let free = ap (λ t. occurrences t (s.free i)) p.lies in
      let live = ap (λ t. occurrences t s.live) p.lies in (omega arith, omega arith)

  module _ (i b : ℕ) (placed : IsPlaced s.owner i b) (held : 0 < occurrences b s.live) where
    give_counted :
        (a j : ℕ)
        → s.owner a ≡ some j
        → update s.cnt (block2arena b) (s.cnt (block2arena b) + 1) a
          ≡ count_in a (if i == j then s.free j ++ b ∷ [] else s.free j)
    give_counted a j own =
        let counted = (bal.arenas a j own).counted in
        elim (Bool-cases (i == j)) [
          | inl same ↦ rw same (ground (arith, count_in-++ a (s.free j) (b ∷ [])))
          | inr differ ↦ rw differ (ground (arith, other_arena a i j b own placed differ))
        ]

    give_once :
        (a j k : ℕ)
        → s.owner a ≡ some j
        → k < blocks_of j
        → occurrences (block_at a j k) (if i == j then s.free j ++ b ∷ [] else s.free j)
            + occurrences (block_at a j k) (remove b s.live)
          ≡ 1
    give_once a j k own p =
        let once = (bal.arenas a j own).once k p in
        let gone = occurrences-remove (block_at a j k) b s.live in
        elim (Bool-cases (i == j)) [
          | inl same ↦
              let held_at = λ (e : b ≡ block_at a j k). ap (λ t. occurrences t s.live) e in
              rw same (
                ground
                  (arith, gone, once, occurrences-++ (block_at a j k) (s.free j) (b ∷ []), held_at))
          | inr differ ↦ rw differ (omega (arith, ap one_if (apart a i j k b own p placed differ)))
        ]

    give_placed :
        (j x : ℕ)
        → 0 < occurrences x (if i == j then s.free j ++ b ∷ [] else s.free j)
        → IsPlaced s.owner j x
    give_placed j x h = elim (Bool-cases (i == j)) [
      | inr differ ↦ bal.free_placed j x (rw differ at h)
      | inl same ↦
          let e : i ≡ j = ground arith in
          let h' : 0 < occurrences x (s.free j ++ b ∷ []) = rw same at h in
          elim (Bool-cases (b == x)) [
            | inl here ↦
                let q : b ≡ x = ground arith in
                subst (λ t. IsPlaced s.owner t x) e (subst (λ t. IsPlaced s.owner i t) q placed)
            | inr there ↦
                bal.free_placed j x
                  (omega (arith, ap one_if there, occurrences-++ x (s.free j) (b ∷ [])))
          ]
    ]

    pub give-IsBalanced : IsBalanced (give s i b)
    unfolding give
    give-IsBalanced = record {
      arenas = λ a j own.
          let arena = bal.arenas a j own in
          record {
            classed = arena.classed;
            aligned = arena.aligned;
            not_null = arena.not_null;
            counted = give_counted a j own;
            once = λ k p. give_once a j k own p;
          };
      free_placed = give_placed;
      live_placed = λ x h. bal.live_placed x (omega (arith, occurrences-remove x b s.live));
    }
