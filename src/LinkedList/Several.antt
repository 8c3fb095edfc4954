-- ===== src/LinkedList/Several.antt =====
-- Two lists in the same memory: a change of one keeps the other, and an element moves from one to
-- the other, the way `schedule` and the semaphores move threads.
use winux_os.Base.{
  ℕ, ◌≡◌, true, false, List, [], ◌∷◌, ◌++◌, ◌==◌, contains, contains-append, arith, ◌⊎◌,
}
use winux_os.LinkedList.{Links, tail_of, list_append, list_remove, list_pop}
use winux_os.LinkedList.Chain.{IsList, IsChain-agree, chain_last, chain_first}
use winux_os.LinkedList.Change.{list_append-IsList, list_pop-IsList}

-- All nodes of the list at `plist`, its own two included.
abbrev pub nodes_of : ℕ → List ℕ → List ℕ
nodes_of plist xs = plist ∷ xs ++ tail_of plist ∷ []

-- The lists share no node.
abbrev pub AreApart : ℕ → List ℕ → ℕ → List ℕ → Type 0
AreApart p xs q ys =
    (t : ℕ) → (contains (nodes_of p xs) t ≡ false) ⊎ (contains (nodes_of q ys) t ≡ false)

IsList-agree :
    (s t : Links) (q : ℕ) (ys : List ℕ)
    → IsList s q ys
    → ((y : ℕ) → contains (nodes_of q ys) y ≡ true → (t.next y ≡ s.next y) × (t.prev y ≡ s.prev y))
    → IsList t q ys
unfolding contains
IsList-agree s t q ys l same = record {
  chain =
      IsChain-agree s t q ys (tail_of q) l.chain
        (λ y h. ground (arith, same y, contains-append ys (tail_of q) y))
        (λ y h. ground (arith, same y));
  distinct = l.distinct;
}

-- A node of one list is no node of the other.
differ :
    (p : ℕ) (xs : List ℕ) (q : ℕ) (ys : List ℕ)
    → AreApart p xs q ys
    → (z : ℕ) → contains (nodes_of p xs) z ≡ true
    → (y : ℕ) → contains (nodes_of q ys) y ≡ true
    → (z == y) ≡ false
differ p xs q ys other z h y m = ground (arith, other z)

module _ (s : Links) (p : ℕ) (q : ℕ) (ys : List ℕ) where
  pub append_other :
      (xs : List ℕ) (e : ℕ)
      → IsList s p xs
      → IsList s q ys
      → AreApart p xs q ys
      → contains (nodes_of q ys) e ≡ false
      → IsList (list_append s p e) q ys
  unfolding list_append contains
  append_other xs e l k other h =
      let last = s.prev (tail_of p) in
      let at_last = differ p xs q ys other last (
        ground (
          arith,
          contains-append (p ∷ xs) (tail_of p) last,
          chain_last s p xs (tail_of p) l.chain,
        )) in
      let at_tail =
        differ p xs q ys other (tail_of p)
          (ground (arith, contains-append (p ∷ xs) (tail_of p) (tail_of p))) in
      IsList-agree s _ q ys k (λ y m. ground (arith, at_last y m, at_tail y m))

  pub pop_other :
      (x : ℕ) (xs : List ℕ)
      → IsList s p (x ∷ xs)
      → IsList s q ys
      → AreApart p (x ∷ xs) q ys
      → IsList (list_pop s p).0 q ys
  unfolding list_pop list_remove contains
  pop_other x xs l k other =
      let at_head = differ p (x ∷ xs) q ys other p (ground arith) in
      let at_next =
        differ p (x ∷ xs) q ys other (s.next x)
          (ground (arith, chain_first s x xs (tail_of p) l.chain.2)) in
      IsList-agree s _ q ys k
        (λ y m. ground (arith, at_head y m, at_next y m, l.chain.0, l.chain.1, l.distinct))

-- A thread moves: the first element of one list becomes the last of another that shares no node
-- with it, and both are lists again, of the sequence without its first element and of the sequence
-- with the new last one.
pub move-IsList :
    (s : Links) (p x : ℕ) (xs : List ℕ) (q : ℕ) (ys : List ℕ)
    → IsList s p (x ∷ xs)
    → IsList s q ys
    → AreApart p (x ∷ xs) q ys
    → IsList (list_append (list_pop s p).0 q (list_pop s p).1) p xs
      × IsList (list_append (list_pop s p).0 q (list_pop s p).1) q (ys ++ x ∷ [])
unfolding contains
move-IsList s p x xs q ys l k other =
    let popped = list_pop-IsList s p x xs l in
    let fresh : contains (nodes_of q ys) x ≡ false = ground (arith, other x) in
    let rest = pop_other s p q ys x xs l k other in
    rw popped.0 (
      append_other (list_pop s p).0 q p xs ys x rest popped.1 (λ t. ground (arith, other t))
          (ground (arith, l.distinct)),
      list_append-IsList (list_pop s p).0 q ys x rest fresh,
    )
