-- ===== src/LinkedList/Chain.antt =====
-- The list that the links represent.
use winux_os.Base.{ℕ, ◌≡◌, refl, true, List, [], ◌∷◌, ◌++◌, contains, IsDistinct, arith}
use winux_os.LinkedList.{Links, tail_of, list_init}

-- From node `a` the links lead through `xs` to node `b`, and back.
abbrev pub IsChain : Links → ℕ → List ℕ → ℕ → Type 0
IsChain s a [] b = (s.next a ≡ b) × (s.prev b ≡ a)
IsChain s a (x ∷ xs) b = (s.next a ≡ x) × (s.prev x ≡ a) × IsChain s x xs b

-- The list at `plist` has the elements `xs`, all different, also from the list's own two nodes.
pub record IsList (s : Links) (plist : ℕ) (xs : List ℕ) : Type 0 where
  pub chain : IsChain s plist xs (tail_of plist)
  pub distinct : IsDistinct (plist ∷ xs ++ tail_of plist ∷ [])

-- Links that agree on a chain's nodes keep the chain.
pub IsChain-agree :
    (s t : Links) (a : ℕ) (xs : List ℕ) (b : ℕ)
    → IsChain s a xs b
    → ((y : ℕ) → contains (a ∷ xs) y ≡ true → t.next y ≡ s.next y)
    → ((y : ℕ) → contains (xs ++ b ∷ []) y ≡ true → t.prev y ≡ s.prev y)
    → IsChain t a xs b
unfolding contains
IsChain-agree s t a [] b c hn hp = (ground (arith, hn a, c.0), ground (arith, hp b, c.1))
IsChain-agree s t a (x ∷ xs) b c hn hp = (
  ground (arith, hn a, c.0),
  ground (arith, hp x, c.1),
  IsChain-agree s t x xs b c.2 (λ y h. hn y (ground arith)) (λ y h. hp y (ground arith)),
)

-- The node before the end of a chain stands in the chain.
pub chain_last :
    (s : Links) (a : ℕ) (xs : List ℕ) (b : ℕ)
    → IsChain s a xs b
    → contains (a ∷ xs) (s.prev b) ≡ true
unfolding contains
chain_last s a [] b c = ground arith
chain_last s a (x ∷ xs) b c = ground (arith, chain_last s x xs b c.2)

-- The node after the start of a chain stands in the rest of it.
pub chain_first :
    (s : Links) (a : ℕ) (xs : List ℕ) (b : ℕ)
    → IsChain s a xs b
    → contains (xs ++ b ∷ []) (s.next a) ≡ true
unfolding contains
chain_first s a [] b c = ground arith
chain_first s a (x ∷ xs) b c = ground arith

-- A chain through `m` is a chain to `m` and one from `m` on.
pub IsChain-++ :
    (s : Links) (a : ℕ) (xs : List ℕ) (m : ℕ) (ys : List ℕ) (b : ℕ)
    → IsChain s a xs m
    → IsChain s m ys b
    → IsChain s a (xs ++ m ∷ ys) b
IsChain-++ s a [] m ys b c d = (c.0, c.1, d)
IsChain-++ s a (x ∷ xs) m ys b c d = (c.0, c.1, IsChain-++ s x xs m ys b c.2 d)

pub IsChain-split :
    (s : Links) (a : ℕ) (xs : List ℕ) (m : ℕ) (ys : List ℕ) (b : ℕ)
    → IsChain s a (xs ++ m ∷ ys) b
    → IsChain s a xs m × IsChain s m ys b
IsChain-split s a [] m ys b c = ((c.0, c.1), c.2)
IsChain-split s a (x ∷ xs) m ys b c =
    let both = IsChain-split s x xs m ys b c.2 in ((c.0, c.1, both.0), both.1)

-- `list_init` makes the list at `plist` empty.
pub list_init-IsList : (s : Links) (plist : ℕ) → IsList (list_init s plist) plist []
unfolding list_init contains
list_init-IsList s plist = record {
  chain = (ground arith, ground arith);
  distinct = (ground arith, (refl, tt));
}
