-- ===== src/LinkedList/Loops.antt =====
-- The loops over a list end, and answer for the sequence that the list represents.
use winux_os.Base.{
  ℕ, zero, suc, ◌+◌, ◌^◌, ◌<◌, ◌≡◌, refl, Bool, false, List, [], ◌∷◌, ◌==◌, some, if◌then◌else◌,
  u32, length, contains, arith,
}
use winux_os.LinkedList.{
  Links, null, tail_of, elem_find, find_from, list_len, count_from, list_traversal, traverse_from,
  traverse_counted, list_empty,
}
use winux_os.LinkedList.Chain.{IsChain, IsList}
use winux_os.LinkedList.Change.{apart}

-- The first element that passes the test.
abbrev pub first_match : (ℕ → ℕ → Bool) → ℕ → List ℕ → ℕ
first_match func arg [] = null
first_match func arg (x ∷ xs) = if func x arg then x else first_match func arg xs

module _ (s : Links) (tail : ℕ) where
  find_walk :
      (fuel obj a : ℕ) (xs : List ℕ)
      → IsChain s a xs tail
      → contains xs tail ≡ false
      → length xs < fuel
      → find_from fuel s tail obj (s.next a) ≡ some (contains xs obj)
  unfolding find_from contains
  find_walk zero obj a xs c h f = absurd (omega arith)
  find_walk (suc fuel) obj a [] c h f = ground (arith, c.0)
  find_walk (suc fuel) obj a (x ∷ xs) c h f = rw c.0 (ground (arith, find_walk fuel obj x xs c.2))

  count_walk :
      (fuel len a : ℕ) (xs : List ℕ)
      → IsChain s a xs tail
      → contains xs tail ≡ false
      → length xs < fuel
      → len < 2 ^ 32
      → count_from fuel s tail (s.next a) len ≡ some (u32 (len + length xs))
  unfolding count_from contains
  count_walk zero len a xs c h f b = absurd (omega arith)
  count_walk (suc fuel) len a [] c h f b = ground (arith, c.0)
  count_walk (suc fuel) len a (x ∷ xs) c h f b =
      rw c.0 (ground (arith, count_walk fuel (u32 (len + 1)) x xs c.2))

  traverse_walk :
      (func : ℕ → ℕ → Bool) (fuel arg a : ℕ) (xs : List ℕ)
      → IsChain s a xs tail
      → contains xs tail ≡ false
      → length xs < fuel
      → traverse_from fuel s tail func arg (s.next a) ≡ some (first_match func arg xs)
  unfolding traverse_from contains
  traverse_walk func zero arg a xs c h f = absurd (omega arith)
  traverse_walk func (suc fuel) arg a [] c h f = ground (arith, c.0)
  traverse_walk func (suc fuel) arg a (x ∷ xs) c h f =
      rw c.0 (ground (arith, traverse_walk func fuel arg x xs c.2))

  empty_walk :
      (a : ℕ) (xs : List ℕ)
      → IsChain s a xs tail
      → contains xs tail ≡ false
      → (s.next a == tail) ≡ (length xs == 0)
  unfolding contains
  empty_walk a [] c h = ground (arith, c.0)
  empty_walk a (x ∷ xs) c h = ground (arith, c.0)

counted_first :
    (func : ℕ → ℕ → Bool) (arg : ℕ) (xs : List ℕ)
    → traverse_counted (some (length xs)) (some (first_match func arg xs))
      ≡ some (first_match func arg xs)
unfolding traverse_counted
counted_first func arg [] = refl
counted_first func arg (x ∷ xs) = refl

module _ (s : Links) (plist : ℕ) (xs : List ℕ) (l : IsList s plist xs) where
  not_tail : contains xs (tail_of plist) ≡ false
  unfolding contains
  not_tail = ground (arith, apart (plist ∷ xs) (tail_of plist ∷ []) (tail_of plist) l.distinct)

  -- `elem_find` ends after at most one step more than the list has elements, and tells whether
  -- the node is an element.
  pub elem_find_lem :
      (fuel obj_elem : ℕ)
      → length xs < fuel
      → elem_find fuel s plist obj_elem ≡ some (contains xs obj_elem)
  unfolding elem_find
  elem_find_lem fuel obj f = find_walk s _ fuel obj plist xs l.chain not_tail f

  -- `list_len` ends likewise with the number of elements, modulo 2^32.
  pub list_len_lem : (fuel : ℕ) → length xs < fuel → list_len fuel s plist ≡ some (u32 (length xs))
  unfolding list_len
  list_len_lem fuel f =
      ground (arith, count_walk s (tail_of plist) fuel 0 plist xs l.chain not_tail f (omega arith))

  -- `list_empty` tells whether there is no element.
  pub list_empty_lem : list_empty s plist ≡ (length xs == 0)
  unfolding list_empty
  list_empty_lem = empty_walk s (tail_of plist) plist xs l.chain not_tail

  -- On a list of fewer than 2^32 elements `list_traversal` ends, with fuel for one step more than
  -- there are elements, with the first element that passes the test, or with NULL if none does.
  pub list_traversal_lem :
      (func : ℕ → ℕ → Bool) (fuel arg : ℕ)
      → length xs < fuel
      → length xs < 2 ^ 32
      → list_traversal fuel s plist func arg ≡ some (first_match func arg xs)
  unfolding list_traversal
  list_traversal_lem func fuel arg f b =
      let small : u32 (length xs) ≡ length xs = omega arith in
      rw
        (
          list_len_lem fuel f,
          small,
          traverse_walk s (tail_of plist) func fuel arg plist xs l.chain not_tail f,
        )
        (counted_first func arg xs)
