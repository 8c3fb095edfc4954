-- ===== src/LinkedList.antt =====
-- lib/kernel/list.c: doubly linked lists, as the links that the nodes hold in memory. A node is
-- the address of its `list_elem`. The links are changed with interrupts off, so that each
-- operation is one step. A write through a stray pointer changes the links at that address.
pub mod Chain
pub mod Change
pub mod Loops
pub mod Several
pub mod Shared
mod Examples
use winux_os.Base.{
  ℕ, zero, suc, ◌+◌, Bool, true, false, Option, none, some, ◌==◌, if◌then◌else◌, update, u32,
}

-- The members `prev` and `next` of every `list_elem`.
pub record Links : Type 0 where
  pub prev : ℕ → ℕ
  pub next : ℕ → ℕ

abbrev pub set_prev : Links → ℕ → ℕ → Links
set_prev s elem to = record s { prev = update s.prev elem to }

abbrev pub set_next : Links → ℕ → ℕ → Links
set_next s elem to = record s { next = update s.next elem to }

abbrev pub null : ℕ
null = 0

-- A `struct list` at `plist`: two nodes of 8 bytes each, `head` and `tail`.
abbrev pub tail_of : ℕ → ℕ
tail_of plist = plist + 8

unfoldable pub list_init : Links → ℕ → Links
list_init s plist =
    let s₁ = set_prev s plist null in
    let s₂ = set_next s₁ plist (tail_of plist) in
    let s₃ = set_prev s₂ (tail_of plist) plist in set_next s₃ (tail_of plist) null

unfoldable pub list_insert_before : Links → ℕ → ℕ → Links
list_insert_before s before elem =
    let s₁ = set_prev s elem (s.prev before) in
    let s₂ = set_next s₁ (s₁.prev before) elem in
    let s₃ = set_next s₂ elem before in set_prev s₃ before elem

unfoldable pub list_push : Links → ℕ → ℕ → Links
unfolding list_insert_before
list_push s plist elem = list_insert_before s (s.next plist) elem

unfoldable pub list_append : Links → ℕ → ℕ → Links
unfolding list_insert_before
list_append s plist elem = list_insert_before s (tail_of plist) elem

unfoldable pub list_remove : Links → ℕ → Links
list_remove s elem =
    let s₁ = set_next s (s.prev elem) (s.next elem) in set_prev s₁ (s₁.next elem) (s₁.prev elem)

unfoldable pub list_pop : Links → ℕ → Links × ℕ
unfolding list_remove
list_pop s plist = (list_remove s (s.next plist), s.next plist)

unfoldable pub list_empty : Links → ℕ → Bool
list_empty s plist = s.next plist == tail_of plist

-- The loops walk from `p` to the tail, at most `fuel` nodes far; `none` is a walk that needs more.
unfoldable pub find_from : ℕ → Links → ℕ → ℕ → ℕ → Option Bool
find_from zero s tail obj_elem p = none
find_from (suc fuel) s tail obj_elem p =
    let rest = find_from fuel s tail obj_elem (s.next p) in
    if p == tail then some false else if p == obj_elem then some true else rest

unfoldable pub elem_find : ℕ → Links → ℕ → ℕ → Option Bool
elem_find fuel s plist obj_elem = find_from fuel s (tail_of plist) obj_elem (s.next plist)

unfoldable pub count_from : ℕ → Links → ℕ → ℕ → ℕ → Option ℕ
count_from zero s tail elem length = none
count_from (suc fuel) s tail elem length =
    let rest = count_from fuel s tail (s.next elem) (u32 (length + 1)) in
    if elem == tail then some length else rest

unfoldable pub list_len : ℕ → Links → ℕ → Option ℕ
list_len fuel s plist = count_from fuel s (tail_of plist) (s.next plist) 0

-- `func(elem,arg)` as a test of the element and the argument, which changes nothing.
unfoldable pub traverse_from : ℕ → Links → ℕ → (ℕ → ℕ → Bool) → ℕ → ℕ → Option ℕ
traverse_from zero s tail func arg elem = none
traverse_from (suc fuel) s tail func arg elem =
    let rest = traverse_from fuel s tail func arg (s.next elem) in
    if elem == tail then some null else if func elem arg then some elem else rest

-- An empty list is answered without a walk.
unfoldable pub traverse_counted : Option ℕ → Option ℕ → Option ℕ
traverse_counted none walk = none
traverse_counted (some zero) walk = some null
traverse_counted (some (suc _)) walk = walk

unfoldable pub list_traversal : ℕ → Links → ℕ → (ℕ → ℕ → Bool) → ℕ → Option ℕ
unfolding traverse_counted
list_traversal fuel s plist func arg =
    traverse_counted (list_len fuel s plist)
      (traverse_from fuel s (tail_of plist) func arg (s.next plist))
