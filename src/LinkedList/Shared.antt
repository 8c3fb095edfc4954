-- ===== src/LinkedList/Shared.antt =====
-- One node in two lists: `make_main_thread` puts the main thread's `general_tag` into
-- `thread_all_list`, and `schedule` later puts the same tag into `thread_ready_list`.
use winux_os.Base.{
  ℕ, ◌≡◌, ◌∙◌, true, List, [], ◌∷◌, ◌++◌, contains, contains-++, contains-append, arith, sym, ap,
}
use winux_os.LinkedList.{Links, tail_of, list_append}
use winux_os.LinkedList.Chain.{IsList, chain_first, IsChain-split}
use winux_os.LinkedList.Several.{AreApart}

next-append : (s : Links) (q e : ℕ) → (list_append s q e).next e ≡ tail_of q
unfolding list_append
next-append s q e = ground arith

-- After an element of one list is appended to another, with which the first list shares no node,
-- the links no longer represent the first list with that element.
pub append-breaks :
    (s : Links) (p : ℕ) (xs : List ℕ) (e : ℕ) (ys : List ℕ) (q : ℕ) (zs : List ℕ)
    → AreApart p (xs ++ e ∷ ys) q zs
    → ¬ IsList (list_append s q e) p (xs ++ e ∷ ys)
unfolding contains
append-breaks s p xs e ys q zs other l' =
    let right = (IsChain-split (list_append s q e) p xs e ys (tail_of p) l'.chain).1 in
    let first = chain_first (list_append s q e) e ys (tail_of p) right in
    let inside : contains (ys ++ tail_of p ∷ []) (tail_of q) ≡ true =
      ap (contains (ys ++ tail_of p ∷ [])) (sym (next-append s q e)) ∙ first in
    ground (
      arith,
      other (tail_of q),
      contains-append (q ∷ zs) (tail_of q) (tail_of q),
      contains-++ (xs ++ e ∷ ys) (tail_of p ∷ []) (tail_of q),
      contains-++ xs (e ∷ ys) (tail_of q),
      contains-++ ys (tail_of p ∷ []) (tail_of q),
    )
