-- ===== src/LinkedList/Change.antt =====
-- Insertion and removal at the level of the sequence that a list represents.
use winux_os.Base.{
  ℕ, ◌≡◌, refl, false, List, [], ◌∷◌, ◌++◌, ◌≢◌, contains, contains-++, contains-append, IsDistinct,
  arith, append_assoc, subst, sym, ap, ◌∙◌, ◌⊎◌, inl,
}
use winux_os.LinkedList.{
  Links, tail_of, list_insert_before, list_push, list_append, list_remove, list_pop,
}
use winux_os.LinkedList.Chain.{
  IsChain, IsList, IsChain-agree, chain_last, chain_first, IsChain-++, IsChain-split,
}

-- The new node comes last in the chain that leads to `m`.
insert-left :
    (s : Links) (a : ℕ) (xs : List ℕ) (m e : ℕ)
    → IsChain s a xs m
    → IsDistinct (a ∷ xs)
    → contains (a ∷ xs) m ≡ false
    → contains (a ∷ xs) e ≡ false
    → e ≢ m
    → IsChain (list_insert_before s m e) a (xs ++ e ∷ []) m
unfolding list_insert_before contains
insert-left s a [] m e c d hm he ne =
    (ground (arith, c.0, c.1), ground (arith, c.0, c.1), (ground arith, ground arith))
insert-left s a (x ∷ xs) m e c d hm he ne = (
  ground (arith, c.0, d.0, chain_last s x xs m c.2),
  ground (arith, c.1),
  insert-left s x xs m e c.2 d.1 (ground arith) (ground arith) ne,
)

-- The chain that starts at `m` stays.
insert-right :
    (s : Links) (m : ℕ) (ys : List ℕ) (b e : ℕ)
    → IsChain s m ys b
    → contains (m ∷ ys) (s.prev m) ≡ false
    → contains (ys ++ b ∷ []) m ≡ false
    → contains (m ∷ ys ++ b ∷ []) e ≡ false
    → IsChain (list_insert_before s m e) m ys b
unfolding list_insert_before contains
insert-right s m ys b e c hl hm he =
    IsChain-agree s _ m ys b c (λ y h. ground (arith, contains-append ys b e))
      (λ y h. ground (arith, contains-append ys b e))

-- Taking `e` out joins the chain that leads to it and the one that starts at it.
remove-join :
    (s : Links) (a : ℕ) (xs : List ℕ) (e : ℕ) (ys : List ℕ) (b : ℕ)
    → IsChain s a xs e
    → IsChain s e ys b
    → IsDistinct (a ∷ xs ++ (e ∷ ys ++ b ∷ []))
    → IsChain (list_remove s e) a (xs ++ ys) b
unfolding list_remove contains
remove-join s a [] e [] b c k d =
    (ground (arith, c.1, k.0, d.0), ground (arith, c.1, k.0, k.1, d.0))
remove-join s a [] e (y ∷ ys) b c k d = (
  ground (arith, c.1, k.0, d.0),
  ground (arith, c.1, k.0, k.1, d.0),
  IsChain-agree s _ y ys b k.2 (λ z h. ground (arith, c.1, d.0, contains-append ys b a))
      (λ z h. ground (arith, c.1, k.0, k.1, d.1.1.0)),
)
remove-join s a (x ∷ xs) e ys b c k d = (
  ground (arith, c.0, d.0, chain_last s x xs e c.2, contains-++ xs (e ∷ ys ++ b ∷ []) a),
  ground (arith, c.1, d.1.0, chain_first s e ys b k, contains-++ xs (e ∷ ys ++ b ∷ []) x),
  remove-join s x xs e ys b c.2 k d.1,
)

-- Where a list stands in a longer sequence.
IsDistinct-left : (xs ys : List ℕ) → IsDistinct (xs ++ ys) → IsDistinct xs
unfolding contains
IsDistinct-left [] ys d = tt
IsDistinct-left (x ∷ xs) ys d =
    (ground (arith, contains-++ xs ys x, d.0), IsDistinct-left xs ys d.1)

IsDistinct-right : (xs ys : List ℕ) → IsDistinct (xs ++ ys) → IsDistinct ys
IsDistinct-right [] ys d = d
IsDistinct-right (x ∷ xs) ys d = IsDistinct-right xs ys d.1

-- What stands in one part of a sequence without repetition does not stand in the other.
pub apart :
    (xs ys : List ℕ) (t : ℕ)
    → IsDistinct (xs ++ ys)
    → (contains xs t ≡ false) ⊎ (contains ys t ≡ false)
unfolding contains
apart [] ys t d = inl refl
apart (x ∷ xs) ys t d = ground (arith, apart xs ys t d.1, d.0, contains-++ xs ys x)

IsDistinct-insert :
    (xs : List ℕ) (e : ℕ) (ys : List ℕ)
    → IsDistinct (xs ++ ys)
    → contains (xs ++ ys) e ≡ false
    → IsDistinct (xs ++ e ∷ ys)
unfolding contains
IsDistinct-insert [] e ys d h = (h, d)
IsDistinct-insert (x ∷ xs) e ys d h = (
  ground (arith, d.0, contains-++ xs ys x, contains-++ xs (e ∷ ys) x),
  IsDistinct-insert xs e ys d.1 (ground arith),
)

IsDistinct-delete :
    (xs : List ℕ) (e : ℕ) (ys : List ℕ) → IsDistinct (xs ++ e ∷ ys) → IsDistinct (xs ++ ys)
unfolding contains
IsDistinct-delete [] e ys d = d.1
IsDistinct-delete (x ∷ xs) e ys d = (
  ground (arith, d.0, contains-++ xs ys x, contains-++ xs (e ∷ ys) x),
  IsDistinct-delete xs e ys d.1,
)

-- The same sequence, read as the nodes up to `m` and those from `m` on.
nodes :
    (p : ℕ) (xs : List ℕ) (m : ℕ) (ys : List ℕ) (b : ℕ)
    → (p ∷ (xs ++ m ∷ ys) ++ b ∷ []) ≡ ((p ∷ xs) ++ (m ∷ ys ++ b ∷ []))
nodes p xs m ys b = ap (λ zs. p ∷ zs) (append_assoc xs (m ∷ ys) (b ∷ []))

insert-IsChain :
    (s : Links) (a : ℕ) (xs : List ℕ) (m : ℕ) (ys : List ℕ) (b e : ℕ)
    → IsChain s a xs m
    → IsChain s m ys b
    → IsDistinct ((a ∷ xs) ++ (m ∷ ys ++ b ∷ []))
    → contains ((a ∷ xs) ++ (m ∷ ys ++ b ∷ [])) e ≡ false
    → IsChain (list_insert_before s m e) a ((xs ++ e ∷ []) ++ m ∷ ys) b
unfolding contains
insert-IsChain s a xs m ys b e c k d h =
    let right = m ∷ ys ++ b ∷ [] in
    let out = contains-++ xs right e in
    let last = chain_last s a xs m c in
    IsChain-++ _ a (xs ++ e ∷ []) m ys b
      (insert-left s a xs m e c (IsDistinct-left (a ∷ xs) right d)
        (ground (arith, apart (a ∷ xs) right m d)) (ground arith) (ground arith))
      (insert-right s m ys b e k
        (ground (arith, apart (a ∷ xs) right (s.prev m) d, contains-append ys b (s.prev m)))
        (IsDistinct-right (a ∷ xs) right d).0 (ground arith))

module _ (s : Links) (plist : ℕ) where
  -- `list_insert_before` a node of the list: `elem` comes right before it.
  pub insert_before-IsList :
      (xs : List ℕ) (m : ℕ) (ys : List ℕ) (elem : ℕ)
      → IsList s plist (xs ++ m ∷ ys)
      → contains (plist ∷ (xs ++ m ∷ ys) ++ tail_of plist ∷ []) elem ≡ false
      → IsList (list_insert_before s m elem) plist ((xs ++ elem ∷ []) ++ m ∷ ys)
  unfolding contains
  insert_before-IsList xs m ys elem l h =
      let both = IsChain-split s plist xs m ys (tail_of plist) l.chain in
      let here = nodes plist xs m ys (tail_of plist) in
      let rest = m ∷ ys ++ tail_of plist ∷ [] in
      let there =
        nodes plist (xs ++ elem ∷ []) m ys (tail_of plist)
        ∙ ap (λ zs. plist ∷ zs) (append_assoc xs (elem ∷ []) rest) in
      let d = subst IsDistinct here l.distinct in
      let fresh = subst (λ zs. contains zs elem ≡ false) here h in
      record {
        chain = insert-IsChain s plist xs m ys (tail_of plist) elem both.0 both.1 d fresh;
        distinct = subst IsDistinct (sym there) (IsDistinct-insert (plist ∷ xs) elem rest d fresh);
      }

  -- `list_append` of a new node makes it the last element.
  pub list_append-IsList :
      (xs : List ℕ) (elem : ℕ)
      → IsList s plist xs
      → contains (plist ∷ xs ++ tail_of plist ∷ []) elem ≡ false
      → IsList (list_append s plist elem) plist (xs ++ elem ∷ [])
  unfolding list_append contains
  list_append-IsList xs elem l h =
      let end = tail_of plist ∷ [] in
      let out = contains-++ (plist ∷ xs) end elem in
      record {
        chain =
            insert-left s plist xs (tail_of plist) elem l.chain
              (IsDistinct-left (plist ∷ xs) end l.distinct)
              (ground (arith, apart (plist ∷ xs) end (tail_of plist) l.distinct)) (ground arith)
              (ground arith);
        distinct =
            subst IsDistinct (ap (λ zs. plist ∷ zs) (sym (append_assoc xs (elem ∷ []) end)))
              (IsDistinct-insert (plist ∷ xs) elem end l.distinct h);
      }

  -- `list_push` of a new node makes it the first element.
  pub list_push-IsList :
      (xs : List ℕ) (elem : ℕ)
      → IsList s plist xs
      → contains (plist ∷ xs ++ tail_of plist ∷ []) elem ≡ false
      → IsList (list_push s plist elem) plist (elem ∷ xs)
  unfolding list_push list_append
  list_push-IsList [] elem l h = rw l.chain.0 (list_append-IsList [] elem l h)
  list_push-IsList (x ∷ xs) elem l h = rw l.chain.0 (insert_before-IsList [] x xs elem l h)

  -- `list_remove` of an element of a list takes exactly this element out of the sequence.
  pub list_remove-IsList :
      (xs : List ℕ) (elem : ℕ) (ys : List ℕ)
      → IsList s plist (xs ++ elem ∷ ys)
      → IsList (list_remove s elem) plist (xs ++ ys)
  list_remove-IsList xs elem ys l =
      let end = tail_of plist ∷ [] in
      let both = IsChain-split s plist xs elem ys (tail_of plist) l.chain in
      let d = subst IsDistinct (nodes plist xs elem ys (tail_of plist)) l.distinct in
      record {
        chain = remove-join s plist xs elem ys (tail_of plist) both.0 both.1 d;
        distinct =
            subst IsDistinct (ap (λ zs. plist ∷ zs) (sym (append_assoc xs ys end)))
              (IsDistinct-delete (plist ∷ xs) elem (ys ++ end) d);
      }

  -- `list_pop` of a list that is not empty returns its first element and takes it out.
  pub list_pop-IsList :
      (x : ℕ) (xs : List ℕ)
      → IsList s plist (x ∷ xs)
      → ((list_pop s plist).1 ≡ x) × IsList (list_pop s plist).0 plist xs
  unfolding list_pop list_remove
  list_pop-IsList x xs l = (l.chain.0, rw l.chain.0 (list_remove-IsList [] x xs l))
