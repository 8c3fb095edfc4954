-- ===== src/LinkedList/Examples.antt =====
-- The theorems on lists at two small lists in one memory.
use winux_os.Base.{ℕ, ◌≡◌, [], ◌∷◌, ◌==◌, contains, some, ltb, arith, if◌then◌else◌}
use winux_os.LinkedList.{Links, list_append, list_pop, list_remove, list_traversal}
use winux_os.LinkedList.Chain.{IsList}
use winux_os.LinkedList.Change.{list_remove-IsList}
use winux_os.LinkedList.Loops.{list_traversal_lem}
use winux_os.LinkedList.Shared.{append-breaks}
use winux_os.LinkedList.Several.{move-IsList}

-- The list at 16 holds the nodes 40, 48 and 56, and the list at 72 holds 96.
abbrev prev_of : ℕ → ℕ
prev_of p =
    if p == 40
    then 16
    else if p == 48
    then 40
    else if p == 56
    then 48
    else if p == 24
    then 56
    else if p == 96
    then 72
    else 96

abbrev next_of : ℕ → ℕ
next_of p =
    if p == 16
    then 40
    else if p == 40
    then 48
    else if p == 48
    then 56
    else if p == 56
    then 24
    else if p == 72
    then 96
    else 80

abbrev memory : Links
memory = record { prev = prev_of; next = next_of }

three-IsList : IsList memory 16 (40 ∷ 48 ∷ 56 ∷ [])
unfolding contains
three-IsList = record { chain = ground arith; distinct = ground arith }

one-IsList : IsList memory 72 (96 ∷ [])
unfolding contains
one-IsList = record { chain = ground arith; distinct = ground arith }

move-IsList_example :
    IsList (list_append (list_pop memory 16).0 72 (list_pop memory 16).1) 16 (48 ∷ 56 ∷ [])
    × IsList (list_append (list_pop memory 16).0 72 (list_pop memory 16).1) 72 (96 ∷ 40 ∷ [])
unfolding contains
move-IsList_example =
    move-IsList memory 16 40 (48 ∷ 56 ∷ []) 72 (96 ∷ []) three-IsList one-IsList (λ t. ground arith)

list_remove-IsList_example : IsList (list_remove memory 48) 16 (40 ∷ 56 ∷ [])
list_remove-IsList_example = list_remove-IsList memory 16 (40 ∷ []) 48 (56 ∷ []) three-IsList

list_traversal_lem_example : list_traversal 4 memory 16 (λ elem arg. ltb arg elem) 40 ≡ some 48
list_traversal_lem_example =
    list_traversal_lem memory 16 (40 ∷ 48 ∷ 56 ∷ []) three-IsList (λ elem arg. ltb arg elem) 4 40
      (omega arith) (omega arith)

append-breaks_example : ¬ IsList (list_append memory 72 48) 16 (40 ∷ 48 ∷ 56 ∷ [])
unfolding contains
append-breaks_example =
    append-breaks memory 16 (40 ∷ []) 48 (56 ∷ []) 72 (96 ∷ []) (λ t. ground arith)
