-- ===== src/Base/Members.antt =====
-- Membership in a list of numbers, and lists without repetition.
use Prim.Native.Nat.{ℕ}
use mathlib.Core.Path.{◌≡◌, refl}
use mathlib.Core.Bool.{Bool, false, ◌||◌}
use mathlib.Core.List.{List, [], ◌∷◌, ◌++◌}
use native.Mathlib.Omega.{arith}
use winux_os.Base.Tests.{◌==◌}

unfoldable pub contains : List ℕ → ℕ → Bool
contains [] t = false
contains (x ∷ xs) t = (x == t) || contains xs t

-- No number stands twice in the list.
abbrev pub IsDistinct : List ℕ → Type 0
IsDistinct [] = Unit
IsDistinct (x ∷ xs) = (contains xs x ≡ false) × IsDistinct xs

pub contains-++ :
    (xs ys : List ℕ) (t : ℕ) → contains (xs ++ ys) t ≡ (contains xs t || contains ys t)
unfolding contains
contains-++ [] ys t = refl
contains-++ (x ∷ xs) ys t = ground (arith, contains-++ xs ys t)

pub contains-append :
    (xs : List ℕ) (x t : ℕ) → contains (xs ++ x ∷ []) t ≡ (contains xs t || (x == t))
unfolding contains
contains-append xs x t = ground (arith, contains-++ xs (x ∷ []) t)

pub IsDistinct-append :
    (xs : List ℕ) (x : ℕ) → IsDistinct xs → contains xs x ≡ false → IsDistinct (xs ++ x ∷ [])
unfolding contains
IsDistinct-append [] x d h = (refl, tt)
IsDistinct-append (y ∷ xs) x d h =
    (ground (arith, contains-append xs x y, d.0), IsDistinct-append xs x d.1 (ground arith))
