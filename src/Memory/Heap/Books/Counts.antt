-- ===== src/Memory/Heap/Books/Counts.antt =====
-- Counting the elements of a list, and the blocks of one arena among them.
use winux_os.Base.{
  ℕ, zero, suc, ◌+◌, ◌<◌, ◌≤◌, ◌≡◌, refl, ap, Bool, true, false, inl, inr, Bool-cases, List, [],
  ◌∷◌, ◌++◌, ◌==◌, arith,
}

abbrev pub one_if : Bool → ℕ
one_if true = 1
one_if false = 0

abbrev pub occurrences : ℕ → List ℕ → ℕ
occurrences x [] = 0
occurrences x (y ∷ ys) = one_if (y == x) + occurrences x ys

pub occurrences-++ :
    (x : ℕ) (xs ys : List ℕ) → occurrences x (xs ++ ys) ≡ occurrences x xs + occurrences x ys
occurrences-++ x [] ys = omega arith
occurrences-++ x (y ∷ xs) ys = omega (arith, occurrences-++ x xs ys)

unfoldable pub sum_below : ℕ → (ℕ → ℕ) → ℕ
sum_below zero f = 0
sum_below (suc n) f = sum_below n f + f n

pub sum_below-ext :
    (n : ℕ) (f g : ℕ → ℕ) → ((k : ℕ) → k < n → f k ≡ g k) → sum_below n f ≡ sum_below n g
unfolding sum_below
sum_below-ext zero f g h = refl
sum_below-ext (suc n) f g h =
    omega (arith, sum_below-ext n f g (λ k p. h k (omega arith)), h n (omega arith))

pub sum_below-add :
    (n : ℕ) (f g : ℕ → ℕ) → sum_below n (λ k. f k + g k) ≡ sum_below n f + sum_below n g
unfolding sum_below
sum_below-add zero f g = refl
sum_below-add (suc n) f g = omega (arith, sum_below-add n f g)

pub sum_below-zero : (n : ℕ) (f : ℕ → ℕ) → ((k : ℕ) → k < n → f k ≡ 0) → sum_below n f ≡ 0
unfolding sum_below
sum_below-zero zero f h = refl
sum_below-zero (suc n) f h =
    omega (arith, sum_below-zero n f (λ k p. h k (omega arith)), h n (omega arith))

pub sum_below-hit : (n k : ℕ) → k < n → sum_below n (λ j. one_if (k == j)) ≡ 1
unfolding sum_below
sum_below-hit zero k h = absurd (omega arith)
sum_below-hit (suc n) k h = elim (Bool-cases (k == n)) [
  | inl here ↦
      omega (arith, ap one_if here, sum_below-zero n (λ j. one_if (k == j)) (λ j p. ground arith))
  | inr there ↦ omega (arith, ap one_if there, sum_below-hit n k (ground arith))
]

pub sum_below-le : (n : ℕ) (f : ℕ → ℕ) → ((k : ℕ) → k < n → f k ≤ 1) → sum_below n f ≤ n
unfolding sum_below
sum_below-le zero f h = omega arith
sum_below-le (suc n) f h =
    omega (arith, sum_below-le n f (λ k p. h k (omega arith)), h n (omega arith))

-- Numbers of at most 1 whose sum is as large as their number are all 1.
pub sum_below-full :
    (n : ℕ) (f : ℕ → ℕ)
    → ((k : ℕ) → k < n → f k ≤ 1)
    → sum_below n f ≡ n
    → (k : ℕ) → k < n
    → f k ≡ 1
unfolding sum_below
sum_below-full zero f h e k p = absurd (omega arith)
sum_below-full (suc n) f h e k p =
    let below = sum_below-le n f (λ j q. h j (omega arith)) in
    let top = h n (omega arith) in
    elim (Bool-cases (k == n)) [
      | inl here ↦ let at : k ≡ n = ground arith in rw at (omega arith)
      | inr there ↦ sum_below-full n f (λ j q. h j (omega arith)) (omega arith) k (ground arith)
    ]
