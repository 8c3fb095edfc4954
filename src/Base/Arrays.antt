-- ===== src/Base/Arrays.antt =====
-- Memory as a function from offsets to values, and lists measured by native numbers.
use Prim.Native.Nat.{ℕ, zero, suc, ◌+◌, ◌-◌}
use mathlib.Core.Path.{◌≡◌}
use mathlib.Core.Bool.{◌&&◌}
use mathlib.Core.List.{List, [], ◌∷◌, ◌++◌}
use native.Mathlib.Omega.{arith}
use winux_os.Base.Tests.{◌==◌, leb, ltb, if◌then◌else◌}

-- The bytes from a pointer on: `p[i]` is `p i`.
abbrev pub Bytes : Type 0
Bytes = ℕ → ℕ

-- `p[i] = v`
abbrev pub update {ℓ} : {A : Type ℓ} → (ℕ → A) → ℕ → A → ℕ → A
update p i v j = if i == j then v else p j

pub update_self {ℓ} : {A : Type ℓ} → (p : ℕ → A) (i : ℕ) (v : A) → update p i v i ≡ v
update_self p i v = ground arith

-- `memcpy(dst + off, src, size)`
abbrev pub splice {ℓ} : {A : Type ℓ} → (ℕ → A) → ℕ → (ℕ → A) → ℕ → ℕ → A
splice dst off src size j = if leb off j && ltb j (off + size) then src (j - off) else dst j

module _ {ℓ} {A : Type ℓ} where
  abbrev pub length : List A → ℕ
  length [] = 0
  length (x ∷ xs) = suc (length xs)

  abbrev pub get_or : List A → ℕ → A → A
  get_or [] i d = d
  get_or (x ∷ xs) zero d = x
  get_or (x ∷ xs) (suc i) d = get_or xs i d

  pub length-append : (xs ys : List A) → length (xs ++ ys) ≡ length xs + length ys
  length-append [] ys = omega arith
  length-append (x ∷ xs) ys = omega (arith, length-append xs ys)
