-- ===== src/Base/Returns.antt =====
-- What a kernel function does: it returns, or it stops in `panic_spin` (a failed ASSERT or a
-- PANIC, lib/kernel/debug.c), or it would have to wait for another thread.
use mathlib.Core.Path.{◌≡◌, refl, ap}
use mathlib.Core.Bool.{Bool, true, false}

pub data Outcome {ℓ} (A : Type ℓ) : Type ℓ where
  ok : A → Outcome A
  panic : Outcome A
  blocked : Outcome A

-- A call, and what its caller does with the value once it returns.
infixl 5 ◌>>=◌ ◌>>◌
abbrev pub ◌>>=◌ {ℓ κ} :
    {Out : Type ℓ} {Next : Type κ} → Outcome Out → (Out → Outcome Next) → Outcome Next
panic >>= next = panic
blocked >>= next = blocked
ok value >>= next = next value

abbrev pub ◌>>◌ {ℓ} : {Next : Type ℓ} → Outcome (Unit {0}) → Outcome Next → Outcome Next
first >> second = first >>= λ _. second

-- The macro ASSERT of lib/kernel/debug.h.
abbrev pub assert : Bool → Outcome (Unit {0})
assert false = panic
assert true = ok tt

-- A run that returns got a value from its first call.
pub >>=-eq-ok {ℓ κ} :
    {Out : Type ℓ} {Next : Type κ} (run : Outcome Out) (next : Out → Outcome Next) {result : Next}
    → (run >>= next) ≡ ok result
    → (value : Out) × (run ≡ ok value) × (next value ≡ ok result)
>>=-eq-ok panic next returned = cc
>>=-eq-ok blocked next returned = cc
>>=-eq-ok (ok value) next returned = (value, refl, returned)

from_ok {ℓ} : {A : Type ℓ} → A → Outcome A → A
from_ok d (ok a) = a
from_ok d panic = d
from_ok d blocked = d

pub ok-injective {ℓ} : {A : Type ℓ} → (a b : A) → ok a ≡ ok b → a ≡ b
unfolding from_ok
ok-injective a b e = ap (from_ok a) e
