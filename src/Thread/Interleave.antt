-- ===== src/Thread/Interleave.antt =====
-- thread/sync.c with threads that are preempted anywhere outside the sections without interrupts:
-- the steps that any number of threads take around one lock, nested calls included. `sema_down` and
-- `sema_up` are a step each; the test of `holder` and every assignment before and behind them are
-- steps of their own. A failed ASSERT stops the kernel: such a step is not there.
mod Examples
use winux_os.Base.{
  ℕ, zero, suc, ◌+◌, ◌-◌, ◌^◌, ◌%◌, ◌<◌, ◌≡◌, ◌≢◌, refl, sym, ◌∙◌, ap, subst, ◌⊎◌, inl, inr, Bool,
  true, false, Option, none, some, ◌==◌, if◌then◌else◌, update, arith, Bool-cases, u8, u32,
}

-- Where a thread stands: outside; at the loop of `sema_down`; behind it; behind `holder = self`;
-- between `lock_acquire` and `lock_release`; about to raise `holder_repeat_nr`, having found itself
-- the holder; behind `holder = NULL`; and behind `holder_repeat_nr--`.
pub data Place : Type 0 where
  outside testing got_value owner inside repeating cleared counted : Place

pub record LockSystem : Type 0 where
  pub value : ℕ
  pub holder : Option ℕ
  pub holder_repeat_nr : ℕ
  pub place : ℕ → Place

abbrev pub move : LockSystem → ℕ → Place → ℕ → Place
move s t p = update s.place t p

-- A thread calls `lock_acquire` from outside, or again while it is inside.
abbrev pub Calls : Place → Type 0
Calls p = (p ≡ outside) ⊎ (p ≡ inside)

infix 40 ◌⟶◌ ◌⟶*◌
pub data ◌⟶◌ : LockSystem → LockSystem → Type 0 where
  -- `lock_acquire`: the test of `holder`.
  call :
      (s : LockSystem) (t : ℕ)
      → Calls (s.place t)
      → s.holder ≢ some t
      → s ⟶ record s { place = move s t testing }
  again :
      (s : LockSystem) (t : ℕ)
      → Calls (s.place t)
      → s.holder ≡ some t
      → s ⟶ record s { place = move s t repeating }
  repeat :
      (s : LockSystem) (t : ℕ)
      → s.place t ≡ repeating
      → s ⟶ record s { holder_repeat_nr = u32 (s.holder_repeat_nr + 1); place = move s t inside }
  wait : (s : LockSystem) (t : ℕ) → s.place t ≡ testing → s.value ≡ 0 → s ⟶ s
  take :
      (s : LockSystem) (t : ℕ)
      → s.place t ≡ testing
      → s.value ≢ 0
      → s.value - 1 ≡ 0
      → s ⟶ record s { value = s.value - 1; place = move s t got_value }
  own :
      (s : LockSystem) (t : ℕ)
      → s.place t ≡ got_value
      → s ⟶ record s { holder = some t; place = move s t owner }
  first :
      (s : LockSystem) (t : ℕ)
      → s.place t ≡ owner
      → s ⟶ record s { holder_repeat_nr = 1; place = move s t inside }
  -- `lock_release`, of a nested call and of the last one.
  leave :
      (s : LockSystem) (t : ℕ)
      → s.place t ≡ inside
      → s.holder ≡ some t
      → 1 < s.holder_repeat_nr
      → s ⟶ record s { holder_repeat_nr = s.holder_repeat_nr - 1 }
  clear :
      (s : LockSystem) (t : ℕ)
      → s.place t ≡ inside
      → s.holder ≡ some t
      → s.holder_repeat_nr ≡ 1
      → s ⟶ record s { holder = none; place = move s t cleared }
  count :
      (s : LockSystem) (t : ℕ)
      → s.place t ≡ cleared
      → s ⟶ record s {
        holder_repeat_nr = u32 (s.holder_repeat_nr + 2 ^ 32 - 1);
        place = move s t counted;
      }
  up :
      (s : LockSystem) (t : ℕ)
      → s.place t ≡ counted
      → s.value ≡ 0
      → u8 (s.value + 1) ≡ 1
      → s ⟶ record s { value = u8 (s.value + 1); place = move s t outside }

pub data ◌⟶*◌ : LockSystem → LockSystem → Type 0 where
  here : (s : LockSystem) → s ⟶* s
  more : (s t u : LockSystem) → s ⟶ t → t ⟶* u → s ⟶* u

-- After `lock_init`, no thread near the lock.
abbrev pub fresh : LockSystem
fresh = record { value = 1; holder = none; holder_repeat_nr = 0; place = λ t. outside }

-- The thread is behind `sema_down` and before the end of `sema_up`.
abbrev pub has_lock : Place → Bool
has_lock outside = false
has_lock testing = false
has_lock got_value = true
has_lock owner = true
has_lock inside = true
has_lock repeating = true
has_lock cleared = true
has_lock counted = true

-- The places at which the thread is the holder.
abbrev pub is_holder : Place → Bool
is_holder owner = true
is_holder inside = true
is_holder repeating = true
is_holder _ = false

-- Either the semaphore has its value and no thread has the lock, or exactly one thread has it; the
-- holder is that thread from one assignment to the other, and nobody else.
pub data IsGuarded (s : LockSystem) : Type 0 where
  free : s.value ≡ 1 → s.holder ≡ none → ((t : ℕ) → has_lock (s.place t) ≡ false) → IsGuarded s
  taken :
      (h : ℕ)
      → s.value ≡ 0
      → s.holder ≡ (if is_holder (s.place h) then some h else none)
      → ((t : ℕ) → has_lock (s.place t) ≡ (h == t))
      → IsGuarded s

step-IsGuarded : (s s' : LockSystem) → s ⟶ s' → IsGuarded s → IsGuarded s'
step-IsGuarded s _ (call _ t (inl p) ne) (free v h n) = free v h (λ u. ground (arith, n u))
step-IsGuarded s _ (call _ t (inl p) ne) (taken k v h n) =
    taken k v (ground (arith, n t)) (λ u. ground (arith, n u))
step-IsGuarded s _ (call _ t (inr p) ne) (free v h n) = absurd (ground (arith, n t))
step-IsGuarded s _ (call _ t (inr p) ne) (taken k v h n) = absurd (ne (ground (arith, n t)))
step-IsGuarded s _ (again _ t p e) (free v h n) = absurd (ground (arith, h ∙ refl))
step-IsGuarded s _ (again _ t (inl p) e) (taken k v h n) = absurd (ground (arith, n t))
step-IsGuarded s _ (again _ t (inr p) e) (taken k v h n) =
    taken t v (ground arith) (λ u. ground (arith, n u, n t))
step-IsGuarded s _ (repeat _ t p) (free v h n) = absurd (ground (arith, n t))
step-IsGuarded s _ (repeat _ t p) (taken k v h n) =
    taken t v (ground (arith, n t)) (λ u. ground (arith, n u, n t))
step-IsGuarded s _ (wait _ t p z) g = g
step-IsGuarded s _ (take _ t p z a) (free v h n) =
    taken t (omega arith) (ground arith) (λ u. ground (arith, n u))
step-IsGuarded s _ (take _ t p z a) (taken k v h n) = absurd (z v)
step-IsGuarded s _ (own _ t p) (free v h n) = absurd (ground (arith, n t))
step-IsGuarded s _ (own _ t p) (taken k v h n) =
    taken t v (ground arith) (λ u. ground (arith, n u, n t))
step-IsGuarded s _ (first _ t p) (free v h n) = absurd (ground (arith, n t))
step-IsGuarded s _ (first _ t p) (taken k v h n) =
    taken t v (ground (arith, n t)) (λ u. ground (arith, n u, n t))
step-IsGuarded s _ (leave _ t p e a) (free v h n) = free v h n
step-IsGuarded s _ (leave _ t p e a) (taken k v h n) = taken k v h n
step-IsGuarded s _ (clear _ t p e a) (free v h n) = absurd (ground (arith, n t))
step-IsGuarded s _ (clear _ t p e a) (taken k v h n) =
    taken t v (ground arith) (λ u. ground (arith, n u, n t))
step-IsGuarded s _ (count _ t p) (free v h n) = absurd (ground (arith, n t))
step-IsGuarded s _ (count _ t p) (taken k v h n) =
    taken t v (ground (arith, n t)) (λ u. ground (arith, n u, n t))
step-IsGuarded s _ (up _ t p z a) (free v h n) = absurd (ground (arith, n t))
step-IsGuarded s _ (up _ t p z a) (taken k v h n) =
    free a (ground (arith, n t)) (λ u. ground (arith, n u, n t))

steps-IsGuarded : (s s' : LockSystem) → s ⟶* s' → IsGuarded s → IsGuarded s'
steps-IsGuarded s _ (here _) g = g
steps-IsGuarded s s' (more _ t _ e es) g = steps-IsGuarded t s' es (step-IsGuarded s t e g)

fresh-IsGuarded : IsGuarded fresh
fresh-IsGuarded = free refl refl (λ t. refl)

-- In every state that any interleaving of any threads reaches, nested calls included, two threads
-- that are behind `sema_down` and before the end of `sema_up` are the same thread.
pub mutual_exclusion :
    (s : LockSystem) (t u : ℕ)
    → fresh ⟶* s
    → has_lock (s.place t) ≡ true
    → has_lock (s.place u) ≡ true
    → t ≡ u
mutual_exclusion s t u run ht hu = elim (steps-IsGuarded fresh s run fresh-IsGuarded) [
  | free v h n ↦ absurd (ground (arith, n t))
  | taken k v h n ↦ ground (arith, n t, n u)
]

held_inside :
    (s : LockSystem) (t k : ℕ)
    → s.holder ≡ (if is_holder (s.place k) then some k else none)
    → has_lock (s.place t) ≡ (k == t)
    → (s.place t ≢ inside) ⊎ (s.holder ≡ some t)
held_inside s t k h n = elim (Bool-cases (k == t)) [
  | inl same ↦
      let e : k ≡ t = ground arith in
      elim (Bool-cases (is_holder (s.place t))) [
        | inl i ↦ inr (h ∙ rw (e, i) refl)
        | inr o ↦ inl (λ p. ground arith)
      ]
  | inr other ↦ inl (λ p. ground arith)
]

-- No ASSERT on `holder` or on `value` fails in any interleaving: a thread that releases is the
-- holder, the value is 0 where `sema_up` starts and 1 where it ends, and it is 0 behind the decrement
-- of `sema_down`.
pub asserts_hold :
    (s : LockSystem) (t : ℕ)
    → fresh ⟶* s
    → ((s.place t ≢ inside) ⊎ (s.holder ≡ some t))
      × ((s.place t ≢ counted) ⊎ ((s.value ≡ 0) × (s.value + 1 ≡ 1)))
      × ((s.value ≡ 0) ⊎ (s.value - 1 ≡ 0))
asserts_hold s t run = elim (steps-IsGuarded fresh s run fresh-IsGuarded) [
  | free v h n ↦ (inl (λ e. ground (arith, n t)), inl (λ e. ground (arith, n t)), inr (omega arith))
  | taken k v h n ↦ (held_inside s t k h (n t), inr (v, omega arith), inl v)
]
