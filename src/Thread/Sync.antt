-- ===== src/Thread/Sync.antt =====
-- thread/sync.c. `lock_acquire` and `lock_release` as one thread sees them: where `sema_down` would
-- wait, the result is `blocked`. What waiting does to the scheduler is `down_round`.
use winux_os.Base.{
  ℕ, ◌+◌, ◌-◌, ◌≡◌, refl, Bool, true, false, List, [], ◌∷◌, ◌++◌, Option, none, some, ◌==◌, ltb,
  if◌then◌else◌, ◌^◌, ◌<◌, ◌≢◌, ◌⊎◌, inl, inr, Bool-cases, u8, u32, Outcome, ok, blocked, ◌>>=◌,
  ◌>>◌, assert, arith,
}
use winux_os.Thread.{Threads, Status, is_stopped, unblock, block}
use winux_os.Thread.Invariant.{woken, unblock-woken}
use winux_os.Thread.Queue.{IsValid}

pub record Semaphore : Type 0 where
  pub value : ℕ
  pub waiters : List ℕ

pub record Lock : Type 0 where
  pub holder : Option ℕ
  pub semaphore : Semaphore
  pub holder_repeat_nr : ℕ

abbrev pub sema_init : ℕ → Semaphore
sema_init value = record { value = value; waiters = [] }

abbrev pub lock_init : Lock
lock_init = record { holder = none; semaphore = sema_init 1; holder_repeat_nr = 0 }

-- One round of the loop of `sema_down`: the thread takes the semaphore, or joins the waiters and
-- blocks, and tests again when it runs next.
pub data Round : Type 0 where
  taken : Threads → Semaphore → Round
  waits : Threads → Semaphore → Round

unfoldable pub down_round : Threads → Semaphore → Outcome Round
down_round s sema =
    if sema.value == 0
    then (do
      t ← block s Status.blocked
      ok (waits t (record sema { waiters = sema.waiters ++ s.current ∷ [] })))
    else (do assert (sema.value - 1 == 0); ok (taken s (record sema { value = sema.value - 1 })))

unfoldable pub wake_first : Threads → Semaphore → List ℕ → Outcome (Threads × Semaphore)
wake_first s sema [] = ok (s, sema)
wake_first s sema (t ∷ rest) = do s' ← unblock s t; ok (s', record sema { waiters = rest })

unfoldable pub sema_up : Threads → Semaphore → Outcome (Threads × Semaphore)
unfolding wake_first
sema_up s sema = do
  assert (sema.value == 0)
  (s', sema') ← wake_first s sema sema.waiters
  assert (u8 (sema'.value + 1) == 1)
  ok (s', record sema' { value = u8 (sema'.value + 1) })

abbrev pub is_holder : Option ℕ → ℕ → Bool
is_holder none t = false
is_holder (some h) t = h == t

unfoldable pub lock_acquire : Threads → Lock → Outcome Lock
lock_acquire s l =
    if is_holder l.holder s.current
    then ok (record l { holder_repeat_nr = u32 (l.holder_repeat_nr + 1) })
    else if l.semaphore.value == 0
    then blocked
    else (do
      assert (l.semaphore.value - 1 == 0)
      ok (record {
        holder = some s.current;
        semaphore = record l.semaphore { value = l.semaphore.value - 1 };
        holder_repeat_nr = 1;
      }))

-- The end of `lock_release`: the lock is free again, and the first waiter is woken.
unfoldable pub hand_over : Threads → Lock → Outcome (Threads × Lock)
unfolding sema_up
hand_over s l = do
  assert (l.holder_repeat_nr == 1)
  (s', sema) ← sema_up s l.semaphore
  ok (s', record { holder = none; semaphore = sema; holder_repeat_nr = l.holder_repeat_nr - 1 })

unfoldable pub lock_release : Threads → Lock → Outcome (Threads × Lock)
unfolding hand_over
lock_release s l =
    assert (is_holder l.holder s.current)
    >> (if ltb 1 l.holder_repeat_nr
        then ok (s, record l { holder_repeat_nr = l.holder_repeat_nr - 1 })
        else hand_over s l)

-- A lock is free, or one thread holds it at least once.
pub data IsLock (l : Lock) : Type 0 where
  free : l.holder ≡ none → l.semaphore.value ≡ 1 → l.holder_repeat_nr ≡ 0 → IsLock l
  held :
      (t : ℕ)
      → l.holder ≡ some t
      → l.semaphore.value ≡ 0
      → 0 < l.holder_repeat_nr
      → l.holder_repeat_nr < 2 ^ 32 - 1
      → IsLock l

-- `lock_acquire` of a well-formed lock either would wait, and then another thread holds the lock,
-- or it succeeds, and then the running thread holds the lock once more than before, with the same
-- waiters.
pub lock_acquire_lem :
    (s : Threads) (l : Lock)
    → IsLock l
    → ((h : ℕ) × (l.holder ≡ some h) × (h ≢ s.current) × (lock_acquire s l ≡ blocked))
      ⊎ ((l' : Lock) × (lock_acquire s l ≡ ok l')
          × (l'.holder ≡ some s.current)
          × (l'.semaphore.value ≡ 0)
          × (l'.semaphore.waiters ≡ l.semaphore.waiters)
          × (l'.holder_repeat_nr ≡ l.holder_repeat_nr + 1))
unfolding lock_acquire
lock_acquire_lem s l (free h v r) = inr (
  record {
    holder = some s.current;
    semaphore = record l.semaphore { value = l.semaphore.value - 1 };
    holder_repeat_nr = 1;
  },
  ground arith,
  refl,
  omega arith,
  refl,
  omega arith,
)
lock_acquire_lem s l (held t h v p q) = elim (Bool-cases (t == s.current)) [
  | inl again ↦ inr (
    record l { holder_repeat_nr = u32 (l.holder_repeat_nr + 1) },
    ground arith,
    ground arith,
    v,
    refl,
    omega arith,
  )
  | inr other ↦ inl (t, h, ground arith, ground arith)
]

-- While a thread holds the lock, `lock_acquire` by any other thread waits.
pub lock_exclusive :
    (s : Threads) (l : Lock) (t : ℕ)
    → IsLock l
    → l.holder ≡ some t
    → t ≢ s.current
    → lock_acquire s l ≡ blocked
unfolding lock_acquire
lock_exclusive s l t (free h v r) e ne = cc
lock_exclusive s l t (held u h v p q) e ne = ground arith

-- For a well-formed lock that nobody waits for, `lock_release` after a successful `lock_acquire`
-- gives the lock back as it was and changes no thread.
pub release-acquire :
    (s : Threads) (l l' : Lock)
    → IsLock l
    → l.semaphore.waiters ≡ []
    → lock_acquire s l ≡ ok l'
    → lock_release s l' ≡ ok (s, l)
unfolding lock_acquire lock_release wake_first
release-acquire s l l' (free h v r) w e = ground arith
release-acquire s l l' (held t h v p q) w e = ground arith

-- From a valid state, `lock_release` by the thread that holds the lock once, while a stopped
-- thread waits first in line, frees the lock, takes that thread off the waiters and makes it
-- ready.
pub lock_release_wakes :
    (s : Threads) (l : Lock) (t : ℕ) (rest : List ℕ)
    → IsValid s
    → l.holder ≡ some s.current
    → l.holder_repeat_nr ≡ 1
    → l.semaphore.value ≡ 0
    → l.semaphore.waiters ≡ t ∷ rest
    → is_stopped (s.status t) ≡ true
    → lock_release s l
      ≡ ok (
        woken s t,
        record {
          holder = none;
          semaphore = record { value = 1; waiters = rest };
          holder_repeat_nr = 0;
        },
      )
unfolding lock_release wake_first
lock_release_wakes s l t rest v h r z w st = ground (arith, unblock-woken s t v.queue st)

-- A lock that one thread holds once and for which nobody waits.
abbrev pub taken_by : ℕ → Lock
taken_by t = record { holder = some t; semaphore = sema_init 0; holder_repeat_nr = 1 }

pub acquire_free : (s : Threads) → lock_acquire s lock_init ≡ ok (taken_by s.current)
unfolding lock_acquire
acquire_free s = refl

pub release_taken : (s : Threads) → lock_release s (taken_by s.current) ≡ ok (s, lock_init)
unfolding lock_release wake_first
release_taken s = ground arith
