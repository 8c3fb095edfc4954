-- ===== src/Device/Console.antt =====
-- device/console.c: output to the screen under the console's lock. The screen is the list of the
-- characters that were put; `put_str`, `put_char` and `put_int` are assembly, and `put_int` puts the
-- characters that its parameter says.
use winux_os.Base.{
  ℕ, ◌≡◌, refl, ◌⊎◌, inl, inr, ◌≢◌, some, [], List, ◌∷◌, ◌++◌, Outcome, ok, blocked, ◌>>=◌,
}
use winux_os.Thread.{Threads}
use winux_os.Thread.Sync.{
  Lock, IsLock, lock_init, lock_acquire, lock_release, lock_acquire_lem, release-acquire,
}

pub record Console : Type 0 where
  pub console_lock : Lock
  pub screen : List ℕ

unfoldable pub console_init : Console → Console
console_init c = record c { console_lock = lock_init }

unfoldable pub console_acquire : Threads → Console → Outcome Console
console_acquire s c = lock_acquire s c.console_lock >>= λ l. ok (record c { console_lock = l })

unfoldable pub console_release : Threads → Console → Outcome (Threads × Console)
console_release s c =
    lock_release s c.console_lock >>= λ (s', l). ok (s', record c { console_lock = l })

-- Put characters between `console_acquire` and `console_release`.
unfoldable pub console_put_str : Threads → Console → List ℕ → Outcome (Threads × Console)
unfolding console_acquire console_release
console_put_str s c str =
    console_acquire s c >>= λ held. console_release s (record held { screen = held.screen ++ str })

unfoldable pub console_put_char : Threads → Console → ℕ → Outcome (Threads × Console)
unfolding console_acquire console_release
console_put_char s c ch_asci = console_acquire s c >>= λ held.
    console_release s (record held { screen = held.screen ++ ch_asci ∷ [] })

unfoldable pub console_put_int : (ℕ → List ℕ) → Threads → Console → ℕ → Outcome (Threads × Console)
unfolding console_acquire console_release
console_put_int put_int s c num = console_acquire s c >>= λ held.
    console_release s (record held { screen = held.screen ++ put_int num })

-- With nobody waiting for the console, a call either would wait, and then another thread holds the
-- console, or it puts the whole string behind what was there and leaves the lock as it was.
pub console_put_str_lem :
    (s : Threads) (c : Console) (str : List ℕ)
    → IsLock c.console_lock
    → c.console_lock.semaphore.waiters ≡ []
    → ((h : ℕ) × (c.console_lock.holder ≡ some h)
        × (h ≢ s.current)
        × (console_put_str s c str ≡ blocked))
      ⊎ (console_put_str s c str ≡ ok (s, record c { screen = c.screen ++ str }))
unfolding console_put_str
console_put_str_lem s c str l w = elim (lock_acquire_lem s c.console_lock l) [
  | inl (h, e, other, waits) ↦ inl (h, e, other, rw waits refl)
  | inr done ↦ inr (rw (done.1, release-acquire s c.console_lock done.0 l w done.1) refl)
]
