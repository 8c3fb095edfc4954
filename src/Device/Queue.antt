-- ===== src/Device/Queue.antt =====
-- device/ioqueue.c: the ring buffer between the keyboard and its readers.
pub mod Fifo
mod Examples
use winux_os.Base.{
  ℕ, zero, suc, ◌+◌, ◌-◌, ◌*◌, ◌/◌, ◌%◌, ◌^◌, ◌<◌, Bool, true, false, not, Option, none, some, ◌==◌,
  if◌then◌else◌, Bytes, update, Outcome, ok, panic, blocked, ◌>>=◌, ◌>>◌, assert,
}
use winux_os.Thread.{Threads, unblock}
use winux_os.Thread.Sync.{Lock, lock_init, lock_acquire, lock_release}

abbrev pub buffer_size : ℕ
buffer_size = 64

-- struct ioqueue
pub record IoQueue : Type 0 where
  pub lock : Lock
  pub producer : Option ℕ
  pub consumer : Option ℕ
  pub buffer : Bytes
  pub ridx : ℕ
  pub widx : ℕ

unfoldable pub ioq_init : IoQueue → IoQueue
ioq_init q = record q { lock = lock_init; producer = none; consumer = none; ridx = 0; widx = 0 }

unfoldable pub ioq_empty : IoQueue → Bool
ioq_empty q = q.widx == q.ridx

unfoldable pub ioq_full : IoQueue → Bool
ioq_full q = (q.widx + 1) % buffer_size == q.ridx

-- A waiter, if there is one, is woken and the pointer to it cleared.
unfoldable pub wakeup : Threads → Option ℕ → Outcome Threads
wakeup s none = ok s
wakeup s (some t) = unblock s t

-- The waiting functions either find nobody waiting, and wait, or fail in their ASSERT.
unfoldable pub ioq_wait : {A : Type 0} → Option ℕ → Outcome A
ioq_wait none = blocked
ioq_wait (some t) = panic

-- From the lock on: what a reader does once there is a character, or once it was woken.
unfoldable pub take_char : Threads → IoQueue → Outcome (ℕ × (Threads × IoQueue))
take_char s q = lock_acquire s q.lock >>= λ taken.
    let char_byte = q.buffer q.ridx in
    wakeup s q.producer >>= λ s₁. lock_release s₁ taken >>= λ (s₂, l).
    ok (char_byte, (s₂, record q { lock = l; ridx = (q.ridx + 1) % buffer_size; producer = none }))

unfoldable pub ioq_getchar : Threads → IoQueue → Outcome (ℕ × (Threads × IoQueue))
unfolding take_char ioq_empty
ioq_getchar s q = if ioq_empty q then ioq_wait q.consumer else take_char s q

-- From the lock on, for a writer.
unfoldable pub put_char : Threads → IoQueue → ℕ → Outcome (Threads × IoQueue)
put_char s q char_byte = lock_acquire s q.lock >>= λ taken. wakeup s q.consumer >>= λ s₁.
    lock_release s₁ taken >>= λ (s₂, l). ok (
      s₂,
      record q {
        lock = l;
        buffer = update q.buffer q.widx char_byte;
        widx = (q.widx + 1) % buffer_size;
        consumer = none;
      },
    )

-- A writer waits on `consumer` too.
unfoldable pub ioq_putchar : Threads → IoQueue → ℕ → Outcome (Threads × IoQueue)
unfolding put_char ioq_full
ioq_putchar s q char_byte = if ioq_full q then ioq_wait q.consumer else put_char s q char_byte
