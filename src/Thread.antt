-- ===== src/Thread.antt =====
-- thread/thread.c and the clock handler of device/time.c: the scheduler's state and operations.
-- A thread is the number of its PCB. The sections that run with interrupts off are one step; the
-- registers, the stacks and `process_activate` are no part of the state. `schedule` ends in
-- `switch_to`: the state that it returns is the one in which the next thread goes on.
pub mod Queue
pub mod Invariant
pub mod Sync
pub mod Interleave
pub mod Start
mod Examples
use winux_os.Base.{
  ℕ, ◌+◌, ◌-◌, Bool, true, false, not, ◌||◌, List, [], ◌∷◌, ◌++◌, ◌==◌, if◌then◌else◌, update,
  contains, Outcome, ok, panic, ◌>>=◌, ◌>>◌, assert, ◌%◌, ◌^◌, u8, u32,
}

-- enum task_status
pub data Status : Type 0 where
  running ready blocked waiting hanging died : Status

abbrev pub is_running : Status → Bool
is_running running = true
is_running _ = false

-- The states that `thread_block` accepts and `thread_unblock` expects.
abbrev pub is_stopped : Status → Bool
is_stopped blocked = true
is_stopped waiting = true
is_stopped hanging = true
is_stopped _ = false

pub record Threads : Type 0 where
  pub current : ℕ
  pub status : ℕ → Status
  -- The elements of `thread_ready_list`, first to last; LinkedList is about the pointers.
  pub ready_list : List ℕ
  pub priority : ℕ → ℕ
  pub ticks : ℕ → ℕ
  pub elapsed_ticks : ℕ → ℕ
  pub idle_thread : ℕ

unfoldable pub unblock : Threads → ℕ → Outcome Threads
unblock s t = do
  assert (is_stopped (s.status t))
  assert (not (contains s.ready_list t))
  ok (record s { status = update s.status t ready; ready_list = t ∷ s.ready_list })

-- The thread that runs goes to the end of the ready list with a new time slice.
unfoldable pub requeue : Threads → Outcome Threads
requeue s =
    if is_running (s.status s.current)
    then (assert (not (contains s.ready_list s.current))
        >> ok (record s {
          ticks = update s.ticks s.current (s.priority s.current);
          status = update s.status s.current ready;
          ready_list = s.ready_list ++ s.current ∷ [];
        }))
    else ok s

abbrev pub is_empty : List ℕ → Bool
is_empty [] = true
is_empty (_ ∷ _) = false

unfoldable pub wake_idle : Threads → Outcome Threads
unfolding unblock
wake_idle s = if is_empty s.ready_list then unblock s s.idle_thread else ok s

-- `list_pop` of an empty list would take the list's own tail for a thread.
switch_to_first : Threads → List ℕ → Outcome Threads
switch_to_first s [] = panic
switch_to_first s (next ∷ rest) =
    ok (record s { current = next; status = update s.status next running; ready_list = rest })

pub schedule : Threads → Outcome Threads
unfolding switch_to_first requeue wake_idle
schedule s = do s₁ ← requeue s; s₂ ← wake_idle s₁; switch_to_first s₂ s₂.ready_list

pub block : Threads → Status → Outcome Threads
block s status = do
  assert (is_stopped status)
  schedule (record s { status = update s.status s.current status })

-- One round of `idle`, up to `sti; hlt`, which waits for an interrupt.
idle : Threads → Outcome Threads
idle s = block s blocked

pub yield : Threads → Outcome Threads
yield s = do
  assert (not (contains s.ready_list s.current))
  schedule (record s {
    status = update s.status s.current ready;
    ready_list = s.ready_list ++ s.current ∷ [];
  })

-- `intr_time_handle`; the check of the stack's magic number is not part of this state.
pub tick : Threads → Outcome Threads
tick s =
    let t = record s {
      elapsed_ticks = update s.elapsed_ticks s.current (u32 (s.elapsed_ticks s.current + 1));
    } in
    if s.ticks s.current == 0
    then schedule t
    else ok (record t { ticks = update s.ticks s.current (s.ticks s.current - 1) })

-- `thread_start` with the new PCB's number: `init_thread` and the ready list.
pub start : Threads → ℕ → ℕ → Outcome Threads
start s t prio = do
  assert (not (contains s.ready_list t))
  ok (record s {
    status = update s.status t ready;
    ticks = update s.ticks t (u8 prio);
    elapsed_ticks = update s.elapsed_ticks t 0;
    priority = update s.priority t (u8 prio);
    ready_list = s.ready_list ++ t ∷ [];
  })
