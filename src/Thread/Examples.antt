-- ===== src/Thread/Examples.antt =====
-- The theorems on threads and locks at a small scheduler.
use winux_os.Base.{contains, ◌≡◌, inl, refl, some, [], ◌∷◌, ◌==◌, if◌then◌else◌, ok, arith}
use winux_os.Thread.{Threads, Status, running, ready, schedule}
use winux_os.Thread.Invariant.{schedule-IsValid}
use winux_os.Thread.Queue.{IsValid}
use winux_os.Thread.Invariant.Fairness.{Ticks, ready_runs}
use winux_os.Thread.Sync.{Lock, IsLock, held}

-- Thread 1 runs, 2 is ready, all others are blocked; 0 is the idle thread.
abbrev three_threads : Threads
three_threads = record {
  current = 1;
  status = λ t. if t == 1 then running else if t == 2 then ready else Status.blocked;
  ready_list = 2 ∷ [];
  priority = λ t. 31;
  ticks = λ t. 0;
  elapsed_ticks = λ t. 7;
  idle_thread = 0;
}

three_threads-IsValid : IsValid three_threads
unfolding contains
three_threads-IsValid = record {
  queue = record { distinct = (refl, tt); exact = λ t. ground arith };
  active = refl;
  alone = λ t h. ground arith;
  idle_known = inl refl;
}

schedule-IsValid_example : (s' : Threads) × (schedule three_threads ≡ ok s') × IsValid s'
schedule-IsValid_example = schedule-IsValid three_threads three_threads-IsValid

-- The lock that thread 1 holds and thread 3 waits for.
abbrev held_lock : Lock
held_lock = record {
  holder = some 1;
  semaphore = record { value = 0; waiters = 3 ∷ [] };
  holder_repeat_nr = 1;
}

held_lock-IsLock : IsLock held_lock
held_lock-IsLock = held 1 refl refl (omega arith) (omega arith)

ready_runs_example : (s' : Threads) × Ticks three_threads s' × IsValid s' × (s'.current ≡ 2)
ready_runs_example = ready_runs [] three_threads 2 [] three_threads-IsValid refl
