-- ===== src/Thread/Invariant.antt =====
-- The invariant of the scheduler, and that every operation keeps it and does not stop.
pub mod Fairness
use winux_os.Base.{
  ℕ, ◌+◌, ◌-◌, ◌≡◌, refl, subst, ap, ◌∙◌, ◌≢◌, ◌⊎◌, inl, inr, Bool, true, false, ◌||◌, List, [],
  ◌∷◌, ◌++◌, ◌==◌, update, u32, ok, ◌>>=◌, arith, Bool-cases, contains, contains-append, IsDistinct,
  IsDistinct-append,
}
use winux_os.Thread.{
  Status, running, ready, blocked, is_stopped, Threads, unblock, requeue, is_empty, wake_idle,
  switch_to_first, schedule, block, idle, yield, tick,
}
use winux_os.Thread.Queue.{
  is_ready, IsQueue, IsValid, IsLeaving, IsQueue-front, IsQueue-back, switch-IsValid, not_listed,
}

module _ (s : Threads) where
  -- The states after `thread_unblock`, and after the running thread has queued up again.
  abbrev pub woken : ℕ → Threads
  woken t = record s { status = update s.status t ready; ready_list = t ∷ s.ready_list }

  abbrev queued : Threads
  queued = record s {
    ticks = update s.ticks s.current (s.priority s.current);
    status = update s.status s.current ready;
    ready_list = s.ready_list ++ s.current ∷ [];
  }

  abbrev stopped : Status → Threads
  stopped st = record s { status = update s.status s.current st }

  abbrev given_up : Threads
  given_up = record s {
    status = update s.status s.current ready;
    ready_list = s.ready_list ++ s.current ∷ [];
  }

  pub unblock-woken :
      (t : ℕ) → IsQueue s → is_stopped (s.status t) ≡ true → unblock s t ≡ ok (woken t)
  unfolding unblock
  unblock-woken t q h = ground (arith, q.exact t)

  wake_idle_none : (next : ℕ) (rest : List ℕ) → s.ready_list ≡ next ∷ rest → wake_idle s ≡ ok s
  unfolding wake_idle
  wake_idle_none next rest e = ground arith

  wake_idle-woken : IsLeaving s → s.ready_list ≡ [] → wake_idle s ≡ ok (woken s.idle_thread)
  unfolding wake_idle contains
  wake_idle-woken l e =
      let listed : contains [] s.idle_thread ≡ is_ready (s.status s.idle_thread) =
        subst (λ q. contains q s.idle_thread ≡ is_ready (s.status s.idle_thread)) e
          (l.queue.exact s.idle_thread) in
      let idle : is_stopped (s.status s.idle_thread) ≡ true = ground (arith, l.idle_known) in
      let empty : is_empty s.ready_list ≡ true = ap is_empty e in
      rw empty (unblock-woken s.idle_thread l.queue idle)

  IsLeaving-woken : (t : ℕ) → is_stopped (s.status t) ≡ true → IsLeaving s → IsLeaving (woken t)
  IsLeaving-woken t h l = record {
    queue = IsQueue-front s t l.queue (not_listed s t l.queue (ground arith));
    none_running = λ u e. ground (arith, l.none_running u);
    idle_known = ground (arith, l.idle_known);
  }

-- Once the current thread has left the processor, `schedule` wakes the idle thread if nobody is
-- ready, and switches.
leave-IsValid :
    (s : Threads)
    → IsLeaving s
    → (s' : Threads) × ((wake_idle s >>= λ t. switch_to_first t t.ready_list) ≡ ok s') × IsValid s'
unfolding switch_to_first
leave-IsValid s l = go s.ready_list refl
  where
    go :
        (q : List ℕ)
        → s.ready_list ≡ q
        → (s' : Threads) × ((wake_idle s >>= λ t. switch_to_first t t.ready_list) ≡ ok s')
          × IsValid s'
    go [] e =
        let idle = s.idle_thread in
        let listed : contains [] idle ≡ is_ready (s.status idle) =
          subst (λ q. contains q idle ≡ is_ready (s.status idle)) e (l.queue.exact idle) in
        let stopped : is_stopped (s.status idle) ≡ true =
          unfold contains in ground (arith, l.idle_known) in
        (
          _,
          rw (wake_idle-woken s l e) refl,
          switch-IsValid (woken s idle) idle s.ready_list refl (IsLeaving-woken s idle stopped l),
        )
    go (next ∷ rest) e = (
      record s { current = next; status = update s.status next running; ready_list = rest },
      rw (wake_idle_none s next rest e) (ap (switch_to_first s) e),
      switch-IsValid s next rest e l,
    )

-- `schedule` once `requeue` is known.
schedule_from :
    (s t : Threads)
    → requeue s ≡ ok t
    → IsLeaving t
    → (s' : Threads) × (schedule s ≡ ok s') × IsValid s'
unfolding schedule
schedule_from s t e l = rw e (leave-IsValid t l)

module _ (s : Threads) (v : IsValid s) where
  current_unlisted : contains s.ready_list s.current ≡ false
  current_unlisted = not_listed s s.current v.queue (rw v.active)

  requeue-queued : requeue s ≡ ok (queued s)
  unfolding requeue
  requeue-queued = rw (v.active, current_unlisted)

  IsLeaving-queued : IsLeaving (queued s)
  IsLeaving-queued =
      let q = IsQueue-back s s.current v.queue current_unlisted in
      record {
        queue = record { distinct = q.distinct; exact = q.exact };
        none_running = λ t e. ground (arith, v.alone t);
        idle_known = ground (arith, v.idle_known, v.alone s.idle_thread);
      }

  -- From a valid state `schedule` does not stop and leads to a valid state: the ready list holds
  -- exactly the ready threads, each once, and only the current thread runs.
  pub schedule-IsValid : (s' : Threads) × (schedule s ≡ ok s') × IsValid s'
  schedule-IsValid = schedule_from s (queued s) requeue-queued IsLeaving-queued

  -- `thread_block` in one of the three states that it accepts.
  pub block-IsValid :
      (st : Status) → is_stopped st ≡ true → (s' : Threads) × (block s st ≡ ok s') × IsValid s'
  unfolding block
  block-IsValid st h = rw h (
      schedule_from (stopped s st) (stopped s st) (unfold requeue in ground arith) (record {
        queue = record {
          distinct = v.queue.distinct;
          exact = λ t. ground (arith, v.queue.exact t, v.active);
        };
        none_running = λ t e. ground (arith, v.alone t);
        idle_known = ground (arith, v.idle_known, v.alone s.idle_thread);
      }))

  -- A round of the idle thread's loop.
  idle-IsValid : (s' : Threads) × (idle s ≡ ok s') × IsValid s'
  unfolding idle
  idle-IsValid = block-IsValid blocked refl

  -- `thread_yield`.
  pub yield-IsValid : (s' : Threads) × (yield s ≡ ok s') × IsValid s'
  unfolding yield
  yield-IsValid = rw current_unlisted (
      schedule_from (given_up s) (given_up s) (unfold requeue in ground arith) (record {
        queue = IsQueue-back s s.current v.queue current_unlisted;
        none_running = λ t e. ground (arith, v.alone t);
        idle_known = ground (arith, v.idle_known, v.alone s.idle_thread);
      }))

  -- `thread_unblock` of a stopped thread.
  pub unblock-IsValid :
      (t : ℕ) → is_stopped (s.status t) ≡ true → (s' : Threads) × (unblock s t ≡ ok s') × IsValid s'
  unblock-IsValid t h = (
    woken s t,
    unblock-woken s t v.queue h,
    record {
      queue = IsQueue-front s t v.queue (not_listed s t v.queue (ground arith));
      active = ground (arith, v.active);
      alone = λ u e. ground (arith, v.alone u);
      idle_known = ground (arith, v.idle_known);
    },
  )

abbrev counted : Threads → Threads
counted s = record s {
  elapsed_ticks = update s.elapsed_ticks s.current (u32 (s.elapsed_ticks s.current + 1));
}

counted-IsValid : (s : Threads) → IsValid s → IsValid (counted s)
counted-IsValid s v = record {
  queue = record { distinct = v.queue.distinct; exact = v.queue.exact };
  active = v.active;
  alone = v.alone;
  idle_known = v.idle_known;
}

-- From a valid state the clock handler does not stop and leads to a valid state.
pub tick-IsValid : (s : Threads) → IsValid s → (s' : Threads) × (tick s ≡ ok s') × IsValid s'
unfolding tick
tick-IsValid s v = elim (Bool-cases (s.ticks s.current == 0)) [
  | inl used_up ↦ rw used_up (schedule-IsValid (counted s) (counted-IsValid s v))
  | inr left ↦ (
    record (counted s) { ticks = update s.ticks s.current (s.ticks s.current - 1) },
    rw left,
    record {
      queue = record { distinct = v.queue.distinct; exact = v.queue.exact };
      active = v.active;
      alone = v.alone;
      idle_known = v.idle_known;
    },
  )
]
