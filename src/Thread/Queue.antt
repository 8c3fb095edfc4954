-- ===== src/Thread/Queue.antt =====
-- Which threads the ready list holds, and what switching to the first of them does.
use winux_os.Base.{
  ℕ, ◌≡◌, subst, ◌∙◌, ◌≢◌, ◌⊎◌, Bool, true, false, List, [], ◌∷◌, ◌++◌, update, arith, contains,
  contains-append, IsDistinct, IsDistinct-append,
}
use winux_os.Thread.{Status, running, ready, is_stopped, Threads}

abbrev pub is_ready : Status → Bool
is_ready ready = true
is_ready _ = false

-- The ready list holds exactly the ready threads, each once.
pub record IsQueue (s : Threads) : Type 0 where
  pub distinct : IsDistinct s.ready_list
  pub exact : (t : ℕ) → contains s.ready_list t ≡ is_ready (s.status t)

-- The running thread is the current one; the idle thread runs, is ready or is blocked.
pub record IsValid (s : Threads) : Type 0 where
  pub queue : IsQueue s
  pub active : s.status s.current ≡ running
  pub alone : (t : ℕ) → s.status t ≡ running → t ≡ s.current
  pub idle_known :
      (is_stopped (s.status s.idle_thread) ≡ true)
      ⊎ ((s.status s.idle_thread ≡ ready) ⊎ (s.status s.idle_thread ≡ running))

-- What holds between the change of the current thread's status and the switch.
pub record IsLeaving (s : Threads) : Type 0 where
  pub queue : IsQueue s
  pub none_running : (t : ℕ) → s.status t ≢ running
  pub idle_known : (is_stopped (s.status s.idle_thread) ≡ true) ⊎ (s.status s.idle_thread ≡ ready)

-- `t` becomes ready at the front or at the end of the list.
pub IsQueue-front :
    (s : Threads) (t : ℕ)
    → IsQueue s
    → contains s.ready_list t ≡ false
    → IsQueue (record s { status = update s.status t ready; ready_list = t ∷ s.ready_list })
unfolding contains
IsQueue-front s t q h = record {
  distinct = (h, q.distinct);
  exact = λ u. ground (arith, q.exact u);
}

pub IsQueue-back :
    (s : Threads) (t : ℕ)
    → IsQueue s
    → contains s.ready_list t ≡ false
    → IsQueue (record s { status = update s.status t ready; ready_list = s.ready_list ++ t ∷ [] })
IsQueue-back s t q h = record {
  distinct = IsDistinct-append s.ready_list t q.distinct h;
  exact = λ u. ground (arith, q.exact u, contains-append s.ready_list t u);
}

-- The switch to the first ready thread.
pub switch-IsValid :
    (s : Threads) (next : ℕ) (rest : List ℕ)
    → s.ready_list ≡ next ∷ rest
    → IsLeaving s
    → IsValid
        (record s { current = next; status = update s.status next running; ready_list = rest })
unfolding contains
switch-IsValid s next rest e l =
    let d : IsDistinct (next ∷ rest) = subst IsDistinct e l.queue.distinct in
    let exact : (t : ℕ) → contains (next ∷ rest) t ≡ is_ready (s.status t) =
      λ t. subst (λ q. contains q t ≡ is_ready (s.status t)) e (l.queue.exact t) in
    record {
      queue = record { distinct = d.1; exact = λ t. ground (arith, d.0, exact t) };
      active = ground arith;
      alone = λ t h. ground (arith, l.none_running t);
      idle_known = ground (arith, l.idle_known);
    }

pub not_listed :
    (s : Threads) (t : ℕ)
    → IsQueue s
    → is_ready (s.status t) ≡ false
    → contains s.ready_list t ≡ false
not_listed s t q h = q.exact t ∙ h
