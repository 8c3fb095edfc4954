-- ===== src/Thread/Invariant/Fairness.antt =====
-- Clock interrupts alone bring every ready thread to the processor, in the order of the ready list.
use winux_os.Base.{
  ℕ, zero, suc, ◌-◌, ◌≡◌, refl, ap, ◌∙◌, true, false, List, [], ◌∷◌, ◌++◌, append_assoc, ◌==◌,
  update, ok, arith,
}
use winux_os.Thread.{running, Threads, switch_to_first, schedule, tick}
use winux_os.Thread.Invariant.{
  queued, requeue-queued, IsLeaving-queued, wake_idle_none, switch-IsValid, counted,
  counted-IsValid,
}
use winux_os.Thread.Queue.{IsValid}

-- One state after another, from clock interrupt to clock interrupt.
pub data Ticks : Threads → Threads → Type 0 where
  now : (s : Threads) → Ticks s s
  later : (s t u : Threads) → tick s ≡ ok t → Ticks t u → Ticks s u

pub Ticks-trans : (s t u : Threads) → Ticks s t → Ticks t u → Ticks s u
Ticks-trans s t u (now _) k = k
Ticks-trans s t u (later _ a _ e h) k = later s a u e (Ticks-trans a t u h k)

append_first :
    (x : ℕ) (rest : List ℕ) (t : ℕ) (q : List ℕ) → q ≡ x ∷ rest → q ++ t ∷ [] ≡ x ∷ (rest ++ t ∷ [])
append_first x rest t q e = ap (λ l. l ++ t ∷ []) e

-- From a valid state with a ready thread, `schedule` gives the processor to the first of the list
-- and puts the thread that ran at the end.
pub schedule-rotates :
    (s : Threads) (x : ℕ) (rest : List ℕ)
    → IsValid s
    → s.ready_list ≡ x ∷ rest
    → (t : Threads) × (schedule s ≡ ok t)
      × IsValid t
      × (t.current ≡ x)
      × (t.ready_list ≡ rest ++ s.current ∷ [])
unfolding schedule switch_to_first
schedule-rotates s x rest v e =
    let q = queued s in
    let first : q.ready_list ≡ x ∷ (rest ++ s.current ∷ []) =
      append_first x rest s.current s.ready_list e in
    (
      record q {
        current = x;
        status = update q.status x running;
        ready_list = rest ++ s.current ∷ [];
      },
      rw (requeue-queued s v, wake_idle_none q x (rest ++ s.current ∷ []) first)
          (ap (switch_to_first q) first),
      switch-IsValid q x (rest ++ s.current ∷ []) first (IsLeaving-queued s v),
      refl,
      refl,
    )

abbrev spent : Threads → Threads
spent s = record (counted s) { ticks = update s.ticks s.current (s.ticks s.current - 1) }

spent-IsValid : (s : Threads) → IsValid s → IsValid (spent s)
spent-IsValid s v = record {
  queue = record { distinct = v.queue.distinct; exact = v.queue.exact };
  active = v.active;
  alone = v.alone;
  idle_known = v.idle_known;
}

-- When its time slice is used up, the running thread gives the processor to the first ready one.
pub slice_ends :
    (left : ℕ) (s : Threads) (x : ℕ) (rest : List ℕ)
    → IsValid s
    → s.ready_list ≡ x ∷ rest
    → s.ticks s.current ≡ left
    → (t : Threads) × Ticks s t
      × IsValid t
      × (t.current ≡ x)
      × (t.ready_list ≡ rest ++ s.current ∷ [])
unfolding tick
slice_ends zero s x rest v e l =
    let (t, run, valid, current, list) =
      schedule-rotates (counted s) x rest (counted-IsValid s v) e in
    let none_left : (s.ticks s.current == 0) ≡ true = ground arith in
    (t, later s t t (rw none_left run) (now t), valid, current, list)
slice_ends (suc left) s x rest v e l =
    let some_left : (s.ticks s.current == 0) ≡ false = ground arith in
    let (t, run, valid, current, list) =
      slice_ends left (spent s) x rest (spent-IsValid s v) e (ground arith) in
    (t, later s (spent s) t (rw some_left refl) run, valid, current, list)

-- From a valid state every ready thread runs after finitely many clock interrupts, if nothing else
-- happens: after the threads before it in the ready list, each for its time slice.
pub ready_runs :
    (xs : List ℕ) (s : Threads) (t : ℕ) (ys : List ℕ)
    → IsValid s
    → s.ready_list ≡ xs ++ t ∷ ys
    → (s' : Threads) × Ticks s s' × IsValid s' × (s'.current ≡ t)
ready_runs [] s t ys v e =
    let (s', run, valid, current, list) = slice_ends (s.ticks s.current) s t ys v e refl in
    (s', run, valid, current)
ready_runs (x ∷ xs) s t ys v e =
    let (s₁, run, valid, current, list) =
      slice_ends (s.ticks s.current) s x (xs ++ t ∷ ys) v e refl in
    let (s₂, run₂, valid₂, current₂) =
      ready_runs xs s₁ t (ys ++ s.current ∷ []) valid
        (list ∙ append_assoc xs (t ∷ ys) (s.current ∷ [])) in
    (s₂, Ticks-trans s s₁ s₂ run run₂, valid₂, current₂)
