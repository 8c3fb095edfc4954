-- ===== src/Thread/Start/Pids.antt =====
-- The pids of the threads on the list of all threads.
use winux_os.Base.{
  ℕ, ◌+◌, ◌<◌, ◌≤◌, ◌≡◌, refl, ◌∙◌, true, false, inl, inr, Bool-cases, [], ◌∷◌, ◌++◌, ◌==◌, some,
  update, contains, contains-append, ok, ◌%◌, ◌^◌, Bytes, arith,
}
use winux_os.Str.{strcpy}
use winux_os.Thread.Start.{Pcb, Tasks, new_pcb, init_thread, thread_start}

-- Every thread of the list has a pid that was given out, and no two have the same.
pub record IsNumbered (s : Tasks) : Type 0 where
  pub given : (t : ℕ) → contains s.all_list t ≡ true → (s.pcbs t).pid ≤ s.next_pid
  pub different :
      (t u : ℕ)
      → contains s.all_list t ≡ true
      → contains s.all_list u ≡ true
      → (s.pcbs t).pid ≡ (s.pcbs u).pid
      → t ≡ u

-- A thread that joins the list with the next pid.
abbrev joined : Tasks → ℕ → Pcb → Tasks
joined s t pcb = record s {
  next_pid = (s.next_pid + 1) % 2 ^ 16;
  pcbs = update s.pcbs t pcb;
  ready_list = s.ready_list ++ t ∷ [];
  all_list = s.all_list ++ t ∷ [];
}

module _ (s : Tasks) (t : ℕ) (pcb : Pcb) (pid : pcb.pid ≡ (s.next_pid + 1) % 2 ^ 16)
    (room : s.next_pid + 1 < 2 ^ 16) (numbered : IsNumbered s) where
  old_or_new :
      (u : ℕ)
      → contains (s.all_list ++ t ∷ []) u ≡ true
      → ((t == u) ≡ false → contains s.all_list u ≡ true)
  old_or_new u listed other = ground (arith, contains-append s.all_list t u)

  old_pid :
      (u : ℕ)
      → contains (s.all_list ++ t ∷ []) u ≡ true
      → (t == u) ≡ false
      → (update s.pcbs t pcb u).pid ≤ s.next_pid
  old_pid u listed other = rw other (numbered.given u (old_or_new u listed other))

  new_pid : (u : ℕ) → (t == u) ≡ true → (update s.pcbs t pcb u).pid ≡ s.next_pid + 1
  new_pid u here = rw here (pid ∙ omega arith)

  joined-IsNumbered : IsNumbered (joined s t pcb)
  joined-IsNumbered = record {
    given = λ u listed. elim (Bool-cases (t == u)) [
      | inl here ↦ omega (arith, new_pid u here)
      | inr other ↦ omega (arith, old_pid u listed other)
    ];
    different = λ u v hu hv e. elim (Bool-cases (t == u)) [
      | inl x ↦ elim (Bool-cases (t == v)) [
        | inl y ↦ ground arith
        | inr y ↦ absurd (omega (arith, new_pid u x, old_pid v hv y, e))
      ]
      | inr x ↦ elim (Bool-cases (t == v)) [
        | inl y ↦ absurd (omega (arith, new_pid v y, old_pid u hu x, e))
        | inr y ↦ numbered.different u v (old_or_new u hu x) (old_or_new v hv y) (rw (x, y) at e)
      ]
    ];
  }

abbrev given_pid : Tasks → ℕ → Pcb → Tasks
given_pid s t pcb = record s { next_pid = (s.next_pid + 1) % 2 ^ 16; pcbs = update s.pcbs t pcb }

init_thread_lem :
    (fuel : ℕ) (s : Tasks) (t : ℕ) (name : Bytes) (prio : ℕ) (copy : Bytes)
    → strcpy fuel (λ _. 0) name ≡ some copy
    → init_thread fuel s t name prio
      ≡ ok (given_pid s t (new_pcb s.main_thread t ((s.next_pid + 1) % 2 ^ 16) copy prio))
unfolding init_thread
init_thread_lem fuel s t name prio copy named = rw (init_thread, named) refl

-- While fewer than 65535 pids were given out, `thread_start` with a name that ends within the fuel
-- and a page that is on neither list returns, gives the thread the next pid, and keeps the pids of
-- all threads different.
pub thread_start-IsNumbered :
    (fuel : ℕ) (s : Tasks) (t : ℕ) (name : Bytes) (prio : ℕ) (copy : Bytes)
    → strcpy fuel (λ _. 0) name ≡ some copy
    → contains s.ready_list t ≡ false
    → contains s.all_list t ≡ false
    → s.next_pid + 1 < 2 ^ 16
    → IsNumbered s
    → (s' : Tasks) × (thread_start fuel s t name prio ≡ ok s')
      × ((s'.pcbs t).pid ≡ s.next_pid + 1)
      × IsNumbered s'
unfolding thread_start
thread_start-IsNumbered fuel s t name prio copy named not_ready new room numbered =
    let pcb = new_pcb s.main_thread t ((s.next_pid + 1) % 2 ^ 16) copy prio in
    (
      joined s t pcb,
      rw (init_thread_lem fuel s t name prio copy named, not_ready, new) refl,
      ground arith,
      joined-IsNumbered s t pcb refl room numbered,
    )
