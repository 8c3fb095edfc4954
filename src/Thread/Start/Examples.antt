-- ===== src/Thread/Start/Examples.antt =====
-- The start of a kernel whose `main` runs on page 4096 and whose idle thread gets page 8192.
use winux_os.Base.{
  true, false, update, contains, ℕ, ◌+◌, ◌≡◌, refl, ap, ◌==◌, if◌then◌else◌, List, [], ◌∷◌, Option,
  none, some, Outcome, ok, panic, blocked, arith, Bytes,
}
use winux_os.Str.{strcpy}
use winux_os.Thread.Start.{Tasks, new_pcb, thread_init}
use winux_os.Thread.Start.Pids.{IsNumbered}

abbrev no_tasks : Tasks
no_tasks = record {
  next_pid = 0;
  main_thread = none;
  idle_thread = none;
  pcbs = λ t. new_pcb none t 0 (λ _. 0) 0;
  ready_list = [];
  all_list = [];
}

abbrev idle_name : Bytes
idle_name i = if i == 0 then b'i' else if i == 1 then b'd' else 0

-- The pids, the two lists and the idle thread.
abbrev seen : Outcome Tasks → List ℕ × List ℕ × List ℕ
seen (ok s) = ((s.pcbs 4096).pid ∷ (s.pcbs 8192).pid ∷ [], s.ready_list, s.all_list)
seen panic = ([], [], [])
seen blocked = ([], [], [])

started :
    seen (thread_init 4 no_tasks 4096 8192 idle_name idle_name)
    ≡ (1 ∷ 2 ∷ [], 8192 ∷ [], 4096 ∷ 8192 ∷ [])
unfolding thread_init winux_os.Str.strcpy winux_os.Base.contains
started = refl

abbrev copied : Bytes
copied = update (update (update (λ _. 0) 0 b'i') 1 b'd') 2 0

idle_copied : strcpy 4 (λ _. 0) idle_name ≡ some copied
unfolding strcpy
idle_copied = refl

none_listed : (t : ℕ) → contains [] t ≡ false
unfolding contains
none_listed t = refl

no_tasks-IsNumbered : IsNumbered no_tasks
no_tasks-IsNumbered = record {
  given = λ t listed. absurd (ground (arith, none_listed t));
  different = λ t u listed _ _. absurd (ground (arith, none_listed t));
}
