-- ===== src/Thread/Start.antt =====
-- thread/thread.c: `allocate_pid`, `init_thread`, `thread_start` and `thread_init`, on the blocks of
-- the threads and the list of all threads, as one thread runs through them while no other does: the
-- lock is free, and nothing happens between the release of `pid_lock` and the reading of `next_pid`.
pub mod Pids
mod Examples
use winux_os.Base.{
  ℕ, zero, suc, ◌+◌, ◌-◌, ◌*◌, ◌<◌, ◌≤◌, ◌≡◌, refl, ap, ◌∙◌, true, false, not, List, [], ◌∷◌, ◌++◌,
  ◌==◌, leb, ltb, if◌then◌else◌, ◌&&◌, Option, none, some, update, contains, Outcome, ok, panic,
  ◌>>=◌, ◌>>◌, assert, ◌%◌, ◌^◌, u8, u32, Bytes, arith,
}
use winux_os.Str.{strcpy}
use winux_os.Thread.{Status, running, ready}

-- The members that `init_thread` sets; the others are 0. A descriptor -1 is `none`.
pub record Pcb : Type 0 where
  pub self_kstart : ℕ
  pub pid : ℕ
  pub status : Status
  pub priority : ℕ
  pub name : Bytes
  pub ticks : ℕ
  pub elapsed_ticks : ℕ
  pub fd_table : ℕ → Option ℕ
  pub pgdir : Option ℕ
  pub stack_magic : ℕ

-- `next_pid` modulo 2^16, `main_thread` and `idle_thread` or NULL, the blocks by their addresses,
-- and the two lists as the threads whose tags they hold. The list of all threads is a sequence until
-- the tag of the main thread, which is its `general_tag`, is put on the ready list as well
-- (LinkedList/Shared).
pub record Tasks : Type 0 where
  pub next_pid : ℕ
  pub main_thread : Option ℕ
  pub idle_thread : Option ℕ
  pub pcbs : ℕ → Pcb
  pub ready_list : List ℕ
  pub all_list : List ℕ

abbrev pub is_main : Option ℕ → ℕ → Status
is_main none t = ready
is_main (some m) t = if m == t then running else ready

-- `next_pid++` under the lock, and the reading behind it.
abbrev pub raise_pid : Tasks → Tasks
raise_pid s = record s { next_pid = (s.next_pid + 1) % 2 ^ 16 }

abbrev pub read_pid : Tasks → ℕ
read_pid s = s.next_pid

abbrev pub allocate_pid : Tasks → ℕ × Tasks
allocate_pid s = let s' = raise_pid s in (read_pid s', s')

-- Three descriptors stand for standard input, output and error.
abbrev pub first_fds : ℕ → Option ℕ
first_fds fd = if leb fd 2 then some fd else none

-- What a new block holds, `copy` being its name.
abbrev pub new_pcb : Option ℕ → ℕ → ℕ → Bytes → ℕ → Pcb
new_pcb main_thread t pid copy prio = record {
  self_kstart = u32 (t + 4096);
  pid = pid;
  status = is_main main_thread t;
  priority = u8 prio;
  name = copy;
  ticks = u8 prio;
  elapsed_ticks = 0;
  fd_table = first_fds;
  pgdir = none;
  stack_magic = 0x19980320;
}

-- Names are shorter than 16. With no zero in `fuel` bytes of the name the copy has no end.
unfoldable pub init_thread : ℕ → Tasks → ℕ → Bytes → ℕ → Outcome Tasks
init_thread fuel s t name prio = elim (strcpy fuel (λ _. 0) name) [
  | none ↦ panic
  | some copy ↦
      let (pid, s₁) = allocate_pid s in
      ok (record s₁ { pcbs = update s₁.pcbs t (new_pcb s₁.main_thread t pid copy prio) })
]

-- `thread_start` with the page `t` of the new block; `thread_create` stands in Userprog/Process.
unfoldable pub thread_start : ℕ → Tasks → ℕ → Bytes → ℕ → Outcome Tasks
unfolding init_thread
thread_start fuel s t name prio = init_thread fuel s t name prio >>= λ s₁.
    assert (not (contains s₁.ready_list t))
    >> (assert (not (contains s₁.all_list t))
        >> ok
            (record s₁ { ready_list = s₁.ready_list ++ t ∷ []; all_list = s₁.all_list ++ t ∷ [] }))

unfoldable pub make_main_thread : ℕ → Tasks → ℕ → Bytes → Outcome Tasks
unfolding init_thread
make_main_thread fuel s running_thread main =
    init_thread fuel (record s { main_thread = some running_thread }) running_thread main 1
    >>= λ s₁. ok (record s₁ { all_list = s₁.all_list ++ running_thread ∷ [] })

-- The arguments are the page of the code that runs, the page of the new thread, and the two names.
unfoldable pub thread_init : ℕ → Tasks → ℕ → ℕ → Bytes → Bytes → Outcome Tasks
unfolding make_main_thread thread_start
thread_init fuel s running_thread page main idle =
    make_main_thread fuel (record s { ready_list = []; all_list = [] }) running_thread main
    >>= λ s₁. thread_start fuel s₁ page idle 10 >>= λ s₂. ok (record s₂ { idle_thread = some page })
