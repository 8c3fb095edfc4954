-- ===== src/Userprog/Process/Frames.antt =====
-- The two frames at the top of a PCB's page.
use winux_os.Base.{
  ℕ, ◌+◌, ◌-◌, ◌*◌, ◌/◌, ◌%◌, ◌^◌, ◌<◌, ◌≤◌, ◌≡◌, refl, true, ◌||◌, some, leb, ltb, u32, ok, arith,
}
use winux_os.Memory.{Memory, user, page_size}
use winux_os.Memory.Alloc.{get_a_page}
use winux_os.Userprog.Process.{
  user_stack3_vaddr, sizeof_intr_stack, sizeof_thread_stack, first_kstart, thread_create,
  start_process, fill_intr_stack,
}

-- The frame that a new thread's first switch pops: four zero registers, then it returns into
-- `kernel_thread` with the function and its argument. It lies in the last 432 bytes of the PCB's
-- page, and no word outside it changes.
pub thread_create_lem :
    (words : ℕ → ℕ) (pthread kernel_thread function func_arg a : ℕ)
    → ltb a (pthread + 3664) || leb (pthread + 3696) a ≡ true
    → ((thread_create words (first_kstart pthread) kernel_thread function func_arg).1
        ≡ pthread + 3664)
      × ((thread_create words (first_kstart pthread) kernel_thread function func_arg).0
            (pthread + 3664 + 16)
          ≡ kernel_thread)
      × ((thread_create words (first_kstart pthread) kernel_thread function func_arg).0
            (pthread + 3664 + 24)
          ≡ function)
      × ((thread_create words (first_kstart pthread) kernel_thread function func_arg).0
            (pthread + 3664 + 28)
          ≡ func_arg)
      × ((thread_create words (first_kstart pthread) kernel_thread function func_arg).0 a ≡ words a)
unfolding thread_create
thread_create_lem words p k f arg a out =
    let top : p + page_size - sizeof_intr_stack * 4 - sizeof_thread_stack * 4 ≡ p + 3664 =
      omega arith in
    (
      top,
      rw top (ground arith),
      rw top (ground arith),
      rw top (ground arith),
      rw top (ground arith),
    )

-- What `intr_exit` pops for a process that starts at `function`.
pub record IsUserFrame (words : ℕ → ℕ) (at function esp : ℕ) : Type 0 where
  pub eip : words (at + 56) ≡ function
  pub code_level : words (at + 60) % 4 ≡ 3
  pub stack_level : words (at + 72) % 4 ≡ 3
  pub data_level : words (at + 48) % 4 ≡ 3
  pub interrupts_on : words (at + 64) / 2 ^ 9 % 2 ≡ 1
  pub no_ports : words (at + 64) / 2 ^ 12 % 4 ≡ 0
  pub stack : words (at + 68) ≡ esp
  pub registers : (i : ℕ) → i < 8 → words (at + 4 + 4 * i) ≡ 0

fill_intr_stack-IsUserFrame :
    (words : ℕ → ℕ) (at function esp : ℕ)
    → IsUserFrame (fill_intr_stack words at function esp) at function esp
unfolding fill_intr_stack
fill_intr_stack-IsUserFrame words at f esp = record {
  eip = ground arith;
  code_level = ground arith;
  stack_level = ground arith;
  data_level = ground arith;
  interrupts_on = ground arith;
  no_ports = ground arith;
  stack = ground arith;
  registers = λ i h. ground arith;
}

-- From the stack that `thread_create` leaves, with a page for the user's stack, `start_process`
-- enters user mode at privilege level 3 with interrupts on, no right to ports, zero registers and
-- the stack at the end of its page; the frame lies in the PCB's page, above the thread's frame.
pub start_process_lem :
    (s s' : Memory) (words : ℕ → ℕ) (pthread kernel_thread function func_arg page : ℕ)
    → get_a_page s user user_stack3_vaddr ≡ ok (some page, s')
    → (t : Memory) × (at : ℕ) × (start_process s
          (thread_create words (first_kstart pthread) kernel_thread function func_arg).1
          function
        ≡ ok (t, at))
      × (pthread + 3696 ≤ at)
      × (at + sizeof_intr_stack ≤ pthread + page_size)
      × IsUserFrame t.words at function (u32 (page + page_size))
unfolding start_process thread_create
start_process_lem s s' words p k f arg page got =
    let at = (thread_create words (first_kstart p) k f arg).1 + sizeof_thread_stack * 4 in
    (
      record s' { words = fill_intr_stack s'.words at f (u32 (page + page_size)) },
      at,
      rw got refl,
      omega arith,
      omega arith,
      fill_intr_stack-IsUserFrame s'.words at f (u32 (page + page_size)),
    )
