-- ===== src/Userprog/Process.antt =====
-- userprog/process.c and the stack frames of thread/thread.c: address spaces of processes, and the
-- frames from which a thread and a process start. Memory is words by address, as in Memory.
pub mod AddressSpace
pub mod Frames
mod Examples
use winux_os.Base.{
  ℕ, zero, suc, ◌+◌, ◌-◌, ◌*◌, ◌/◌, ◌%◌, ◌^◌, Bool, true, false, not, ◌&&◌, Option, none, some,
  ◌==◌, ltb, leb, if◌then◌else◌, update, u32, List, [], ◌∷◌, ◌++◌, Outcome, ok, panic, ◌>>=◌, ◌>>◌,
  assert,
}
use winux_os.Bitmap
use winux_os.Memory.{
  Memory, kernel, user, page_size, get_page, addr_v2p, clear_page, or_flags, address_of,
  VirtualAddr,
}
use winux_os.Memory.Alloc.{get_a_page}
use winux_os.Memory.Heap.{Desc, block_desc_init}
use winux_os.Thread.{Threads, ready}
use winux_os.Userprog.Tss.{TssSegment, update_tss_esp}

abbrev pub user_stack3_vaddr : ℕ
user_stack3_vaddr = 0xc0000000 - 0x1000

abbrev pub user_vaddr_start : ℕ
user_vaddr_start = 0x8048000

-- sizeof of the two frames, in bytes.
abbrev pub sizeof_intr_stack : ℕ
sizeof_intr_stack = 76

abbrev pub sizeof_thread_stack : ℕ
sizeof_thread_stack = 32

-- The end of `init_thread`.
abbrev pub first_kstart : ℕ → ℕ
first_kstart pthread = pthread + page_size

-- `self_kstart` is a `uint32_t*`: a step of `sizeof(..)` is four times as many bytes.
unfoldable pub thread_create : (ℕ → ℕ) → ℕ → ℕ → ℕ → ℕ → (ℕ → ℕ) × ℕ
thread_create words self_kstart kernel_thread function func_arg =
    let top = self_kstart - sizeof_intr_stack * 4 - sizeof_thread_stack * 4 in
    let w₁ = update words (top + 16) kernel_thread in
    let w₂ = update w₁ (top + 24) function in
    let w₃ = update w₂ (top + 28) func_arg in
    let w₄ = update w₃ (top + 12) 0 in
    let w₅ = update w₄ (top + 8) 0 in let w₆ = update w₅ (top + 4) 0 in (update w₆ top 0, top)

abbrev pub selector_u_code : ℕ
selector_u_code = 5 * 2 ^ 3 + 0 * 2 ^ 2 + 3

abbrev pub selector_u_data : ℕ
selector_u_data = 6 * 2 ^ 3 + 0 * 2 ^ 2 + 3

-- EFLAGS_IOPL_0 | EFLAGS_MBS | EFLAGS_IF_1
abbrev pub user_eflags : ℕ
user_eflags = 0 * 2 ^ 12 + 2 ^ 1 + 2 ^ 9

-- The interrupt frame at `proc_stack`; `vec_no` and `err_code` are left as they are.
unfoldable pub fill_intr_stack : (ℕ → ℕ) → ℕ → ℕ → ℕ → ℕ → ℕ
fill_intr_stack words proc_stack function esp a =
    if (leb (proc_stack + 4) a && ltb a (proc_stack + 36))
    then 0
    else if (leb (proc_stack + 36) a && ltb a (proc_stack + 52))
    then selector_u_data
    else if a == proc_stack + 56
    then function
    else if a == proc_stack + 60
    then selector_u_code
    else if a == proc_stack + 64
    then user_eflags
    else if a == proc_stack + 68
    then esp
    else if a == proc_stack + 72
    then selector_u_data
    else words a

-- Up to the jump to `intr_exit`: the memory, and the frame that it is entered with.
unfoldable pub start_process : Memory → ℕ → ℕ → Outcome (Memory × ℕ)
unfolding fill_intr_stack
start_process s self_kstart function =
    let proc_stack = self_kstart + sizeof_thread_stack * 4 in
    get_a_page s user user_stack3_vaddr >>= λ (page, s'). ok (
      record s' {
        words = fill_intr_stack s'.words proc_stack function (u32 (address_of page + page_size));
      },
      proc_stack,
    )

-- The address that `page_dir_activate` loads into cr3.
unfoldable pub page_dir_activate : Memory → Option ℕ → ℕ
page_dir_activate s none = 0x100000
page_dir_activate s (some pgdir) = addr_v2p s pgdir

-- cr3 and the task state segment, for the PCB at `pthread`.
unfoldable pub process_activate : Memory → TssSegment → ℕ → Option ℕ → Outcome (ℕ × TssSegment)
unfolding page_dir_activate update_tss_esp
process_activate s tss pthread none =
    assert (not (pthread == 0)) >> ok (page_dir_activate s none, tss)
process_activate s tss pthread (some pgdir) =
    assert (not (pthread == 0)) >> ok (page_dir_activate s (some pgdir), update_tss_esp tss pthread)

-- `memcpy` of the words from 0xfffff000 + 0xc00 on to `page_dir_vaddr` + 0xc00, 0x400 bytes.
unfoldable pub copy_kernel_half : (ℕ → ℕ) → ℕ → ℕ → ℕ
copy_kernel_half words page_dir_vaddr a =
    if leb (page_dir_vaddr + 0xc00) a && ltb a (page_dir_vaddr + 0x1000)
    then words (0xfffff000 + (a - page_dir_vaddr))
    else words a

-- The page that `get_kernel_page` gives is zero, here in its words too.
unfoldable pub fill_page_dir : Memory → ℕ → Memory
unfolding copy_kernel_half
fill_page_dir s dir =
    let copied = record s { words = copy_kernel_half (clear_page s.words dir) dir } in
    record copied { words = update copied.words (dir + 1023 * 4) (or_flags (addr_v2p copied dir)) }

unfoldable pub create_page_dir : Memory → Outcome (Option ℕ × Memory)
unfolding fill_page_dir
create_page_dir s = get_page s kernel 1 >>= λ (page, s'). elim page [
  | none ↦ ok (none, s')
  | some dir ↦ ok (some dir, fill_page_dir s' dir)
]

abbrev pub bitmap_pg_cnt : ℕ
bitmap_pg_cnt = ((0xc0000000 - user_vaddr_start) / page_size / 8 + page_size - 1) / page_size

-- The process's virtual addresses: a bitmap in `bitmap_pg_cnt` new pages.
unfoldable pub create_user_vaddr_bitmap : Memory → Outcome (VirtualAddr × Memory)
create_user_vaddr_bitmap s = get_page s kernel bitmap_pg_cnt >>= λ (page, s'). ok (
  record {
    vaddr_start = user_vaddr_start;
    vaddr_bitmap = Bitmap.init (record {
      btmp_bytes_len = bitmap_pg_cnt * page_size;
      bits = λ i. s'.bytes (address_of page + i);
    });
  },
  s',
)

-- What the PCB of a new process holds besides its thread's state.
pub record Process : Type 0 where
  pub self_kstart : ℕ
  pub pgdir : Option ℕ
  pub userprog_vadder : VirtualAddr
  pub u_block_descs : List Desc

-- `init_thread` with `default_prio`, and the end of the ready list; the list of all threads, the
-- name and the pid are no part of the state.
abbrev enlist : Threads → ℕ → Threads
enlist s t = record s {
  status = update s.status t ready;
  ticks = update s.ticks t 31;
  elapsed_ticks = update s.elapsed_ticks t 0;
  priority = update s.priority t 31;
  ready_list = s.ready_list ++ t ∷ [];
}

-- The PCB's address, its contents and the memory. The arguments are the addresses of
-- `kernel_thread`, of `start_process` and of the program.
unfoldable pub process_execute : Memory → ℕ → ℕ → ℕ → Outcome (ℕ × (Process × Memory))
unfolding create_user_vaddr_bitmap thread_create create_page_dir
process_execute s kernel_thread start_process_at filename = get_page s kernel 1 >>= λ (page, s₁).
    let pcb = address_of page in
    create_user_vaddr_bitmap s₁ >>= λ (vaddr, s₂).
    let stack = thread_create s₂.words (first_kstart pcb) kernel_thread start_process_at filename in
    create_page_dir (record s₂ { words = stack.0 }) >>= λ (dir, s₃). ok (
      pcb,
      (
        record {
          self_kstart = stack.1;
          pgdir = dir;
          userprog_vadder = vaddr;
          u_block_descs = block_desc_init;
        },
        record s₃ { threads = enlist s₃.threads pcb },
      ),
    )
