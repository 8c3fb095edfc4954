-- ===== src/Userprog/Process/Examples.antt =====
-- The theorems on processes at a small memory.
use winux_os.Base.{
  ℕ, ◌+◌, ◌≤◌, ◌≡◌, refl, true, Option, some, [], ◌==◌, leb, if◌then◌else◌, u32, Outcome, ok, panic,
  blocked,
}
use winux_os.Bitmap
use winux_os.Bitmap.{Bitmap}
use winux_os.Thread.{Status}
use winux_os.Thread.Sync.{lock_init, lock_acquire, lock_release}
use winux_os.Memory.{
  Pool, Memory, user, used_mem, page_size, acquire, release, palloc, page_table_add,
}
use winux_os.Memory.Alloc.{get_a_page}
use winux_os.Userprog.Process.{
  user_stack3_vaddr, sizeof_intr_stack, first_kstart, thread_create, start_process,
}
use winux_os.Userprog.Process.Frames.{IsUserFrame, start_process_lem}

-- The first page is taken.
abbrev pages : ℕ → Bitmap
pages len = record { btmp_bytes_len = len; bits = λ i. if i == 0 then 1 else 0 }

abbrev pool : Pool
pool = record {
  pool_bitmap = pages 2;
  phy_address_start = used_mem;
  pool_size = 65536;
  lock = lock_init;
}

abbrev memory : Memory
memory = record {
  kernel_pool = pool;
  user_pool = pool;
  kernel_vaddr = record { vaddr_bitmap = pages 2; vaddr_start = 0xc0100000 };
  user_vaddr = record { vaddr_bitmap = pages 94208; vaddr_start = 0x8048000 };
  is_process = true;
  words = λ a. if leb 0xfffff000 a then 7 else 0;
  bytes = λ a. 0;
  threads = record {
    current = 1;
    status = λ t. if t == 1 then Status.running else Status.blocked;
    ready_list = [];
    priority = λ t. 31;
    ticks = λ t. 31;
    elapsed_ticks = λ t. 0;
    idle_thread = 0;
  };
}

-- The memory after a call.
abbrev reached : Outcome (Option ℕ × Memory) → Memory
reached (ok (page, s)) = s
reached panic = memory
reached blocked = memory

stack_page :
    get_a_page memory user user_stack3_vaddr
    ≡ ok (some user_stack3_vaddr, reached (get_a_page memory user user_stack3_vaddr))
unfolding get_a_page acquire lock_acquire Bitmap.set palloc Bitmap.scan page_table_add release
    lock_release
stack_page = refl

start_process_lem_example :
    (t : Memory) × (at : ℕ) × (start_process memory
        (thread_create memory.words (first_kstart 0xc0200000) 1 0x8048100 3).1
        0x8048100
      ≡ ok (t, at))
    × (0xc0200000 + 3696 ≤ at)
    × (at + sizeof_intr_stack ≤ 0xc0200000 + page_size)
    × IsUserFrame t.words at 0x8048100 (u32 (user_stack3_vaddr + page_size))
start_process_lem_example =
    start_process_lem memory (reached (get_a_page memory user user_stack3_vaddr)) memory.words
      0xc0200000 1 0x8048100 3 user_stack3_vaddr stack_page
