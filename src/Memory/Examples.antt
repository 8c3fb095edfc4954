-- ===== src/Memory/Examples.antt =====
-- The memory manager's theorems at small states.
use winux_os.Base.{
  ℕ, ◌+◌, ◌/◌, ◌%◌, ◌<◌, ◌≤◌, ◌≡◌, refl, true, false, some, [], ◌∷◌, ◌==◌, ltb, leb, if◌then◌else◌,
  ◌||◌, not, ok, arith, all_below, all_below_sound, has_bit,
}
use winux_os.Bitmap.{Bitmap, IsBytes, scan_test}
use winux_os.Bitmap.Scan.{IsFirstFree}
use winux_os.Thread.{Threads, Status}
use winux_os.Thread.Sync.{lock_init}
use winux_os.Memory.{
  page_size, used_mem, Pool, Memory, kernel, mem_pool_init, palloc, get_pte_ptr, get_pde_ptr,
  page_table_add, addr_v2p,
}
use winux_os.Memory.PoolLaws.{IsLaidOut, mem_pool_init-IsLaidOut, palloc_twice}
use winux_os.Memory.Paging.{IsOpen, addr_v2p-page_table_add}
use winux_os.Memory.Heap.{Desc, Heap}
use winux_os.Memory.Heap.Blocks.{IsClass}
use winux_os.Memory.Heap.Malloc.{IsServed}

-- 16 pages, the first taken.
abbrev small_map : Bitmap
small_map = record { btmp_bytes_len = 2; bits = λ i. if i == 0 then 1 else 0 }

small_map-IsBytes : IsBytes small_map.bits
small_map-IsBytes i = ground arith

abbrev small_pool : Pool
small_pool = record {
  pool_bitmap = small_map;
  phy_address_start = used_mem;
  pool_size = 65536;
  lock = lock_init;
}

mem_pool_init-IsLaidOut_example : IsLaidOut 0x2000000 (mem_pool_init (λ _. 7) 0x2000000)
mem_pool_init-IsLaidOut_example =
    mem_pool_init-IsLaidOut (λ _. 7) 0x2000000 (omega arith) (omega arith)

-- 4096 pages, the first 2048 taken.
abbrev large_map : Bitmap
large_map = record { btmp_bytes_len = 512; bits = λ i. if ltb i 256 then 255 else 0 }

large_map-IsBytes : IsBytes large_map.bits
large_map-IsBytes i = ground arith

large_map-first : IsFirstFree large_map 2048
unfolding scan_test
large_map-first = record {
  inside = omega arith;
  free = refl;
  before = λ j h.
      let low : ltb (j / 8) 256 ≡ true = ground arith in
      rw low
        (all_below_sound 8 (has_bit 255) (j % 8) (unfold all_below has_bit in refl) (omega arith));
}

abbrev large_pool : Pool
large_pool = record small_pool { pool_bitmap = large_map }

palloc_twice_example :
    (a : ℕ) × (p' : Pool) × (p'' : Pool) × (palloc large_pool ≡ ok (some a, p'))
    × (palloc p' ≡ ok (some a, p''))
palloc_twice_example = palloc_twice large_pool 2048 large_map-IsBytes large_map-first (omega arith)

abbrev threads : Threads
threads = record {
  current = 1;
  status = λ t. if t == 1 then Status.running else Status.blocked;
  ready_list = [];
  priority = λ t. 31;
  ticks = λ t. 31;
  elapsed_ticks = λ t. 0;
  idle_thread = 0;
}

-- All page tables exist, no page is mapped.
abbrev memory : Memory
memory = record {
  kernel_pool = small_pool;
  user_pool = small_pool;
  kernel_vaddr = record { vaddr_bitmap = small_map; vaddr_start = 0xc0100000 };
  user_vaddr = record { vaddr_bitmap = small_map; vaddr_start = 0x8048000 };
  is_process = false;
  words = λ a. if leb 0xfffff000 a then 7 else 0;
  bytes = λ a. 0;
  threads = threads;
}

memory-IsOpen : IsOpen memory 0xc0100000
unfolding get_pde_ptr get_pte_ptr
memory-IsOpen = record { table = refl; unmapped = refl }

addr_v2p-page_table_add_example :
    (s' : Memory) × (page_table_add memory 0xc0100000 0x200000 ≡ ok s')
    × (addr_v2p s' 0xc0100123 ≡ 0x200000 + 0xc0100123 % page_size)
    × (addr_v2p s' 0xc0101000 ≡ addr_v2p memory 0xc0101000)
addr_v2p-page_table_add_example =
    addr_v2p-page_table_add memory 0xc0100000 0x200000 0xc0100123 0xc0101000 memory-IsOpen
      (omega arith) (omega arith) (omega arith) (omega arith) (omega arith) (omega arith)

small_map_free : (i : ℕ) → 4 ≤ i → i < 4 + 3 → scan_test small_map i ≡ false
unfolding scan_test
small_map_free i lo hi =
    let law =
      all_below_sound 7 (λ k. ltb k 4 || not (scan_test small_map k)) i (unfold all_below in refl)
        hi in
    ground (arith, law)

abbrev class_128 : Desc
class_128 = record { block_size = 128; blocks_pre_arena = 31; free_list = [] }

class_128-IsClass : IsClass class_128
class_128-IsClass = record { not_empty = omega arith; fits = omega arith; full = omega arith }

-- One class of 128 bytes, whose arena at page 257 has the blocks 4 and 5 free.
abbrev heap : Heap
heap = record {
  memory = memory;
  k_block_descs =
      record { block_size = 128; blocks_pre_arena = 31; free_list = 1053196 ∷ 1053324 ∷ [] } ∷ [];
  u_block_descs = [];
  arenas = λ a. record { desc = some (kernel, 0); cnt = 2; large = false };
}

heap-IsServed : IsServed heap 100
heap-IsServed = record { positive = omega arith; below = omega arith; unlocked = refl }
