-- ===== src/Memory.antt =====
-- lib/kernel/memory.c: the state of the memory manager, the physical and virtual page pools and the
-- page tables. `Memory/Heap.antt` has `sys_malloc` and `sys_free`. A pointer is its address, NULL is
-- `none`. `x & 0xfffff000` is `x / 4096 * 4096`, `x | 7` is `x / 8 * 8 + 7`.
pub mod Paging
pub mod PoolLaws
pub mod Alloc
pub mod Heap
pub mod Keeps
mod Examples
use winux_os.Base.{
  ℕ, zero, suc, ◌+◌, ◌-◌, ◌*◌, ◌/◌, ◌%◌, ◌^◌, Bool, true, false, not, Option, none, some, ◌==◌, ltb,
  leb, if◌then◌else◌, ◌&&◌, Bytes, update, u32, Outcome, ok, panic, ◌>>=◌, ◌>>◌, assert,
}
use winux_os.Bitmap
use winux_os.Bitmap.{Bitmap}
use winux_os.Thread.{Threads}
use winux_os.Thread.Sync.{Lock, lock_init, lock_acquire, lock_release}

abbrev pub page_size : ℕ
page_size = 4096

-- `m - n` on uint32_t.
abbrev pub sub32 : ℕ → ℕ → ℕ
sub32 m n = u32 (m + 2 ^ 32 - n)

pub record Pool : Type 0 where
  pub pool_bitmap : Bitmap
  pub phy_address_start : ℕ
  pub pool_size : ℕ
  pub lock : Lock

pub record VirtualAddr : Type 0 where
  pub vaddr_bitmap : Bitmap
  pub vaddr_start : ℕ

pub data PoolFlag : Type 0 where
  kernel user : PoolFlag

-- What a running thread can reach: both pools, the kernel's and its own virtual addresses, whether
-- it has a page directory of its own, the words of the page tables and the other bytes, by address.
pub record Memory : Type 0 where
  pub kernel_pool : Pool
  pub user_pool : Pool
  pub kernel_vaddr : VirtualAddr
  pub user_vaddr : VirtualAddr
  pub is_process : Bool
  pub words : ℕ → ℕ
  pub bytes : Bytes
  pub threads : Threads

-- `mem_pool_init`: the pools and the addresses of their bitmaps.
pub record Pools : Type 0 where
  pub kernel_pool : Pool
  pub user_pool : Pool
  pub kernel_vaddr : VirtualAddr
  pub kernel_bits_at : ℕ
  pub user_bits_at : ℕ
  pub vaddr_bits_at : ℕ

abbrev pub bitmap_address : ℕ
bitmap_address = 0xc009a000

abbrev pub heap_start : ℕ
heap_start = 0xc0100000

-- The first megabyte and the 256 pages of page tables.
abbrev pub used_mem : ℕ
used_mem = 0x100000 + page_size * 256

abbrev map_at : Bytes → ℕ → ℕ → Bitmap
map_at memory address len =
    Bitmap.init (record { btmp_bytes_len = len; bits = λ i. memory (address + i) })

pub mem_pool_init : Bytes → ℕ → Pools
mem_pool_init memory total_mem =
    let all_free_page = sub32 total_mem used_mem / page_size in
    let kernel_free_page = all_free_page / 2 in
    let user_free_page = all_free_page - kernel_free_page in
    let kernel_len = kernel_free_page / 8 in
    let user_len = user_free_page / 8 in
    record {
      kernel_pool = record {
        pool_bitmap = map_at memory bitmap_address kernel_len;
        phy_address_start = used_mem;
        pool_size = u32 (kernel_free_page * page_size);
        lock = lock_init;
      };
      user_pool = record {
        pool_bitmap = map_at memory (bitmap_address + kernel_len) user_len;
        phy_address_start = u32 (used_mem + kernel_free_page * page_size);
        pool_size = u32 (user_free_page * page_size);
        lock = lock_init;
      };
      kernel_vaddr = record {
        vaddr_bitmap = map_at memory (bitmap_address + kernel_len + user_len) kernel_len;
        vaddr_start = heap_start;
      };
      kernel_bits_at = bitmap_address;
      user_bits_at = bitmap_address + kernel_len;
      vaddr_bits_at = bitmap_address + kernel_len + user_len;
    }

pub mem_init : Bytes → ℕ → Outcome Pools
mem_init memory mem_bytes_total = do
  assert (mem_bytes_total == 0x2000000)
  ok (mem_pool_init memory mem_bytes_total)

-- `bitmap_set` at `start`, `start + 1`, ... for `cnt` bits.
unfoldable pub set_range : Bitmap → ℕ → ℕ → Outcome Bitmap
set_range m start zero = ok m
set_range m start (suc cnt) = Bitmap.set m start 1 >>= λ m'. set_range m' (start + 1) cnt

-- A run of `pg_cnt` free virtual pages, now taken; the address of the first.
take_run : VirtualAddr → ℕ → Option ℕ → Outcome (Option ℕ × VirtualAddr)
unfolding set_range
take_run v pg_cnt none = ok (none, v)
take_run v pg_cnt (some start) = do
  m ← set_range v.vaddr_bitmap start pg_cnt
  ok (some (u32 (v.vaddr_start + start * page_size)), record v { vaddr_bitmap = m })

abbrev below_stack : Option ℕ → Bool
below_stack none = true
below_stack (some vaddr) = ltb vaddr (0xc0000000 - page_size)

unfoldable pub vadder_get : Memory → PoolFlag → ℕ → Outcome (Option ℕ × Memory)
unfolding take_run
vadder_get s kernel pg_cnt = do
  found ← Bitmap.scan s.kernel_vaddr.vaddr_bitmap pg_cnt
  (vaddr, v) ← take_run s.kernel_vaddr pg_cnt found
  ok (vaddr, record s { kernel_vaddr = v })
vadder_get s user pg_cnt = do
  found ← Bitmap.scan s.user_vaddr.vaddr_bitmap pg_cnt
  (vaddr, v) ← take_run s.user_vaddr pg_cnt found
  assert (below_stack vaddr)
  ok (vaddr, record s { user_vaddr = v })

take_page : Pool → Option ℕ → Outcome (Option ℕ × Pool)
take_page pool none = ok (none, pool)
take_page pool (some idx) = do
  m ← Bitmap.set pool.pool_bitmap idx 1
  ok (some (u32 (idx * page_size + pool.phy_address_start)), record pool { pool_bitmap = m })

unfoldable pub palloc : Pool → Outcome (Option ℕ × Pool)
unfolding take_page
palloc pool = do found ← Bitmap.scan pool.pool_bitmap 1; take_page pool found

-- Addresses of the words that map `vaddr`, through the last entry of the page directory.
unfoldable pub get_pde_ptr : ℕ → ℕ
get_pde_ptr vaddr = 0xfffff000 + vaddr / 2 ^ 22 * 4

unfoldable pub get_pte_ptr : ℕ → ℕ
get_pte_ptr vaddr = 0xffc00000 + vaddr / 2 ^ 22 * 2 ^ 12 + vaddr / 2 ^ 12 % 2 ^ 10 * 4

abbrev pub or_flags : ℕ → ℕ
or_flags paddr = paddr / 8 * 8 + 7

abbrev pub address_of : Option ℕ → ℕ
address_of none = 0
address_of (some a) = a

-- `memset` of a page of words.
abbrev pub clear_page : (ℕ → ℕ) → ℕ → ℕ → ℕ
clear_page words page a = if leb page a && ltb a (page + page_size) then 0 else words a

unfoldable pub page_table_add : Memory → ℕ → ℕ → Outcome Memory
unfolding palloc get_pde_ptr get_pte_ptr
page_table_add s vaddr paddr =
    let pde = get_pde_ptr vaddr in
    let pte = get_pte_ptr vaddr in
    if s.words pde % 2 == 1
    then (do
      assert (s.words pte % 2 == 0)
      ok (record s { words = update s.words pte (or_flags paddr) }))
    else (do
      (page, pool) ← palloc s.kernel_pool
      let linked = update s.words pde (or_flags (address_of page))
      let cleared = clear_page linked (pte / page_size * page_size)
      assert (cleared pte % 2 == 0)
      ok (record s { kernel_pool = pool; words = update cleared pte (or_flags paddr) }))

unfoldable pub addr_v2p : Memory → ℕ → ℕ
unfolding get_pte_ptr
addr_v2p s vaddr = s.words (get_pte_ptr vaddr) / page_size * page_size + vaddr % page_size

abbrev pub pool_of : Memory → PoolFlag → Pool
pool_of s kernel = s.kernel_pool
pool_of s user = s.user_pool

abbrev pub with_pool : Memory → PoolFlag → Pool → Memory
with_pool s kernel p = record s { kernel_pool = p }
with_pool s user p = record s { user_pool = p }

-- One physical page behind `vaddr`; false if there is none.
back_page : Memory → PoolFlag → ℕ → Outcome (Bool × Memory)
unfolding palloc page_table_add
back_page s pf vaddr = palloc (pool_of s pf) >>= λ (page, pool). elim page [
  | none ↦ ok (false, with_pool s pf pool)
  | some paddr ↦ page_table_add (with_pool s pf pool) vaddr paddr >>= λ s'. ok (true, s')
]

-- The loop of `malloc_page`. It returns at the first failure and undoes nothing.
back_pages : Memory → PoolFlag → ℕ → ℕ → Outcome (Bool × Memory)
unfolding back_page
back_pages s pf vaddr zero = ok (true, s)
back_pages s pf vaddr (suc cnt) = back_page s pf vaddr >>= λ (done, s'). elim done [
  | true ↦ back_pages s' pf (u32 (vaddr + page_size)) cnt
  | false ↦ ok (false, s')
]

unfoldable pub malloc_page : Memory → PoolFlag → ℕ → Outcome (Option ℕ × Memory)
unfolding vadder_get back_pages
malloc_page s pf pg_cnt =
    assert (not (pg_cnt == 0))
    >> (vadder_get s pf pg_cnt >>= λ (found, s₁). elim found [
      | none ↦ ok (none, s₁)
      | some vaddr ↦
          back_pages s₁ pf vaddr pg_cnt >>= λ (done, s₂). ok (if done then some vaddr else none, s₂)
    ])

-- `memset(vaddr, 0, size)`, at NULL nothing.
abbrev pub zero_bytes : Memory → Option ℕ → ℕ → Memory
zero_bytes s none size = s
zero_bytes s (some vaddr) size = record s {
  bytes = λ a. if leb vaddr a && ltb a (vaddr + size) then 0 else s.bytes a;
}

unfoldable pub acquire : Memory → PoolFlag → Outcome Memory
acquire s pf = do
  l ← lock_acquire s.threads (pool_of s pf).lock
  ok (with_pool s pf (record (pool_of s pf) { lock = l }))

unfoldable pub release : Memory → PoolFlag → Outcome Memory
release s pf = do
  (t, l) ← lock_release s.threads (pool_of s pf).lock
  ok (record (with_pool s pf (record (pool_of s pf) { lock = l })) { threads = t })

-- `get_kernel_page` and `get_user_page`.
unfoldable pub get_page : Memory → PoolFlag → ℕ → Outcome (Option ℕ × Memory)
unfolding malloc_page acquire release
get_page s pf pg_cnt = do
  s₁ ← acquire s pf
  (vaddr, s₂) ← malloc_page s₁ pf pg_cnt
  s₃ ← release (zero_bytes s₂ vaddr (pg_cnt * page_size)) pf
  ok (vaddr, s₃)
