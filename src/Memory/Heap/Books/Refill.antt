-- ===== src/Memory/Heap/Books/Refill.antt =====
-- `sys_malloc` of a small block, whether or not its class has a free one.
use winux_os.Base.{ℕ, ◌-◌, ◌%◌, ◌<◌, ◌≤◌, ◌≡◌, ◌≢◌, refl, List, [], ◌∷◌, none, some, ok}
use winux_os.Memory.{page_size, kernel, Memory, malloc_page}
use winux_os.Memory.Heap.{Heap, find_desc, blocks_from, sys_malloc}
use winux_os.Memory.Heap.Books.{
  occurrences, Books, size_of, blocks_of, block_at, IsBalanced, open_arena, take,
}
use winux_os.Memory.Heap.Books.Refine.{Shows}
use winux_os.Memory.Heap.Books.Hands.{sys_malloc-take}
use winux_os.Memory.Heap.Books.Locked.{locked}
use winux_os.Memory.Heap.Books.Opened.{sys_malloc-open}

-- The class of the request has a free block, or `malloc_page` gives a page that is no arena.
pub data HasBlock (h : Heap) (s : Books) (size : ℕ) : Type 0 where
  free_block :
      (b : ℕ) (rest : List ℕ)
      → s.free (find_desc h.k_block_descs size) ≡ b ∷ rest
      → HasBlock h s size
  new_page :
      (a : ℕ) (m : Memory)
      → s.free (find_desc h.k_block_descs size) ≡ []
      → malloc_page (locked h.memory) kernel 1 ≡ ok (some a, m)
      → a % page_size ≡ 0
      → a ≢ 0
      → s.owner a ≡ none
      → HasBlock h s size

-- In a kernel thread whose pool nobody has locked, on a heap that shows balanced books,
-- `sys_malloc` of 1 to 1024 bytes, fewer than the pool has, returns a block that nobody held, and
-- the heap shows balanced books in which the caller holds it beside what was held before, if the
-- class of the request has a free block or `malloc_page` gives a page that is no arena.
pub sys_malloc-IsBalanced :
    (h : Heap) (s : Books) (size : ℕ)
    → Shows h s
    → IsBalanced s
    → 0 < size
    → size ≤ 1024
    → size < h.memory.kernel_pool.pool_size
    → HasBlock h s size
    → (b : ℕ) × (h' : Heap) × (s' : Books) × (sys_malloc h size ≡ ok (some b, h'))
      × Shows h' s'
      × IsBalanced s'
      × (s'.live ≡ b ∷ s.live)
      × (occurrences b s.live ≡ 0)
unfolding take open_arena
sys_malloc-IsBalanced h s size shows bal pos small below (free_block b rest e) =
    let (h', run, shows', bal', fresh) =
      sys_malloc-take h s shows bal size b rest pos below small e in
    (b, h', take s (find_desc h.k_block_descs size) b rest, run, shows', bal', refl, fresh)
sys_malloc-IsBalanced h s size shows bal pos small below (new_page a m e given aligned ne unused) =
    let i = find_desc h.k_block_descs size in
    let (h', run, shows', bal', fresh) =
      sys_malloc-open h s shows bal size small a m given e pos below aligned ne unused in
    (
      block_at a i 0,
      h',
      take (open_arena s i a) i (block_at a i 0) (blocks_from a (size_of i) 1 (blocks_of i - 1)),
      run,
      shows',
      bal',
      refl,
      fresh,
    )
