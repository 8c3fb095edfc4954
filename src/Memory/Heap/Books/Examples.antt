-- ===== src/Memory/Heap/Books/Examples.antt =====
-- A heap with one arena for blocks of 128 bytes, before and after one is handed out.
use winux_os.Base.{
  ℕ, zero, suc, ◌<◌, ◌≡◌, refl, false, List, [], ◌∷◌, none, some, ◌==◌, if◌then◌else◌, arith, ok,
}
use winux_os.Thread.{Status}
use winux_os.Thread.Sync.{lock_init}
use winux_os.Memory.{Memory, Pool, kernel}
use winux_os.Memory.Heap.{
  Desc, Heap, desc_cnt, desc_at, block_desc_init, find_desc, blocks_from, block2arena, remove,
  sys_malloc, sys_free,
}
use winux_os.Memory.Heap.Books.{
  Books, occurrences, size_of, blocks_of, IsBalanced, take, open_arena,
}
use winux_os.Memory.Heap.Books.Arenas.{open_arena-IsBalanced}
use winux_os.Memory.Heap.Books.Moves.{take-IsBalanced}
use winux_os.Memory.Heap.Books.Refine.{Shows}
use winux_os.Memory.Heap.Books.Refill.{free_block, sys_malloc-IsBalanced}
use winux_os.Memory.Heap.Books.Release.{sys_free-IsBalanced}

abbrev pool : Pool
pool = record {
  pool_bitmap = record { btmp_bytes_len = 2; bits = λ i. 0 };
  phy_address_start = 0x200000;
  pool_size = 65536;
  lock = lock_init;
}

abbrev memory : Memory
memory = record {
  kernel_pool = pool;
  user_pool = pool;
  kernel_vaddr = record { vaddr_bitmap = pool.pool_bitmap; vaddr_start = 0xc0100000 };
  user_vaddr = record { vaddr_bitmap = pool.pool_bitmap; vaddr_start = 0x8048000 };
  is_process = false;
  words = λ _. 1;
  bytes = λ _. 7;
  threads = record {
    current = 1;
    status = λ t. if t == 1 then Status.running else Status.blocked;
    ready_list = [];
    priority = λ t. 31;
    ticks = λ t. 31;
    elapsed_ticks = λ t. 0;
    idle_thread = 0;
  };
}

no_books-IsBalanced :
    IsBalanced (record { free = λ _. []; cnt = λ _. 0; owner = λ _. none; live = [] })
no_books-IsBalanced = record {
  arenas = λ a i own. absurd (ground (arith, own));
  free_placed = λ i x h. absurd (omega arith);
  live_placed = λ x h. absurd (omega arith);
}

-- The page of the arena.
abbrev page : ℕ
page = 1052672

abbrev books : Books
books = open_arena (record { free = λ _. []; cnt = λ _. 0; owner = λ _. none; live = [] }) 3 page

books-IsBalanced : IsBalanced books
books-IsBalanced =
    open_arena-IsBalanced (record { free = λ _. []; cnt = λ _. 0; owner = λ _. none; live = [] })
      no_books-IsBalanced page 3 (omega arith) (omega arith) refl (omega arith)

abbrev blocks : List ℕ
blocks = blocks_from page 128 0 31

abbrev desc : ℕ → ℕ → List ℕ → Desc
desc size n xs = record { block_size = size; blocks_pre_arena = n; free_list = xs }

-- The seven classes, with a free list for blocks of 128 bytes.
abbrev classes : List ℕ → List Desc
classes xs =
    desc 16 255 []
    ∷ desc 32 127 []
    ∷ desc 64 63 []
    ∷ desc 128 31 xs
    ∷ desc 256 15 []
    ∷ desc 512 7 []
    ∷ desc 1024 3 []
    ∷ []

abbrev heap : List ℕ → ℕ → Heap
heap xs n = record {
  memory = memory;
  k_block_descs = classes xs;
  u_block_descs = [];
  arenas = λ a. record { desc = some (kernel, 3); cnt = n; large = false };
}

heap-class :
    (i : ℕ)
    → i < desc_cnt
    → desc_at (classes blocks) i ≡ desc (size_of i) (blocks_of i) (books.free i)
unfolding size_of blocks_of block_desc_init open_arena blocks_from
heap-class zero h = refl
heap-class (suc zero) h = refl
heap-class (suc (suc zero)) h = refl
heap-class (suc (suc (suc zero))) h = refl
heap-class (suc (suc (suc (suc zero)))) h = refl
heap-class (suc (suc (suc (suc (suc zero))))) h = refl
heap-class (suc (suc (suc (suc (suc (suc zero)))))) h = refl
heap-class (suc (suc (suc (suc (suc (suc (suc i))))))) h = absurd (omega arith)

heap-Shows : Shows (heap blocks 31) books
unfolding open_arena blocks_of block_desc_init
heap-Shows = record {
  thread = refl;
  unlocked = refl;
  classes = refl;
  class = heap-class;
  header = λ a i own. ground (arith, own);
}

abbrev block : ℕ
block = 1052684

abbrev rest : List ℕ
rest = blocks_from page 128 1 30

books_first : books.free 3 ≡ block ∷ rest
unfolding open_arena blocks_from blocks_of size_of block_desc_init
books_first = refl

sys_malloc-IsBalanced_example :
    (b : ℕ) × (h' : Heap) × (s' : Books) × (sys_malloc (heap blocks 31) 100 ≡ ok (some b, h'))
    × Shows h' s'
    × IsBalanced s'
    × (s'.live ≡ b ∷ books.live)
    × (occurrences b books.live ≡ 0)
sys_malloc-IsBalanced_example =
    sys_malloc-IsBalanced (heap blocks 31) books 100 heap-Shows books-IsBalanced (omega arith)
      (omega arith) (omega arith) (free_block block rest (unfold find_desc in books_first))

-- After the block was handed out.
abbrev loan : Books
loan = take books 3 block rest

loan-IsBalanced : IsBalanced loan
loan-IsBalanced = take-IsBalanced books books-IsBalanced 3 block rest books_first

loan-class :
    (i : ℕ) → i < desc_cnt → desc_at (classes rest) i ≡ desc (size_of i) (blocks_of i) (loan.free i)
unfolding size_of blocks_of block_desc_init open_arena blocks_from take
loan-class zero h = refl
loan-class (suc zero) h = refl
loan-class (suc (suc zero)) h = refl
loan-class (suc (suc (suc zero))) h = refl
loan-class (suc (suc (suc (suc zero)))) h = refl
loan-class (suc (suc (suc (suc (suc zero))))) h = refl
loan-class (suc (suc (suc (suc (suc (suc zero)))))) h = refl
loan-class (suc (suc (suc (suc (suc (suc (suc i))))))) h = absurd (omega arith)

loan-Shows : Shows (heap rest 30) loan
unfolding open_arena blocks_of block_desc_init take block2arena
loan-Shows = record {
  thread = refl;
  unlocked = refl;
  classes = refl;
  class = loan-class;
  header = λ a i own. ground (arith, own);
}

sys_free-IsBalanced_example :
    (h' : Heap) × (s' : Books) × (sys_free (heap rest 30) block ≡ ok h')
    × Shows h' s'
    × IsBalanced s'
    × (s'.live ≡ remove block loan.live)
    × (occurrences block s'.live ≡ 0)
sys_free-IsBalanced_example =
    sys_free-IsBalanced (heap rest 30) loan block loan-Shows loan-IsBalanced
      (unfold take in omega arith)
