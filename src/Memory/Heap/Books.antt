-- ===== src/Memory/Heap/Books.antt =====
-- What the small blocks of the kernel's heap are worth to its callers, as books that the lists and
-- counters of lib/kernel/memory.c keep: which arenas there are, which blocks are free and which
-- were handed out.
pub mod Opened
pub mod Locked
pub mod Hands
mod Counts
pub mod Places
pub mod Moves
pub mod Arenas
pub mod Closing
pub mod Refine
pub mod Release
pub mod Refill
mod Examples
pub use Counts.*
use winux_os.Base.{
  ℕ, suc, ◌+◌, ◌-◌, ◌*◌, ◌%◌, ◌<◌, ◌≤◌, ◌≡◌, ◌≢◌, List, [], ◌∷◌, ◌++◌, Option, none, some, ◌==◌,
  if◌then◌else◌, update,
}
use winux_os.Memory.{page_size}
use winux_os.Memory.Heap.{
  Desc, desc_at, desc_cnt, block_desc_init, arena2block, block2arena, blocks_from, remove,
  remove_all,
}

-- `free` by class, `cnt` by the arena's address, `owner`: the class of an arena, `live`: the blocks
-- that callers hold.
pub record Books : Type 0 where
  pub free : ℕ → List ℕ
  pub cnt : ℕ → ℕ
  pub owner : ℕ → Option ℕ
  pub live : List ℕ

unfoldable pub size_of : ℕ → ℕ
size_of i = (desc_at block_desc_init i).block_size

unfoldable pub blocks_of : ℕ → ℕ
blocks_of i = (desc_at block_desc_init i).blocks_pre_arena

-- Block `k` of the arena at `a`, of class `i`.
abbrev pub block_at : ℕ → ℕ → ℕ → ℕ
block_at a i k = arena2block a (size_of i) k

abbrev pub count_in : ℕ → List ℕ → ℕ
count_in a [] = 0
count_in a (x ∷ xs) = one_if (block2arena x == a) + count_in a xs

-- `x` is a block of an arena of class `i`.
pub record IsPlaced (owner : ℕ → Option ℕ) (i x : ℕ) : Type 0 where
  pub index : ℕ
  pub in_arena : index < blocks_of i
  pub owned : owner (block2arena x) ≡ some i
  pub lies : x ≡ block_at (block2arena x) i index

pub record IsArena (s : Books) (a i : ℕ) : Type 0 where
  pub classed : i < desc_cnt
  pub aligned : a % page_size ≡ 0
  pub not_null : a ≢ 0
  -- The arena's header counts its free blocks.
  pub counted : s.cnt a ≡ count_in a (s.free i)
  -- Each of its blocks is free or handed out, once.
  pub once :
      (k : ℕ)
      → k < blocks_of i
      → occurrences (block_at a i k) (s.free i) + occurrences (block_at a i k) s.live ≡ 1

pub record IsBalanced (s : Books) : Type 0 where
  pub arenas : (a i : ℕ) → s.owner a ≡ some i → IsArena s a i
  pub free_placed : (i x : ℕ) → 0 < occurrences x (s.free i) → IsPlaced s.owner i x
  pub live_placed : (x : ℕ) → 0 < occurrences x s.live → (i : ℕ) × IsPlaced s.owner i x

-- The first free block of class `i` is handed out.
unfoldable pub take : Books → ℕ → ℕ → List ℕ → Books
take s i b rest = record s {
  free = λ j. if i == j then rest else s.free j;
  cnt = update s.cnt (block2arena b) (s.cnt (block2arena b) - 1);
  live = b ∷ s.live;
}

-- A block comes back.
unfoldable pub give : Books → ℕ → ℕ → Books
give s i b = record s {
  free = λ j. if i == j then s.free j ++ b ∷ [] else s.free j;
  cnt = update s.cnt (block2arena b) (s.cnt (block2arena b) + 1);
  live = remove b s.live;
}

-- An arena for class `i` at `a`: all its blocks are free.
unfoldable pub open_arena : Books → ℕ → ℕ → Books
open_arena s i a = record s {
  free = λ j. if i == j then s.free j ++ blocks_from a (size_of i) 0 (blocks_of i) else s.free j;
  cnt = update s.cnt a (blocks_of i);
  owner = update s.owner a (some i);
}

-- The arena's page is given back.
unfoldable pub close_arena : Books → ℕ → ℕ → Books
close_arena s i a = record s {
  free = λ j.
      if i == j
      then remove_all (blocks_from a (size_of i) 0 (blocks_of i)) (s.free j)
      else s.free j;
  owner = update s.owner a none;
}
