-- ===== src/Memory/Heap/Books/Refine.antt =====
-- Which heaps show which books: the descriptors of the classes and the headers of the arenas.
use winux_os.Base.{
  ℕ, zero, suc, ◌*◌, ◌<◌, ◌≤◌, ◌≡◌, ◌≢◌, ◌∙◌, refl, sym, ap, false, inl, inr, Bool-cases, List, [],
  ◌∷◌, length, Option, some, ◌==◌, if◌then◌else◌, update, arith,
}
use winux_os.Thread.Sync.{lock_init}
use winux_os.Memory.{kernel}
use winux_os.Memory.Heap.{
  Desc, Heap, Arena, find_desc, desc_at, set_desc, desc_cnt, block_desc_init, arena2block,
}
use winux_os.Memory.Heap.Blocks.{block_desc_init-IsClass}
use winux_os.Memory.Heap.Malloc.{desc_at-set_desc}
use winux_os.Memory.Heap.Books.{
  occurrences, sum_below-le, Books, size_of, blocks_of, block_at, IsPlaced, IsBalanced,
}
use winux_os.Memory.Heap.Books.Places.{count_in-sum_below}

-- The class descriptors and the headers of the arenas show the books; the thread is one of the
-- kernel, whose pool nobody has locked.
pub record Shows (h : Heap) (s : Books) : Type 0 where
  pub thread : h.memory.is_process ≡ false
  pub unlocked : h.memory.kernel_pool.lock ≡ lock_init
  pub classes : length h.k_block_descs ≡ desc_cnt
  pub class :
      (i : ℕ)
      → i < desc_cnt
      → desc_at h.k_block_descs i
        ≡ record { block_size = size_of i; blocks_pre_arena = blocks_of i; free_list = s.free i }
  pub header :
      (a i : ℕ)
      → s.owner a ≡ some i
      → h.arenas a ≡ record { desc = some (kernel, i); cnt = s.cnt a; large = false }

find_desc-lt :
    (ds : List Desc) (size n : ℕ)
    → n < length ds
    → size ≤ (desc_at ds n).block_size
    → find_desc ds size < length ds
unfolding find_desc
find_desc-lt [] size n p h = absurd (omega arith)
find_desc-lt (d ∷ ds) size zero p h = ground arith
find_desc-lt (d ∷ ds) size (suc n) p h = ground (arith, find_desc-lt ds size n (omega arith) h)

largest : size_of 6 ≡ 1024
unfolding size_of block_desc_init
largest = refl

-- A request of at most 1024 bytes has a class.
pub class_lt :
    (h : Heap) (s : Books) (size : ℕ)
    → Shows h s
    → size ≤ 1024
    → find_desc h.k_block_descs size < desc_cnt
class_lt h s size shows small =
    let last = ap (λ (d : Desc). d.block_size) (shows.class 6 (omega arith)) in
    omega (
      arith,
      shows.classes,
      find_desc-lt h.k_block_descs size 6 (omega (arith, shows.classes))
          (omega (arith, largest, last)),
    )

le_mul : (n s : ℕ) → 0 < s → n ≤ n * s
le_mul n s h = grind arith

pub blocks_few : (i : ℕ) → i < desc_cnt → blocks_of i ≤ 4096
unfolding blocks_of
blocks_few i h =
    let c = block_desc_init-IsClass i h in
    omega (
      arith,
      c.fits,
      c.not_empty,
      le_mul (desc_at block_desc_init i).blocks_pre_arena (desc_at block_desc_init i).block_size
          c.not_empty,
    )

-- A counter of free blocks is at most the number of blocks.
pub cnt-le : (s : Books) (a i : ℕ) → IsBalanced s → s.owner a ≡ some i → s.cnt a ≤ blocks_of i
cnt-le s a i bal own =
    let arena = bal.arenas a i own in
    omega (
      arith,
      arena.counted,
      count_in-sum_below a i arena.classed (s.free i) arena.aligned (λ x h e.
          let q = bal.free_placed i x h in
          (q.index, q.in_arena, q.lies ∙ ap (λ t. block_at t i q.index) e)),
      sum_below-le (blocks_of i) (λ k. occurrences (block_at a i k) (s.free i))
          (λ k p. omega (arith, arena.once k p)),
    )

desc_at-other :
    (ds : List Desc) (i j : ℕ) (e : Desc)
    → (i == j) ≡ false
    → desc_at (set_desc ds i e) j ≡ desc_at ds j
desc_at-other [] i j e ne = refl
desc_at-other (d ∷ ds) zero zero e ne = absurd (ground arith)
desc_at-other (d ∷ ds) zero (suc j) e ne = refl
desc_at-other (d ∷ ds) (suc i) zero e ne = refl
desc_at-other (d ∷ ds) (suc i) (suc j) e ne = desc_at-other ds i j e (ground arith)

-- A new free list for class `i`.
pub class-set_desc :
    (h : Heap) (s : Books) (i : ℕ) (f : List ℕ → List ℕ)
    → Shows h s
    → i < desc_cnt
    → (j : ℕ) → j < desc_cnt
    → desc_at
        (set_desc h.k_block_descs i (record (desc_at h.k_block_descs i) {
          free_list = f (desc_at h.k_block_descs i).free_list;
        }))
        j
      ≡ record {
        block_size = size_of j;
        blocks_pre_arena = blocks_of j;
        free_list = if i == j then f (s.free j) else s.free j;
      }
class-set_desc h s i f shows p j q =
    let new = λ (d : Desc). record d { free_list = f d.free_list } in
    let ds = h.k_block_descs in
    elim (Bool-cases (i == j)) [
      | inl same ↦
          let e : i ≡ j = ground arith in
          rw same (
            ap (desc_at (set_desc ds i (new (desc_at ds i)))) (sym e)
            ∙ desc_at-set_desc ds i (new (desc_at ds i)) (omega (arith, shows.classes))
            ∙ ap new (shows.class i p)
            ∙ ap
                (λ t. record {
                  block_size = size_of t;
                  blocks_pre_arena = blocks_of t;
                  free_list = f (s.free t);
                })
                e)
      | inr differ ↦ rw differ (desc_at-other ds i j (new (desc_at ds i)) differ ∙ shows.class j q)
    ]

-- A new count in the header of the arena at `a`.
pub header-set_cnt :
    (h : Heap) (s : Books) (a m n : ℕ)
    → Shows h s
    → m ≡ n
    → (c j : ℕ) → s.owner c ≡ some j
    → update h.arenas a (record (h.arenas a) { cnt = m }) c
      ≡ record { desc = some (kernel, j); cnt = update s.cnt a n c; large = false }
header-set_cnt h s a m n shows e c j own = elim (Bool-cases (a == c)) [
  | inr there ↦ rw there (shows.header c j own)
  | inl here ↦
      let q : a ≡ c = ground arith in
      rw here (
        ap (λ (t : Arena). record t { cnt = m }) (shows.header a j (ap s.owner q ∙ own))
        ∙ ap (λ t. record { desc = some (kernel, j); cnt = t; large = false }) e)
]

pub block-ne-zero : (owner : ℕ → Option ℕ) (i b : ℕ) → IsPlaced owner i b → b ≢ 0
unfolding arena2block
block-ne-zero owner i b p = ground (arith, p.lies)
