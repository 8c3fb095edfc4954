-- ===== src/Memory/Heap/Books/Opened.antt =====
-- A class without a free block gets a new arena, and its first block is handed out.
use winux_os.Base.{
  ℕ, zero, suc, ◌-◌, ◌%◌, ◌<◌, ◌≤◌, ◌≡◌, ◌≢◌, ◌∙◌, refl, sym, ap, subst, true, false, inl, inr,
  Bool-cases, List, [], ◌∷◌, ◌++◌, none, some, ◌==◌, leb, if◌then◌else◌, update, arith, ok,
}
use winux_os.Thread.{Threads}
use winux_os.Thread.Sync.{lock_init, taken_by}
use winux_os.Memory.{page_size, kernel, Memory, malloc_page, zero_bytes}
use winux_os.Memory.Keeps.{Keeps, malloc_page-Keeps}
use winux_os.Memory.Heap.{
  Desc, Heap, find_desc, desc_at, set_desc, desc_cnt, block_desc_init, arena2block, blocks_from,
  refill, malloc_small, sys_malloc,
}
use winux_os.Memory.Heap.Malloc.{length-set_desc}
use winux_os.Memory.Heap.Books.{
  occurrences, Books, size_of, blocks_of, block_at, IsBalanced, open_arena, take,
}
use winux_os.Memory.Heap.Books.Arenas.{open_arena-IsBalanced}
use winux_os.Memory.Heap.Books.Refine.{Shows, class_lt, class-set_desc}
use winux_os.Memory.Heap.Books.Hands.{sys_malloc-take}
use winux_os.Memory.Heap.Books.Locked.{locked, acquire_lem}

find_desc-set_desc :
    (ds : List Desc) (i size : ℕ) (xs : List ℕ)
    → find_desc (set_desc ds i (record (desc_at ds i) { free_list = xs })) size ≡ find_desc ds size
unfolding find_desc
find_desc-set_desc [] i size xs = refl
find_desc-set_desc (d ∷ ds) zero size xs = refl
find_desc-set_desc (d ∷ ds) (suc i) size xs =
    ap (λ t. if leb size d.block_size then 0 else suc t) (find_desc-set_desc ds i size xs)

blocks_from_first :
    (a block_size n : ℕ)
    → 0 < n
    → blocks_from a block_size 0 n ≡ arena2block a block_size 0 ∷ blocks_from a block_size 1 (n - 1)
unfolding blocks_from
blocks_from_first a block_size zero h = absurd (omega arith)
blocks_from_first a block_size (suc n) h =
    let e : n ≡ suc n - 1 = omega arith in
    ap (λ t. arena2block a block_size 0 ∷ blocks_from a block_size 1 t) e

blocks_some : (i : ℕ) → i < desc_cnt → 0 < blocks_of i
unfolding blocks_of block_desc_init
blocks_some zero h = omega arith
blocks_some (suc zero) h = omega arith
blocks_some (suc (suc zero)) h = omega arith
blocks_some (suc (suc (suc zero))) h = omega arith
blocks_some (suc (suc (suc (suc zero)))) h = omega arith
blocks_some (suc (suc (suc (suc (suc zero))))) h = omega arith
blocks_some (suc (suc (suc (suc (suc (suc zero)))))) h = omega arith
blocks_some (suc (suc (suc (suc (suc (suc (suc i))))))) h = absurd (omega arith)

module _ (h : Heap) (s : Books) (shows : Shows h s) (bal : IsBalanced s) (size : ℕ)
    (small : size ≤ 1024) (a : ℕ) (m : Memory)
    (given : malloc_page (locked h.memory) kernel 1 ≡ ok (some a, m))
    (none_free : s.free (find_desc h.k_block_descs size) ≡ []) where
  abbrev i : ℕ
  i = find_desc h.k_block_descs size

  abbrev d : Desc
  d = desc_at h.k_block_descs i

  lt : i < desc_cnt
  lt = class_lt h s size shows small

  keeps : Keeps (locked h.memory) m
  keeps = malloc_page-Keeps (locked h.memory) m 1 (some a) given

  -- The heap after the new arena, the lock as it was.
  abbrev opened : Memory → Heap
  opened n = record h {
    memory = zero_bytes n (some a) page_size;
    k_block_descs =
        set_desc h.k_block_descs i
          (record d { free_list = d.free_list ++ blocks_from a d.block_size 0 d.blocks_pre_arena });
    arenas =
        update h.arenas a
          (record { desc = some (kernel, i); cnt = d.blocks_pre_arena; large = false });
  }

  refilled : refill (record h { memory = locked h.memory }) kernel i ≡ ok (true, opened m)
  unfolding refill
  refilled =
      let empty : d.free_list ≡ [] =
        ap (λ (e : Desc). e.free_list) (shows.class i lt) ∙ none_free in
      ground (arith, empty, given)

  abbrev free_again : Memory
  free_again = record m { kernel_pool = record m.kernel_pool { lock = lock_init } }

  new_blocks :
      (j : ℕ)
      → ◌≡◌ {A = Desc}
          (record {
            block_size = size_of j;
            blocks_pre_arena = blocks_of j;
            free_list =
                if i == j
                then s.free j ++ blocks_from a d.block_size 0 d.blocks_pre_arena
                else s.free j;
          })
          (record {
            block_size = size_of j;
            blocks_pre_arena = blocks_of j;
            free_list = (open_arena s i a).free j;
          })
  unfolding open_arena
  new_blocks j =
      ap
        (λ (e : Desc). record {
          block_size = size_of j;
          blocks_pre_arena = blocks_of j;
          free_list =
              if i == j
              then s.free j ++ blocks_from a e.block_size 0 e.blocks_pre_arena
              else s.free j;
        })
        (shows.class i lt)

  new_header :
      (c j : ℕ)
      → update s.owner a (some i) c ≡ some j
      → update h.arenas a
          (record { desc = some (kernel, i); cnt = d.blocks_pre_arena; large = false })
          c
        ≡ record { desc = some (kernel, j); cnt = update s.cnt a (blocks_of i) c; large = false }
  new_header c j own = elim (Bool-cases (a == c)) [
    | inl here ↦
        let same : some i ≡ some j = rw here at own in
        ground (arith, same, ap (λ (e : Desc). e.blocks_pre_arena) (shows.class i lt))
    | inr there ↦ rw there (shows.header c j (rw there at own))
  ]

  opened-Shows : Shows (opened free_again) (open_arena s i a)
  unfolding open_arena
  opened-Shows = record {
    thread = keeps.thread ∙ shows.thread;
    unlocked = refl;
    classes = length-set_desc h.k_block_descs i _ ∙ shows.classes;
    class = λ j p.
        class-set_desc h s i (λ xs. xs ++ blocks_from a d.block_size 0 d.blocks_pre_arena) shows lt
          j p
        ∙ new_blocks j;
    header = λ c j own. new_header c j own;
  }

  -- The first block of the new arena, and the others.
  abbrev first : ℕ
  first = block_at a i 0

  abbrev others : List ℕ
  others = blocks_from a (size_of i) 1 (blocks_of i - 1)

  opened_first : (open_arena s i a).free i ≡ first ∷ others
  unfolding open_arena
  opened_first =
      ground (arith, none_free, blocks_from_first a (size_of i) (blocks_of i) (blocks_some i lt))

  opened_list : (desc_at (opened m).k_block_descs i).free_list ≡ first ∷ others
  opened_list = ap (λ (e : Desc). e.free_list) (opened-Shows.class i lt) ∙ opened_first

  lock_kept : m.kernel_pool.lock ≡ taken_by m.threads.current
  lock_kept = keeps.lock ∙ ap (λ (t : Threads). taken_by t.current) (sym keeps.threads)

  with_lock : opened m ≡ record (opened free_again) { memory = locked (opened free_again).memory }
  with_lock =
      ap
        (λ l. record (opened m) {
          memory = record (opened m).memory { kernel_pool = record m.kernel_pool { lock = l } };
        })
        lock_kept

  refill_again : refill (opened m) kernel i ≡ ok (true, opened m)
  unfolding refill
  refill_again = ground (arith, opened_list)

  abbrev blocks : List ℕ
  blocks = blocks_from a d.block_size 0 d.blocks_pre_arena

  same_class : find_desc (opened m).k_block_descs size ≡ i
  same_class = find_desc-set_desc h.k_block_descs i size (d.free_list ++ blocks)

  same_block :
      malloc_small (record h { memory = locked h.memory }) kernel size
      ≡ malloc_small (opened m) kernel size
  unfolding malloc_small
  same_block = ground (arith, refilled, refill_again, same_class)

  same_run :
      0 < size
      → size < h.memory.kernel_pool.pool_size
      → sys_malloc h size ≡ sys_malloc (opened free_again) size
  unfolding sys_malloc
  same_run pos below = ground (
    arith,
    shows.thread,
    keeps.thread,
    keeps.size,
    acquire_lem h.memory shows.unlocked,
    acquire_lem (opened free_again).memory refl,
    same_block,
    with_lock,
  )

  -- When the class of a request of at most 1024 bytes has no free block, and `malloc_page` gives a
  -- page that is no arena, the request gets the page's first block; the heap shows the books with
  -- the new arena and that block handed out, and they are balanced.
  pub sys_malloc-open :
      0 < size
      → size < h.memory.kernel_pool.pool_size
      → a % page_size ≡ 0
      → a ≢ 0
      → s.owner a ≡ none
      → let s' = take (open_arena s i a) i first others in
        (h' : Heap) × (sys_malloc h size ≡ ok (some first, h'))
        × Shows h' s'
        × IsBalanced s'
        × (occurrences first s.live ≡ 0)
  unfolding open_arena
  sys_malloc-open pos below aligned not_null unused =
      let bal' = open_arena-IsBalanced s bal a i lt aligned unused not_null in
      let (h', run, shows', bal'', fresh) =
        sys_malloc-take (opened free_again) (open_arena s i a) opened-Shows bal' size first others
          pos (rw keeps.size below) small
          (ap (λ t. (open_arena s i a).free t) same_class ∙ opened_first) in
      (
        h',
        same_run pos below ∙ run,
        subst (λ t. Shows h' (take (open_arena s i a) t first others)) same_class shows',
        subst (λ t. IsBalanced (take (open_arena s i a) t first others)) same_class bal'',
        fresh,
      )
