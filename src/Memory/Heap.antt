-- ===== src/Memory/Heap.antt =====
-- lib/kernel/memory.c: `block_desc_init`, `sys_malloc` and `sys_free`. A free list is the list of
-- its blocks' addresses; the header of an arena is kept by the arena's address.
pub mod Blocks
pub mod Malloc
pub mod Books
use winux_os.Base.{
  ℕ, zero, suc, ◌+◌, ◌-◌, ◌*◌, ◌/◌, ◌%◌, ◌^◌, Bool, true, false, not, ◌&&◌, ◌||◌, Option, none,
  some, List, [], ◌∷◌, ◌++◌, ◌==◌, ltb, leb, if◌then◌else◌, update, u16, u32, Outcome, ok, panic,
  ◌>>=◌, ◌>>◌, assert,
}
use winux_os.Thread.{is_empty}
use winux_os.Memory.{
  page_size, PoolFlag, kernel, user, Memory, pool_of, malloc_page, zero_bytes, acquire, release,
  sub32,
}
use winux_os.Memory.Alloc.{own_pool, mfree_page}

pub record Desc : Type 0 where
  pub block_size : ℕ
  pub blocks_pre_arena : ℕ
  pub free_list : List ℕ

abbrev pub no_desc : Desc
no_desc = record { block_size = 0; blocks_pre_arena = 0; free_list = [] }

-- sizeof(struct arena)
abbrev pub header_size : ℕ
header_size = 12

abbrev pub desc_cnt : ℕ
desc_cnt = 7

init_descs : ℕ → ℕ → List Desc
init_descs zero block_size = []
init_descs (suc left) block_size =
    record {
      block_size = block_size;
      blocks_pre_arena = (page_size - header_size) / block_size;
      free_list = [];
    }
    ∷ init_descs left (u16 (block_size * 2))

unfoldable pub block_desc_init : List Desc
unfolding init_descs
block_desc_init = init_descs desc_cnt 16

-- The first class that is large enough; the length of the list if there is none.
unfoldable pub find_desc : List Desc → ℕ → ℕ
find_desc [] size = 0
find_desc (d ∷ ds) size = if leb size d.block_size then 0 else suc (find_desc ds size)

abbrev pub desc_at : List Desc → ℕ → Desc
desc_at [] i = no_desc
desc_at (d ∷ ds) zero = d
desc_at (d ∷ ds) (suc i) = desc_at ds i

abbrev pub set_desc : List Desc → ℕ → Desc → List Desc
set_desc [] i e = []
set_desc (d ∷ ds) zero e = e ∷ ds
set_desc (d ∷ ds) (suc i) e = d ∷ set_desc ds i e

-- `desc` is the class and whose descriptors it is in; `none` for a large block.
pub record Arena : Type 0 where
  pub desc : Option (PoolFlag × ℕ)
  pub cnt : ℕ
  pub large : Bool

pub record Heap : Type 0 where
  pub memory : Memory
  pub k_block_descs : List Desc
  pub u_block_descs : List Desc
  pub arenas : ℕ → Arena

abbrev pub descs_of : Heap → PoolFlag → List Desc
descs_of h kernel = h.k_block_descs
descs_of h user = h.u_block_descs

abbrev pub with_descs : Heap → PoolFlag → List Desc → Heap
with_descs h kernel ds = record h { k_block_descs = ds }
with_descs h user ds = record h { u_block_descs = ds }

unfoldable pub arena2block : ℕ → ℕ → ℕ → ℕ
arena2block a block_size idx = a + header_size + idx * block_size

unfoldable pub block2arena : ℕ → ℕ
block2arena b = b / page_size * page_size

-- The blocks of a new arena, in order.
unfoldable pub blocks_from : ℕ → ℕ → ℕ → ℕ → List ℕ
unfolding arena2block
blocks_from a block_size idx zero = []
blocks_from a block_size idx (suc left) =
    arena2block a block_size idx ∷ blocks_from a block_size (idx + 1) left

-- A request over 1024 bytes: whole pages, the header first.
unfoldable pub malloc_large : Heap → PoolFlag → ℕ → Outcome (Option ℕ × Heap)
malloc_large h pf size =
    let page_cnt = u32 (size + header_size + page_size - 1) / page_size in
    malloc_page h.memory pf page_cnt >>= λ (found, m). elim found [
      | none ↦ release m pf >>= λ m'. ok (none, record h { memory = m' })
      | some a ↦ release (zero_bytes m (some a) (page_cnt * page_size)) pf >>= λ m'. ok (
        some (a + header_size),
        record h {
          memory = m';
          arenas = update h.arenas a (record { desc = none; cnt = page_cnt; large = true });
        },
      )
    ]

-- A new arena for class `idx`, if its free list is empty; false if there is no page.
unfoldable pub refill : Heap → PoolFlag → ℕ → Outcome (Bool × Heap)
unfolding blocks_from
refill h pf idx =
    let d = desc_at (descs_of h pf) idx in
    if is_empty d.free_list
    then (malloc_page h.memory pf 1 >>= λ (found, m). elim found [
      | none ↦ ok (false, record h { memory = m })
      | some a ↦ ok (
        true,
        with_descs
            (record h {
              memory = zero_bytes m (some a) page_size;
              arenas =
                  update h.arenas a
                    (record { desc = some (pf, idx); cnt = d.blocks_pre_arena; large = false });
            })
            pf
            (set_desc (descs_of h pf) idx (record d {
              free_list = d.free_list ++ blocks_from a d.block_size 0 d.blocks_pre_arena;
            })),
      )
    ])
    else ok (true, h)

-- `list_pop` and what follows. An empty list would give the list's own tail for a block.
unfoldable pub pop_block : Heap → PoolFlag → ℕ → List ℕ → Outcome (ℕ × Heap)
unfolding block2arena
pop_block h pf idx [] = panic
pop_block h pf idx (b ∷ rest) =
    let d = desc_at (descs_of h pf) idx in
    let a = block2arena b in
    ok (
      b,
      with_descs
          (record h {
            memory = zero_bytes h.memory (some b) d.block_size;
            arenas = update h.arenas a (record (h.arenas a) { cnt = sub32 (h.arenas a).cnt 1 });
          })
          pf (set_desc (descs_of h pf) idx (record d { free_list = rest })),
    )

-- The three lines that `printk` shows are left out.
unfoldable pub malloc_small : Heap → PoolFlag → ℕ → Outcome (Option ℕ × Heap)
unfolding find_desc refill pop_block
malloc_small h pf size =
    let idx = find_desc (descs_of h pf) size in
    refill h pf idx >>= λ (ready, h₁).
    if ready
    then (do
      (b, h₂) ← pop_block h₁ pf idx (desc_at (descs_of h₁ pf) idx).free_list
      m ← release h₂.memory pf
      ok (some b, record h₂ { memory = m }))
    else (do m ← release h₁.memory pf; ok (none, record h₁ { memory = m }))

unfoldable pub sys_malloc : Heap → ℕ → Outcome (Option ℕ × Heap)
unfolding malloc_large malloc_small
sys_malloc h size =
    let pf = own_pool h.memory in
    if ltb 0 size && ltb size (pool_of h.memory pf).pool_size
    then (acquire h.memory pf >>= λ m.
        if ltb 1024 size
        then malloc_large (record h { memory = m }) pf size
        else malloc_small (record h { memory = m }) pf size)
    else ok (none, h)

-- `list_remove` of a block.
unfoldable pub remove : ℕ → List ℕ → List ℕ
remove b [] = []
remove b (x ∷ xs) = if x == b then xs else x ∷ remove b xs

unfoldable pub remove_all : List ℕ → List ℕ → List ℕ
unfolding remove
remove_all [] xs = xs
remove_all (b ∷ bs) xs = remove_all bs (remove b xs)

-- The block goes to the end of its free list; an arena with no block in use is given back.
unfoldable pub free_small : Heap → PoolFlag → ℕ → PoolFlag × ℕ → Outcome Heap
unfolding remove_all block2arena blocks_from
free_small h pf b (owner, idx) =
    let a = block2arena b in
    let d = desc_at (descs_of h owner) idx in
    let grown = d.free_list ++ b ∷ [] in
    let cnt = u32 ((h.arenas a).cnt + 1) in
    let counted = record h { arenas = update h.arenas a (record (h.arenas a) { cnt = cnt }) } in
    if cnt == d.blocks_pre_arena
    then (do
      m ← mfree_page h.memory pf a 1
      ok (
          with_descs (record counted { memory = m }) owner
            (set_desc (descs_of h owner) idx (record d {
              free_list = remove_all (blocks_from a d.block_size 0 d.blocks_pre_arena) grown;
            }))))
    else ok (
        with_descs counted owner (set_desc (descs_of h owner) idx (record d { free_list = grown })))

-- With no descriptor and `large` false the source reads through a null pointer.
unfoldable pub free_block : Heap → PoolFlag → ℕ → Option (PoolFlag × ℕ) → Outcome Heap
unfolding free_small
free_block h pf ptr none =
    if (h.arenas (block2arena ptr)).large
    then (do
      m ← mfree_page h.memory pf ptr (h.arenas (block2arena ptr)).cnt
      ok (record h { memory = m }))
    else panic
free_block h pf ptr (some d) = free_small h pf ptr d

unfoldable pub sys_free : Heap → ℕ → Outcome Heap
unfolding free_block block2arena
sys_free h ptr =
    assert (not (ptr == 0))
    >> (let pf = own_pool h.memory in
        acquire h.memory pf >>= λ m.
        free_block (record h { memory = m }) pf ptr (h.arenas (block2arena ptr)).desc >>= λ h'.
        release h'.memory pf >>= λ m'. ok (record h' { memory = m' }))
