-- ===== src/Memory/Heap/Malloc.antt =====
-- `sys_malloc` and `sys_free` of small blocks: what they return and what they change.
use winux_os.Base.{
  ℕ, zero, suc, ◌+◌, ◌-◌, ◌^◌, ◌<◌, ◌≤◌, ◌≡◌, refl, ◌≢◌, ◌⊎◌, length, ◌∙◌, ap, false, none, some,
  List, [], ◌∷◌, ◌++◌, update, ok, arith,
}
use winux_os.Thread.Sync.{lock_init, lock_acquire, lock_release}
use winux_os.Memory.{kernel, pool_of, zero_bytes, acquire, release}
use winux_os.Memory.Alloc.{own_pool}
use winux_os.Memory.Heap.{
  Desc, Heap, find_desc, desc_at, set_desc, sys_malloc, sys_free, block2arena,
}

-- The size is positive and below the pool's, and the pool's lock is free.
pub record IsServed (h : Heap) (size : ℕ) : Type 0 where
  pub positive : 0 < size
  pub below : size < (pool_of h.memory (own_pool h.memory)).pool_size
  pub unlocked : (pool_of h.memory (own_pool h.memory)).lock ≡ lock_init

-- A request outside the pool's size returns NULL and changes nothing.
pub sys_malloc_refused :
    (h : Heap) (size : ℕ)
    → (size ≡ 0) ⊎ ((pool_of h.memory (own_pool h.memory)).pool_size ≤ size)
    → sys_malloc h size ≡ ok (none, h)
unfolding sys_malloc
sys_malloc_refused h size outside = ground arith

-- In a kernel thread, for a request of at most 1024 bytes that is below the pool's size while the
-- pool's lock is free, and whose class has a free block in an arena that counts it, `sys_malloc`
-- returns the first free block, zeroes it, takes it off the free list, counts it off in its arena
-- and changes nothing else.
pub sys_malloc-first :
    (h : Heap) (size b : ℕ) (rest : List ℕ)
    → h.memory.is_process ≡ false
    → IsServed h size
    → size ≤ 1024
    → let d = desc_at h.k_block_descs (find_desc h.k_block_descs size) in
      d.free_list ≡ b ∷ rest
      → 0 < (h.arenas (block2arena b)).cnt
      → (h.arenas (block2arena b)).cnt < 2 ^ 32
      → sys_malloc h size
        ≡ ok (
          some b,
          (let i = find_desc h.k_block_descs size in
              let a = block2arena b in
              record h {
                memory = zero_bytes h.memory (some b) (desc_at h.k_block_descs i).block_size;
                k_block_descs =
                    set_desc h.k_block_descs i
                      (record (desc_at h.k_block_descs i) { free_list = rest });
                arenas = update h.arenas a (record (h.arenas a) { cnt = (h.arenas a).cnt - 1 });
              }),
        )
unfolding sys_malloc acquire release lock_acquire lock_release
sys_malloc-first h size b rest thread served small list pos fit =
    ground (arith, served.positive, served.below, served.unlocked)

in_range :
    (ds : List Desc) (i : ℕ) {b : ℕ} {rest : List ℕ}
    → (desc_at ds i).free_list ≡ b ∷ rest
    → i < length ds
in_range [] i h = cc
in_range (d ∷ ds) zero h = omega arith
in_range (d ∷ ds) (suc i) h = omega (arith, in_range ds i h)

pub length-set_desc : (ds : List Desc) (i : ℕ) (e : Desc) → length (set_desc ds i e) ≡ length ds
length-set_desc [] i e = refl
length-set_desc (d ∷ ds) zero e = refl
length-set_desc (d ∷ ds) (suc i) e = ap suc (length-set_desc ds i e)

pub desc_at-set_desc :
    (ds : List Desc) (i : ℕ) (e : Desc) → i < length ds → desc_at (set_desc ds i e) i ≡ e
desc_at-set_desc [] i e h = absurd (omega arith)
desc_at-set_desc (d ∷ ds) zero e h = refl
desc_at-set_desc (d ∷ ds) (suc i) e h = desc_at-set_desc ds i e (omega arith)

-- `sys_free` of a small block in a kernel thread puts it at the end of its class's free list and
-- counts it in its arena, as long as another block of the arena is in use.
pub sys_free-last :
    (h : Heap) (b i : ℕ)
    → h.memory.is_process ≡ false
    → h.memory.kernel_pool.lock ≡ lock_init
    → b ≢ 0
    → (h.arenas (block2arena b)).desc ≡ some (kernel, i)
    → (h.arenas (block2arena b)).cnt + 1 < 2 ^ 32
    → (h.arenas (block2arena b)).cnt + 1 ≢ (desc_at h.k_block_descs i).blocks_pre_arena
    → sys_free h b
      ≡ ok (
          let a = block2arena b in
          let d = desc_at h.k_block_descs i in
          record h {
            k_block_descs =
                set_desc h.k_block_descs i (record d { free_list = d.free_list ++ b ∷ [] });
            arenas = update h.arenas a (record (h.arenas a) { cnt = (h.arenas a).cnt + 1 });
          })
unfolding sys_free acquire release lock_acquire lock_release
sys_free-last h b i thread unlocked ne known fit used = ground arith

abbrev pub class_of : Heap → ℕ → ℕ
class_of h size = find_desc h.k_block_descs size

-- In a kernel thread, for a request of at most 1024 bytes that is below the pool's size while the
-- pool's lock is free, and whose class has a free block `b` in an arena of that class in which
-- some but not all blocks are free, `sys_malloc` returns `b` and `sys_free` of it takes it back:
-- the class has the same free blocks, `b` at the end, and every arena the same count.
pub free-malloc :
    (h : Heap) (size b x : ℕ) (rest : List ℕ)
    → h.memory.is_process ≡ false
    → IsServed h size
    → size ≤ 1024
    → (desc_at h.k_block_descs (class_of h size)).free_list ≡ b ∷ rest
    → b ≢ 0
    → (h.arenas (block2arena b)).desc ≡ some (kernel, class_of h size)
    → 0 < (h.arenas (block2arena b)).cnt
    → (h.arenas (block2arena b)).cnt < 2 ^ 32
    → (h.arenas (block2arena b)).cnt ≢ (desc_at h.k_block_descs (class_of h size)).blocks_pre_arena
    → (h₁ : Heap) × (h₂ : Heap) × (sys_malloc h size ≡ ok (some b, h₁))
      × (sys_free h₁ b ≡ ok h₂)
      × ((desc_at h₂.k_block_descs (class_of h size)).free_list ≡ rest ++ b ∷ [])
      × ((h₂.arenas x).cnt ≡ (h.arenas x).cnt)
free-malloc h size b x rest thread served small list ne known pos fit used =
    let i = class_of h size in
    let d = desc_at h.k_block_descs i in
    let a = block2arena b in
    let h₁ : Heap = record h {
      memory = zero_bytes h.memory (some b) d.block_size;
      k_block_descs = set_desc h.k_block_descs i (record d { free_list = rest });
      arenas = update h.arenas a (record (h.arenas a) { cnt = (h.arenas a).cnt - 1 });
    } in
    let e : desc_at h₁.k_block_descs i ≡ record d { free_list = rest } =
      desc_at-set_desc h.k_block_descs i (record d { free_list = rest })
        (in_range h.k_block_descs i list) in
    (
      h₁,
      _,
      sys_malloc-first h size b rest thread served small list pos fit,
      sys_free-last h₁ b i thread (ground (arith, served.unlocked)) ne (ground arith) (ground arith)
          (ground (arith, ap (λ (t : Desc). t.blocks_pre_arena) e)),
      ap (λ (t : Desc). t.free_list)
            (desc_at-set_desc h₁.k_block_descs i _
              (rw length-set_desc (in_range h.k_block_descs i list)))
          ∙ ap (λ (t : Desc). t.free_list ++ b ∷ []) e,
      ground arith,
    )
