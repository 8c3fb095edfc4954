-- ===== src/Memory/Heap/Blocks.antt =====
-- The block classes, and where the blocks of an arena lie.
use winux_os.Base.{ℕ, zero, suc, ◌+◌, ◌-◌, ◌*◌, ◌<◌, ◌≤◌, ◌≡◌, ◌⊎◌, arith}
use winux_os.Memory.{page_size}
use winux_os.Memory.Heap.{
  Desc, header_size, desc_cnt, block_desc_init, find_desc, desc_at, arena2block, block2arena,
}

-- The blocks of a class fit the page behind the header, and one more would not.
pub record IsClass (d : Desc) : Type 0 where
  pub not_empty : 0 < d.block_size
  pub fits : header_size + d.blocks_pre_arena * d.block_size ≤ page_size
  pub full : page_size < header_size + (d.blocks_pre_arena + 1) * d.block_size

-- The class that `sys_malloc` chooses for at most 1024 bytes is one of the seven, holds the
-- request, and is the smallest that does.
pub find_desc-least :
    (size : ℕ)
    → size ≤ 1024
    → let i = find_desc block_desc_init size in
      (i < desc_cnt)
      × (size ≤ (desc_at block_desc_init i).block_size)
      × ((i ≡ 0) ⊎ ((desc_at block_desc_init (i - 1)).block_size < size))
unfolding block_desc_init find_desc
find_desc-least size h = ground arith

pub block_desc_init-IsClass : (i : ℕ) → i < desc_cnt → IsClass (desc_at block_desc_init i)
unfolding block_desc_init
block_desc_init-IsClass zero h = omega arith
block_desc_init-IsClass (suc zero) h = omega arith
block_desc_init-IsClass (suc (suc zero)) h = omega arith
block_desc_init-IsClass (suc (suc (suc zero))) h = omega arith
block_desc_init-IsClass (suc (suc (suc (suc zero)))) h = omega arith
block_desc_init-IsClass (suc (suc (suc (suc (suc zero))))) h = omega arith
block_desc_init-IsClass (suc (suc (suc (suc (suc (suc zero)))))) h = omega arith
block_desc_init-IsClass (suc (suc (suc (suc (suc (suc (suc i))))))) h = absurd (omega arith)

pub mul_step : (i j s : ℕ) → i < j → i * s + s ≤ j * s
mul_step i j s h = grind arith

-- In an arena that starts at a page, two blocks of a class whose blocks fit a page lie in the
-- page behind the header, are disjoint, and `block2arena` leads from each back to the arena.
pub arena2block_lem :
    (d : Desc) (page i j : ℕ)
    → IsClass d
    → i < j
    → j < d.blocks_pre_arena
    → let a = page * page_size in
      (a + header_size ≤ arena2block a d.block_size i)
      × (arena2block a d.block_size i + d.block_size ≤ arena2block a d.block_size j)
      × (arena2block a d.block_size j + d.block_size ≤ a + page_size)
      × (block2arena (arena2block a d.block_size i) ≡ a)
      × (block2arena (arena2block a d.block_size j) ≡ a)
unfolding arena2block block2arena
arena2block_lem d page i j c lt below =
    omega (arith, mul_step i j d.block_size lt, mul_step j d.blocks_pre_arena d.block_size below)
