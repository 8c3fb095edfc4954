-- ===== src/Memory/Paging.antt =====
-- The page tables: which word maps an address, and what `page_table_add` changes.
use winux_os.Base.{ℕ, ◌+◌, ◌/◌, ◌%◌, ◌^◌, ◌<◌, ◌≤◌, ◌≡◌, ◌≢◌, ◌==◌, update, ok, arith}
use winux_os.Memory.{
  page_size, Memory, get_pde_ptr, get_pte_ptr, or_flags, page_table_add, addr_v2p,
}

-- For 32-bit addresses, `get_pte_ptr` gives an aligned word in the last four megabytes, and the
-- same word for two addresses exactly when they lie in one page.
pub pte_ptr_lem :
    (v w : ℕ)
    → v < 2 ^ 32
    → w < 2 ^ 32
    → (0xffc00000 ≤ get_pte_ptr v)
      × (get_pte_ptr v + 4 ≤ 2 ^ 32)
      × (get_pte_ptr v % 4 ≡ 0)
      × ((get_pte_ptr v == get_pte_ptr w) ≡ (v / page_size == w / page_size))
unfolding get_pte_ptr
pte_ptr_lem v w hv hw = ground arith

-- The word of the page directory for an address is the word that maps the page table's own page.
pub pde_ptr_lem : (v : ℕ) → v < 2 ^ 32 → get_pde_ptr v ≡ get_pte_ptr (get_pte_ptr v)
unfolding get_pde_ptr get_pte_ptr
pde_ptr_lem v h = omega arith

-- The page table exists and the page is not mapped.
pub record IsOpen (s : Memory) (v : ℕ) : Type 0 where
  pub table : s.words (get_pde_ptr v) % 2 ≡ 1
  pub unmapped : s.words (get_pte_ptr v) % 2 ≡ 0

-- For an unmapped virtual address whose page table exists, `page_table_add` maps its whole page to
-- the given physical page: `addr_v2p` of an address in the page gives the physical one with the
-- same offset, and of an address in any other page what it gave before.
pub addr_v2p-page_table_add :
    (s : Memory) (v p w x : ℕ)
    → IsOpen s v
    → v < 2 ^ 32
    → w < 2 ^ 32
    → x < 2 ^ 32
    → p % page_size ≡ 0
    → w / page_size ≡ v / page_size
    → x / page_size ≢ v / page_size
    → (s' : Memory) × (page_table_add s v p ≡ ok s')
      × (addr_v2p s' w ≡ p + w % page_size)
      × (addr_v2p s' x ≡ addr_v2p s x)
unfolding page_table_add addr_v2p
addr_v2p-page_table_add s v p w x is_open hv hw hx aligned same other = (
  record s { words = update s.words (get_pte_ptr v) (or_flags p) },
  ground (arith, is_open.table, is_open.unmapped),
  ground (arith, (pte_ptr_lem v w hv hw).3),
  ground (arith, (pte_ptr_lem v x hv hx).3),
)
