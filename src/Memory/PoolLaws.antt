-- ===== src/Memory/PoolLaws.antt =====
-- The page pools: how `mem_pool_init` lays them out, and which page `palloc` hands out.
use winux_os.Base.{
  ℕ, ◌+◌, ◌*◌, ◌%◌, ◌^◌, ◌<◌, ◌≤◌, ◌≡◌, refl, ◌∙◌, subst, true, false, some, ◌==◌, ltb,
  if◌then◌else◌, Bytes, ok, arith, u32, Bool-cases, inl, inr,
}
use winux_os.Bitmap
use winux_os.Bitmap.{Bitmap, IsBytes, scan_test}
use winux_os.Bitmap.Scan.{IsFirstFree, scan-one}
use winux_os.Bitmap.Update.{after, set-after, test-after, after-IsBytes}
use winux_os.Memory.{page_size, used_mem, Pool, Pools, mem_pool_init, palloc, take_page}

-- With more memory than the kernel's own share, and less than 4 GiB, the two pools follow one
-- another in the memory after `used_mem`, and every bit of a map stands for a page of its pool; the
-- bitmaps lie side by side.
pub record IsLaidOut (total : ℕ) (p : Pools) : Type 0 where
  pub kernel_first : p.kernel_pool.phy_address_start ≡ used_mem
  pub user_next :
      p.user_pool.phy_address_start ≡ p.kernel_pool.phy_address_start + p.kernel_pool.pool_size
  pub user_end : p.user_pool.phy_address_start + p.user_pool.pool_size ≤ total
  pub rest_small : total < p.user_pool.phy_address_start + p.user_pool.pool_size + page_size
  pub kernel_bits :
      p.kernel_pool.pool_bitmap.btmp_bytes_len * 8 * page_size ≤ p.kernel_pool.pool_size
  pub user_bits : p.user_pool.pool_bitmap.btmp_bytes_len * 8 * page_size ≤ p.user_pool.pool_size
  pub user_bits_next : p.user_bits_at ≡ p.kernel_bits_at + p.kernel_pool.pool_bitmap.btmp_bytes_len
  pub vaddr_bits_next : p.vaddr_bits_at ≡ p.user_bits_at + p.user_pool.pool_bitmap.btmp_bytes_len

-- For a memory of at least the kernel's own share and less than 4 GiB, `mem_pool_init` lays the
-- two pools one after the other behind that share, with less than a page left over, every bit of a
-- bitmap stands for a page of its pool, and the three bitmaps lie side by side.
pub mem_pool_init-IsLaidOut :
    (memory : Bytes) (total : ℕ)
    → used_mem ≤ total
    → total < 2 ^ 32
    → IsLaidOut total (mem_pool_init memory total)
unfolding mem_pool_init Bitmap.init
mem_pool_init-IsLaidOut memory total low high = omega arith

first_unique :
    (m m' : Bitmap) (s s' : ℕ)
    → ((j : ℕ) → scan_test m' j ≡ scan_test m j)
    → IsFirstFree m s
    → IsFirstFree m' s'
    → s' ≡ s
first_unique m m' s s' same f f' = elim (Bool-cases (ltb s s')) [
  | inl later ↦
      absurd (let t = f'.before s (ground arith) in let u = f.free in let e = same s in cc)
  | inr not_later ↦ elim (Bool-cases (ltb s' s)) [
    | inl sooner ↦
        absurd (let t = f.before s' (ground arith) in let u = f'.free in let e = same s' in cc)
    | inr not_sooner ↦ ground arith
  ]
]

-- The pool after page `s` was marked.
abbrev marked : Pool → ℕ → Pool
marked p s = record p { pool_bitmap = after p.pool_bitmap s 1 }

abbrev page_at : Pool → ℕ → ℕ
page_at p s = u32 (s * page_size + p.phy_address_start)

module _ (p : Pool) (h : IsBytes p.pool_bitmap.bits) (f : ℕ)
    (inside : f < p.pool_bitmap.btmp_bytes_len * 8) (free : scan_test p.pool_bitmap f ≡ false) where
  palloc-marked :
      (s : ℕ) × IsFirstFree p.pool_bitmap s × (palloc p ≡ ok (some (page_at p s), marked p s))
  unfolding palloc take_page
  palloc-marked =
      let (s, e, first) = scan-one p.pool_bitmap h f inside free in
      (s, first, rw (e, set-after p.pool_bitmap s 1 (omega arith)))

-- A pool of at most 2048 pages with a free page hands out the first free one; that page is taken
-- afterwards, and no other page has changed.
pub palloc-first :
    (p : Pool) (f j : ℕ)
    → IsBytes p.pool_bitmap.bits
    → p.pool_bitmap.btmp_bytes_len ≤ 256
    → f < p.pool_bitmap.btmp_bytes_len * 8
    → scan_test p.pool_bitmap f ≡ false
    → (s : ℕ) × IsFirstFree p.pool_bitmap s
      × (p' : Pool) × (palloc p ≡ ok (some (u32 (s * page_size + p.phy_address_start)), p'))
      × (scan_test p'.pool_bitmap j ≡ (if s == j then true else scan_test p.pool_bitmap j))
palloc-first p f j h small inside free =
    let (s, first, e) = palloc-marked p h f inside free in
    let lt = first.inside in
    (s, first, marked p s, e, ground (arith, test-after p.pool_bitmap s j 1 h))

module _ (p : Pool) (s : ℕ) (h : IsBytes p.pool_bitmap.bits) (first : IsFirstFree p.pool_bitmap s)
    (far : 2048 ≤ s) where
  -- Marking a page from 2048 on marks one that is taken already.
  mark_nothing : (j : ℕ) → scan_test (after p.pool_bitmap s 1) j ≡ scan_test p.pool_bitmap j
  mark_nothing j = elim (Bool-cases (s % 2048 == j)) [
    | inl hit ↦
        let e : s % 2048 ≡ j = ground arith in
        let taken = first.before j (omega arith) in ground (arith, test-after p.pool_bitmap s j 1 h)
    | inr miss ↦ ground (arith, test-after p.pool_bitmap s j 1 h)
  ]

  -- If the first free page of a pool is page 2048 or a later one, two calls of `palloc` hand out
  -- the same page.
  pub palloc_twice :
      (a : ℕ) × (p' : Pool) × (p'' : Pool) × (palloc p ≡ ok (some a, p'))
      × (palloc p' ≡ ok (some a, p''))
  palloc_twice =
      let (s₁, first₁, e₁) = palloc-marked p h s first.inside first.free in
      let same₁ = first_unique p.pool_bitmap p.pool_bitmap s s₁ (λ j. refl) first first₁ in
      let still_free = mark_nothing s ∙ first.free in
      let (s₂, first₂, e₂) =
        palloc-marked (marked p s) (after-IsBytes p.pool_bitmap s 1 h) s first.inside still_free in
      let same₂ =
        first_unique p.pool_bitmap (after p.pool_bitmap s 1) s s₂ mark_nothing first first₂ in
      (
        page_at p s,
        marked p s,
        marked (marked p s) s,
        subst (λ t. palloc p ≡ ok (some (page_at p t), marked p t)) same₁ e₁,
        subst (λ t. palloc (marked p s) ≡ ok (some (page_at p t), marked (marked p s) t)) same₂ e₂,
      )
