-- ===== src/Memory/Alloc.antt =====
-- lib/kernel/memory.c: `get_a_page` and the release of pages, and which virtual pages an allocation
-- takes.
use winux_os.Base.{
  ℕ, zero, suc, ◌+◌, ◌*◌, ◌/◌, ◌^◌, ◌<◌, ◌≤◌, ◌≡◌, refl, Bool, true, false, ◌&&◌, Option, none,
  some, ltb, leb, if◌then◌else◌, update, u32, Outcome, ok, panic, ◌>>=◌, ◌>>◌, assert, arith,
  Bool-cases, inl, inr,
}
use winux_os.Bitmap
use winux_os.Bitmap.{Bitmap, IsBytes, scan_test}
use winux_os.Bitmap.Update.{after, set-after, test-after, after-IsBytes}
use winux_os.Memory.{
  page_size, sub32, PoolFlag, kernel, user, Memory, palloc, pool_of, with_pool, page_table_add,
  get_pte_ptr, acquire, release, set_range,
}

-- `get_a_page`: the bit of `vaddr` is set, whatever it was. When no physical page is left the
-- function returns NULL and does not give the lock back.
back_one : Memory → PoolFlag → ℕ → Outcome (Option ℕ × Memory)
back_one s pf vaddr = palloc (pool_of s pf) >>= λ (page, pool). elim page [
  | none ↦ ok (none, with_pool s pf pool)
  | some paddr ↦ (do
    s₁ ← page_table_add (with_pool s pf pool) vaddr paddr
    s₂ ← release s₁ pf
    ok (some vaddr, s₂))
]

reserve : Memory → PoolFlag → ℕ → Outcome Memory
reserve s user vaddr =
    if s.is_process
    then (do
      let idx = sub32 vaddr s.user_vaddr.vaddr_start / page_size
      assert (leb 1 idx && ltb idx (2 ^ 31))
      m ← Bitmap.set s.user_vaddr.vaddr_bitmap idx 1
      ok (record s { user_vaddr = record s.user_vaddr { vaddr_bitmap = m } }))
    else panic
reserve s kernel vaddr = if s.is_process then panic else (do
  let idx = sub32 vaddr s.kernel_vaddr.vaddr_start / page_size
  m ← Bitmap.set s.kernel_vaddr.vaddr_bitmap idx 1
  ok (record s { kernel_vaddr = record s.kernel_vaddr { vaddr_bitmap = m } }))

unfoldable pub get_a_page : Memory → PoolFlag → ℕ → Outcome (Option ℕ × Memory)
unfolding back_one reserve
get_a_page s pf vaddr = do s₁ ← acquire s pf; s₂ ← reserve s₁ pf vaddr; back_one s₂ pf vaddr

-- The pool is chosen by the running thread's page directory, not by a flag.
abbrev pub own_pool : Memory → PoolFlag
own_pool s = if s.is_process then user else kernel

unfoldable pub pfree : Memory → ℕ → Outcome Memory
pfree s pg_phy_addr =
    let pf = own_pool s in
    let pool = pool_of s pf in
    Bitmap.set pool.pool_bitmap (sub32 pg_phy_addr pool.phy_address_start / page_size) 0 >>= λ m.
    ok (with_pool s pf (record pool { pool_bitmap = m }))

-- `while (pg_cnt--)`: the bits are cleared from the last to the first.
unfoldable pub clear_range : Bitmap → ℕ → ℕ → Outcome Bitmap
clear_range m start zero = ok m
clear_range m start (suc cnt) = Bitmap.set m (cnt + start) 0 >>= λ m'. clear_range m' start cnt

unfoldable pub vaddr_remove : Memory → PoolFlag → ℕ → ℕ → Outcome Memory
unfolding clear_range
vaddr_remove s kernel vaddr pg_cnt = do
  m ←
      clear_range s.kernel_vaddr.vaddr_bitmap (sub32 vaddr s.kernel_vaddr.vaddr_start / page_size)
        pg_cnt
  ok (record s { kernel_vaddr = record s.kernel_vaddr { vaddr_bitmap = m } })
vaddr_remove s user vaddr pg_cnt = do
  m ←
      clear_range s.user_vaddr.vaddr_bitmap (sub32 vaddr s.user_vaddr.vaddr_start / page_size)
        pg_cnt
  ok (record s { user_vaddr = record s.user_vaddr { vaddr_bitmap = m } })

-- `&= 0xfffffffe`
unfoldable pub page_table_pte_remove : Memory → ℕ → Memory
page_table_pte_remove s vaddr =
    let pte = get_pte_ptr vaddr in record s { words = update s.words pte (s.words pte / 2 * 2) }

unfoldable pub free_pages : Memory → ℕ → ℕ → Outcome Memory
unfolding pfree page_table_pte_remove
free_pages s vaddr zero = ok s
free_pages s vaddr (suc cnt) =
    pfree s (s.words (get_pte_ptr vaddr) / page_size * page_size) >>= λ s'.
    free_pages (page_table_pte_remove s' vaddr) (u32 (vaddr + page_size)) cnt

unfoldable pub mfree_page : Memory → PoolFlag → ℕ → ℕ → Outcome Memory
unfolding free_pages vaddr_remove
mfree_page s pf vaddr pg_cnt = do s' ← free_pages s vaddr pg_cnt; vaddr_remove s' pf vaddr pg_cnt

abbrev pub in_run : ℕ → ℕ → ℕ → Bool
in_run start cnt j = leb start j && ltb j (start + cnt)

-- Marking a run of pages among the first 2048 sets exactly the bits of the run.
pub test-set_range :
    (m : Bitmap) (start cnt j : ℕ)
    → IsBytes m.bits
    → start + cnt ≤ 2048
    → (m' : Bitmap) × (set_range m start cnt ≡ ok m')
      × IsBytes m'.bits
      × (scan_test m' j ≡ (if in_run start cnt j then true else scan_test m j))
unfolding set_range
test-set_range m start zero j h small = (m, refl, h, ground arith)
test-set_range m start (suc cnt) j h small =
    let (m', e, h', t) =
      test-set_range (after m start 1) (start + 1) cnt j (after-IsBytes m start 1 h)
        (omega arith) in
    (m', rw (set-after m start 1 (omega arith)) e, h', ground (arith, t, test-after m start j 1 h))

-- Freeing a run of pages among the first 2048 clears exactly the bits of the run.
pub test-clear_range :
    (m : Bitmap) (start cnt j : ℕ)
    → IsBytes m.bits
    → start + cnt ≤ 2048
    → (m' : Bitmap) × (clear_range m start cnt ≡ ok m')
      × IsBytes m'.bits
      × (scan_test m' j ≡ (if in_run start cnt j then false else scan_test m j))
unfolding clear_range
test-clear_range m start zero j h small = (m, refl, h, ground arith)
test-clear_range m start (suc cnt) j h small =
    let (m', e, h', t) =
      test-clear_range (after m (cnt + start) 0) start cnt j (after-IsBytes m (cnt + start) 0 h)
        (omega arith) in
    (
      m',
      rw (set-after m (cnt + start) 0 (omega arith)) e,
      h',
      ground (arith, t, test-after m (cnt + start) j 0 h),
    )

-- On a map of bytes, marking a run that is free and lies below bit 2048 and freeing it again
-- gives every bit its old value.
pub clear_range-set_range :
    (m : Bitmap) (start cnt j : ℕ)
    → IsBytes m.bits
    → start + cnt ≤ 2048
    → ((i : ℕ) → start ≤ i → i < start + cnt → scan_test m i ≡ false)
    → (m' : Bitmap) × (m'' : Bitmap) × (set_range m start cnt ≡ ok m')
      × (clear_range m' start cnt ≡ ok m'')
      × (scan_test m'' j ≡ scan_test m j)
clear_range-set_range m start cnt j h small free =
    let (m', e, h', t) = test-set_range m start cnt j h small in
    let (m'', e', h'', t') = test-clear_range m' start cnt j h' small in
    (
      m',
      m'',
      e,
      e',
      elim (Bool-cases (in_run start cnt j)) [
        | inl inside ↦ ground (arith, t, t', free j)
        | inr outside ↦ ground (arith, t, t')
      ],
    )
