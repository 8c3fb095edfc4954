-- ===== src/Memory/Keeps.antt =====
-- What `malloc_page` leaves alone: the lock and the size of the kernel's pool, the threads, and the
-- words below the page tables.
use winux_os.Base.{
  ℕ, zero, suc, ◌+◌, ◌<◌, ◌≡◌, Bool, true, false, inl, inr, Bool-cases, Option, none, some, Outcome,
  ok, ◌>>=◌, >>=-eq-ok, ok-injective, refl, ap, sym, ◌∙◌, ◌*◌, subst, arith, ◌==◌, u32,
  if◌then◌else◌,
}
use winux_os.Thread.Sync.{lock_acquire, lock_release}
use winux_os.Memory.{
  Memory, Pool, kernel, vadder_get, palloc, page_table_add, back_page, back_pages, malloc_page,
  page_size, get_page, acquire, release, zero_bytes,
}

pub record Keeps (m m' : Memory) : Type 0 where
  pub thread : m'.is_process ≡ m.is_process
  pub lock : m'.kernel_pool.lock ≡ m.kernel_pool.lock
  pub size : m'.kernel_pool.pool_size ≡ m.kernel_pool.pool_size
  pub threads : m'.threads ≡ m.threads
  pub low : (a : ℕ) → a < 0xffc00000 → m'.words a ≡ m.words a

Keeps-trans : (l m n : Memory) → Keeps l m → Keeps m n → Keeps l n
Keeps-trans l m n h k = ground arith

vadder_get-Keeps :
    (m m' : Memory) (cnt : ℕ) (found : Option ℕ)
    → vadder_get m kernel cnt ≡ ok (found, m')
    → Keeps m m'
unfolding vadder_get
vadder_get-Keeps m m' cnt found h = ground arith

palloc-Keeps :
    (p p' : Pool) (page : Option ℕ)
    → palloc p ≡ ok (page, p')
    → (p'.lock ≡ p.lock) × (p'.pool_size ≡ p.pool_size)
unfolding palloc
palloc-Keeps p p' page h = ground arith

page_table_add-Keeps :
    (m m' : Memory) (vaddr paddr : ℕ) → page_table_add m vaddr paddr ≡ ok m' → Keeps m m'
unfolding page_table_add
page_table_add-Keeps m m' vaddr paddr h = ground arith

back_page-Keeps :
    (m m' : Memory) (vaddr : ℕ) (done : Bool)
    → back_page m kernel vaddr ≡ ok (done, m')
    → Keeps m m'
unfolding back_page
back_page-Keeps m m' vaddr done h =
    let (r, e, rest) = >>=-eq-ok (palloc m.kernel_pool) _ h in
    backed r.0 r.1 (palloc-Keeps m.kernel_pool r.1 r.0 e) rest
  where
    backed :
        (page : Option ℕ) (p : Pool)
        → (p.lock ≡ m.kernel_pool.lock) × (p.pool_size ≡ m.kernel_pool.pool_size)
        → ◌≡◌ {A = Outcome (Bool × Memory)}
            (elim page [
              | none ↦ ok (false, record m { kernel_pool = p })
              | some paddr ↦
                  page_table_add (record m { kernel_pool = p }) vaddr paddr >>= λ s'. ok (true, s')
            ])
            (ok (done, m'))
        → Keeps m m'
    backed none p k rest = ground arith
    backed (some paddr) p k rest =
        let (n, e, last) =
          >>=-eq-ok (page_table_add (record m { kernel_pool = p }) vaddr paddr) _ rest in
        let m₁ = record m { kernel_pool = p } in
        let same : n ≡ m' = ap (λ q. q.1) (ok-injective _ _ last) in
        let pool : Keeps m m₁ = record {
          thread = refl;
          lock = k.0;
          size = k.1;
          threads = refl;
          low = λ a l. refl;
        } in
        subst (Keeps m) same (Keeps-trans m m₁ n pool (page_table_add-Keeps m₁ n vaddr paddr e))

back_pages-Keeps :
    (m m' : Memory) (vaddr cnt : ℕ) (done : Bool)
    → back_pages m kernel vaddr cnt ≡ ok (done, m')
    → Keeps m m'
unfolding back_pages
back_pages-Keeps m m' vaddr zero done h = ground arith
back_pages-Keeps m m' vaddr (suc cnt) done h =
    let (r, e, rest) = >>=-eq-ok (back_page m kernel vaddr) _ h in
    further r.0 r.1 (back_page-Keeps m r.1 vaddr r.0 e) (back_pages-Keeps r.1 m' _ cnt done) rest
  where
    further :
        (b : Bool) (n : Memory)
        → Keeps m n
        → (back_pages n kernel (u32 (vaddr + page_size)) cnt ≡ ok (done, m') → Keeps n m')
        → ◌≡◌ {A = Outcome (Bool × Memory)}
            (elim b [
              | true ↦ back_pages n kernel (u32 (vaddr + page_size)) cnt
              | false ↦ ok (false, n)
            ])
            (ok (done, m'))
        → Keeps m m'
    further true n k more rest = Keeps-trans m n m' k (more rest)
    further false n k more rest = ground arith

pub malloc_page-Keeps :
    (m m' : Memory) (cnt : ℕ) (found : Option ℕ)
    → malloc_page m kernel cnt ≡ ok (found, m')
    → Keeps m m'
unfolding malloc_page
malloc_page-Keeps m m' cnt found h = elim (Bool-cases (cnt == 0)) [
  | inl zero_pages ↦ absurd (ground (arith, h))
  | inr pages ↦
      let h₁ = rw pages at h in
      let (r, e, rest) = >>=-eq-ok (vadder_get m kernel cnt) _ h₁ in
      mapped r.0 r.1 (vadder_get-Keeps m r.1 cnt r.0 e) rest
]
  where
    mapped :
        (found_at : Option ℕ) (n : Memory)
        → Keeps m n
        → ◌≡◌ {A = Outcome (Option ℕ × Memory)}
            (elim found_at [
              | none ↦ ok (none, n)
              | some vaddr ↦ back_pages n kernel vaddr cnt >>= λ (done, s₂).
                  ok (if done then some vaddr else none, s₂)
            ])
            (ok (found, m'))
        → Keeps m m'
    mapped none n k rest = ground arith
    mapped (some vaddr) n k rest =
        let (r, e, last) = >>=-eq-ok (back_pages n kernel vaddr cnt) _ rest in
        let kept = back_pages-Keeps n r.1 vaddr cnt r.0 e in
        let same : r.1 ≡ m' = ap (λ q. q.1) (ok-injective _ _ last) in
        subst (Keeps m) same (Keeps-trans m n r.1 k kept)

acquire_words : (m m' : Memory) → acquire m kernel ≡ ok m' → m'.words ≡ m.words
unfolding acquire
acquire_words m m' h =
    let (l, e, last) = >>=-eq-ok (lock_acquire m.threads m.kernel_pool.lock) _ h in
    ap (λ (t : Memory). t.words) (sym (ok-injective _ _ last))

release_words : (m m' : Memory) → release m kernel ≡ ok m' → m'.words ≡ m.words
unfolding release
release_words m m' h =
    let (r, e, last) = >>=-eq-ok (lock_release m.threads m.kernel_pool.lock) _ h in
    ap (λ (t : Memory). t.words) (sym (ok-injective _ _ last))

zeroed_words :
    (m : Memory) (found : Option ℕ) (size : ℕ) → (zero_bytes m found size).words ≡ m.words
zeroed_words m none size = refl
zeroed_words m (some vaddr) size = refl

pub get_page-low :
    (m m' : Memory) (cnt : ℕ) (found : Option ℕ) (a : ℕ)
    → get_page m kernel cnt ≡ ok (found, m')
    → a < 0xffc00000
    → m'.words a ≡ m.words a
unfolding get_page
get_page-low m m' cnt found a h low =
    let (m₁, e₁, h₁) = >>=-eq-ok (acquire m kernel) _ h in
    let (r, e₂, h₂) = >>=-eq-ok (malloc_page m₁ kernel cnt) _ h₁ in
    let zeroed = zero_bytes r.1 r.0 (cnt * page_size) in
    let (m₃, e₃, last) = >>=-eq-ok (release zeroed kernel) _ h₂ in
    let same : m₃ ≡ m' = ap (λ q. q.1) (ok-injective _ _ last) in
    ap (λ (t : Memory). t.words a) (sym same)
    ∙ ap (λ w. w a) (release_words zeroed m₃ e₃)
    ∙ ap (λ w. w a) (zeroed_words r.1 r.0 (cnt * page_size))
    ∙ (malloc_page-Keeps m₁ r.1 cnt r.0 e₂).low a low
    ∙ ap (λ w. w a) (acquire_words m m₁ e₁)
