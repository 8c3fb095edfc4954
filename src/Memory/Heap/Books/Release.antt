-- ===== src/Memory/Heap/Books/Release.antt =====
-- `sys_free` of the last block in use of an arena: its page is given back.
use winux_os.Base.{
  ℕ, ◌+◌, ◌<◌, ◌≡◌, ◌∙◌, refl, sym, ap, false, inl, inr, Bool-cases, List, [], ◌∷◌, ◌++◌, none,
  some, ◌==◌, if◌then◌else◌, update, arith, ok, u32,
}
use winux_os.Thread.{Threads}
use winux_os.Thread.Sync.{lock_init, taken_by}
use winux_os.Memory.{kernel, Memory, release}
use winux_os.Memory.Alloc.{mfree_page}
use winux_os.Memory.Heap.{
  Desc, Heap, Arena, desc_at, set_desc, desc_cnt, block2arena, blocks_from, remove, remove_all,
  sys_free, free_small, free_block,
}
use winux_os.Memory.Heap.Malloc.{length-set_desc}
use winux_os.Memory.Heap.Books.{
  occurrences, Books, size_of, blocks_of, IsPlaced, IsBalanced, give, close_arena,
}
use winux_os.Memory.Heap.Books.Places.{occurrences-remove}
use winux_os.Memory.Heap.Books.Moves.{give-IsBalanced, live-not_free}
use winux_os.Memory.Heap.Books.Closing.{close_arena-IsBalanced}
use winux_os.Memory.Heap.Books.Refine.{Shows, class-set_desc, block-ne-zero, blocks_few}
use winux_os.Memory.Heap.Books.Hands.{sys_free-give}
use winux_os.Memory.Heap.Books.Locked.{mfree_page-kernel, locked, acquire_lem, release_lem}

module _ (h : Heap) (s : Books) (shows : Shows h s) (bal : IsBalanced s) (i b : ℕ)
    (placed : IsPlaced s.owner i b) (last : s.cnt (block2arena b) + 1 ≡ blocks_of i) where
  abbrev home : ℕ
  home = block2arena b

  head : h.arenas home ≡ record { desc = some (kernel, i); cnt = s.cnt home; large = false }
  head = shows.header home i placed.owned

  lt : i < desc_cnt
  lt = (bal.arenas home i placed.owned).classed

  freed :
      (m : Memory) × (mfree_page (locked h.memory) kernel home 1 ≡ ok m)
      × (m.is_process ≡ false)
      × (m.kernel_pool.lock ≡ taken_by h.memory.threads.current)
      × (m.threads ≡ h.memory.threads)
  freed = mfree_page-kernel (locked h.memory) home shows.thread

  abbrev blocks : List ℕ
  blocks =
      blocks_from home (desc_at h.k_block_descs i).block_size 0
        (desc_at h.k_block_descs i).blocks_pre_arena

  abbrev emptied : Memory → Heap
  emptied m = record h {
    memory = m;
    k_block_descs = set_desc h.k_block_descs i (record (desc_at h.k_block_descs i) {
      free_list = remove_all blocks ((desc_at h.k_block_descs i).free_list ++ b ∷ []);
    });
    arenas = update h.arenas home (record (h.arenas home) { cnt = u32 ((h.arenas home).cnt + 1) });
  }

  free_small_last :
      free_small (record h { memory = locked h.memory }) kernel b (kernel, i) ≡ ok (emptied freed.0)
  unfolding free_small
  free_small_last =
      let cnt = ap (λ (t : Arena). t.cnt) head in
      let few = blocks_few i lt in
      let all : u32 ((h.arenas home).cnt + 1) ≡ (desc_at h.k_block_descs i).blocks_pre_arena =
        omega (arith, ap (λ (d : Desc). d.blocks_pre_arena) (shows.class i lt)) in
      ground (arith, freed.1)

  abbrev final : Memory
  final = record freed.0 { kernel_pool = record freed.0.kernel_pool { lock = lock_init } }

  free_block_last :
      free_block (record h { memory = locked h.memory }) kernel b (h.arenas home).desc
      ≡ ok (emptied freed.0)
  unfolding free_block
  free_block_last =
      ap (λ t. free_block (record h { memory = locked h.memory }) kernel b t)
        (ap (λ (t : Arena). t.desc) head)
      ∙ free_small_last

  unlocked : release freed.0 kernel ≡ ok final
  unlocked = release_lem freed.0 (freed.3 ∙ ap (λ (t : Threads). taken_by t.current) (sym freed.4))

  released : sys_free h b ≡ ok (emptied final)
  unfolding sys_free
  released = ground (
    arith,
    shows.thread,
    block-ne-zero s.owner i b placed,
    acquire_lem h.memory shows.unlocked,
    free_block_last,
    unlocked,
  )

  no_blocks :
      (j : ℕ)
      → ◌≡◌ {A = Desc}
          (record {
            block_size = size_of j;
            blocks_pre_arena = blocks_of j;
            free_list = if i == j then remove_all blocks (s.free j ++ b ∷ []) else s.free j;
          })
          (record {
            block_size = size_of j;
            blocks_pre_arena = blocks_of j;
            free_list = (close_arena (give s i b) i home).free j;
          })
  unfolding close_arena give
  no_blocks j = elim (Bool-cases (i == j)) [
    | inl same ↦ rw same (
        ap
          (λ (d : Desc). record {
            block_size = size_of j;
            blocks_pre_arena = blocks_of j;
            free_list =
                remove_all (blocks_from home d.block_size 0 d.blocks_pre_arena)
                  (s.free j ++ b ∷ []);
          })
          (shows.class i lt))
    | inr differ ↦ rw differ refl
  ]

  other_header :
      (c j : ℕ)
      → update s.owner home none c ≡ some j
      → update h.arenas home (record (h.arenas home) { cnt = u32 ((h.arenas home).cnt + 1) }) c
        ≡ record {
          desc = some (kernel, j);
          cnt = update s.cnt home (s.cnt home + 1) c;
          large = false;
        }
  other_header c j own = elim (Bool-cases (home == c)) [
    | inl here ↦ let clash : none ≡ some j = rw here at own in absurd (ground (arith, clash))
    | inr there ↦ rw there (shows.header c j (rw there at own))
  ]

  -- When the other blocks of its arena are free already, the arena's page is given back and all of
  -- its blocks leave the free list: the heap shows the books with the block free and the arena
  -- closed.
  pub sys_free-close :
      (h' : Heap) × (sys_free h b ≡ ok h') × Shows h' (close_arena (give s i b) i home)
  unfolding close_arena give
  sys_free-close = (
    emptied final,
    released,
    record {
      thread = freed.2;
      unlocked = refl;
      classes = length-set_desc h.k_block_descs i _ ∙ shows.classes;
      class = λ j p.
          class-set_desc h s i (λ xs. remove_all blocks (xs ++ b ∷ [])) shows lt j p ∙ no_blocks j;
      header = λ c j own. other_header c j own;
    },
  )

-- A block that a caller holds is taken back in every case: in a kernel thread whose pool nobody
-- has locked, on a heap that shows balanced books, `sys_free` returns, and the heap shows balanced
-- books in which the others hold what they held and nobody holds this block.
pub sys_free-IsBalanced :
    (h : Heap) (s : Books) (b : ℕ)
    → Shows h s
    → IsBalanced s
    → 0 < occurrences b s.live
    → (h' : Heap) × (s' : Books) × (sys_free h b ≡ ok h')
      × Shows h' s'
      × IsBalanced s'
      × (s'.live ≡ remove b s.live)
      × (occurrences b s'.live ≡ 0)
unfolding give close_arena
sys_free-IsBalanced h s b shows bal held =
    let (i, p) = bal.live_placed b held in
    let a = block2arena b in
    let bal' = give-IsBalanced s bal i b p held in
    let once = live-not_free s bal i b p held in
    let gone : occurrences b (remove b s.live) ≡ 0 =
      ground (arith, occurrences-remove b b s.live, once) in
    elim (Bool-cases (s.cnt a + 1 == blocks_of i)) [
      | inl last ↦
          let e : s.cnt a + 1 ≡ blocks_of i = ground arith in
          let (h', run, shows') = sys_free-close h s shows bal i b p e in
          let arena = bal.arenas a i p.owned in
          (
            h',
            close_arena (give s i b) i a,
            run,
            shows',
            close_arena-IsBalanced (give s i b) bal' a i arena.classed arena.aligned p.owned
                (ground (arith, e)),
            refl,
            gone,
          )
      | inr used ↦
          let (h', run, shows') = sys_free-give h s shows bal i b p held (ground (arith, used)) in
          (h', give s i b, run, shows', bal', refl, gone)
    ]
