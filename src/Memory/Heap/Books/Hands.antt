-- ===== src/Memory/Heap/Books/Hands.antt =====
-- One block is handed out or taken back: the heap goes on showing the books.
use winux_os.Base.{
  ℕ, ◌+◌, ◌-◌, ◌<◌, ◌≤◌, ◌≡◌, ◌≢◌, ◌∙◌, sym, ap, false, List, [], ◌∷◌, ◌++◌, some, arith, ok,
}
use winux_os.Memory.{kernel}
use winux_os.Memory.Heap.{Desc, Heap, Arena, find_desc, desc_cnt, block2arena, sys_malloc, sys_free}
use winux_os.Memory.Heap.Malloc.{IsServed, sys_malloc-first, sys_free-last, length-set_desc}
use winux_os.Memory.Heap.Books.{occurrences, Books, blocks_of, IsPlaced, IsBalanced, take, give}
use winux_os.Memory.Heap.Books.Moves.{take-IsBalanced, free-not_live}
use winux_os.Memory.Heap.Books.Refine.{
  Shows, class_lt, blocks_few, cnt-le, class-set_desc, header-set_cnt, block-ne-zero,
}

module _ (h : Heap) (s : Books) (shows : Shows h s) (bal : IsBalanced s) where
  -- A request of at most 1024 bytes that is below the pool's size, and whose class has a free
  -- block, gets the first one, which nobody held; the heap shows the books with that block handed
  -- out, and they are balanced.
  pub sys_malloc-take :
      (size b : ℕ) (rest : List ℕ)
      → 0 < size
      → size < h.memory.kernel_pool.pool_size
      → size ≤ 1024
      → s.free (find_desc h.k_block_descs size) ≡ b ∷ rest
      → let s' = take s (find_desc h.k_block_descs size) b rest in
        (h' : Heap) × (sys_malloc h size ≡ ok (some b, h'))
        × Shows h' s'
        × IsBalanced s'
        × (occurrences b s.live ≡ 0)
  unfolding take
  sys_malloc-take size b rest pos below small first =
      let i = find_desc h.k_block_descs size in
      let lt = class_lt h s size shows small in
      let a = block2arena b in
      let held : 0 < occurrences b (s.free i) = ground (arith, first) in
      let p = bal.free_placed i b held in
      let head = shows.header a i p.owned in
      let counted = (bal.arenas a i p.owned).counted in
      let some_free : 0 < s.cnt a = ground (arith, counted, first) in
      let few = cnt-le s a i bal p.owned in
      let cnt = ap (λ (t : Arena). t.cnt) head in
      let served : IsServed h size = record {
        positive = pos;
        below = rw shows.thread below;
        unlocked = rw shows.thread shows.unlocked;
      } in
      (
        _,
        sys_malloc-first h size b rest shows.thread served small
            (ap (λ (d : Desc). d.free_list) (shows.class i lt) ∙ first) (omega arith)
            (omega (arith, blocks_few i lt)),
        record {
          thread = shows.thread;
          unlocked = shows.unlocked;
          classes = length-set_desc h.k_block_descs i _ ∙ shows.classes;
          class = class-set_desc h s i (λ _. rest) shows lt;
          header = header-set_cnt h s a _ _ shows (ap (λ t. t - 1) cnt);
        },
        take-IsBalanced s bal i b rest first,
        (free-not_live s bal i b held).1,
      )

  module _ (i b : ℕ) (placed : IsPlaced s.owner i b) (held : 0 < occurrences b s.live) where
    abbrev home : ℕ
    home = block2arena b

    head : h.arenas home ≡ record { desc = some (kernel, i); cnt = s.cnt home; large = false }
    head = shows.header home i placed.owned

    lt : i < desc_cnt
    lt = (bal.arenas home i placed.owned).classed

    -- A block that is held is taken back: while another block of its arena is in use, the heap
    -- shows the books with the block free again.
    pub sys_free-give :
        s.cnt home + 1 ≢ blocks_of i → (h' : Heap) × (sys_free h b ≡ ok h') × Shows h' (give s i b)
    unfolding give
    sys_free-give used =
        let few = cnt-le s home i bal placed.owned in
        let cnt = ap (λ (t : Arena). t.cnt) head in
        (
          _,
          sys_free-last h b i shows.thread shows.unlocked (block-ne-zero s.owner i b placed)
              (ap (λ (t : Arena). t.desc) head) (omega (arith, blocks_few i lt))
              (λ e. used (
                sym (ap (λ t. t + 1) cnt)
                ∙ e
                ∙ ap (λ (d : Desc). d.blocks_pre_arena) (shows.class i lt))),
          record {
            thread = shows.thread;
            unlocked = shows.unlocked;
            classes = length-set_desc h.k_block_descs i _ ∙ shows.classes;
            class = class-set_desc h s i (λ xs. xs ++ b ∷ []) shows lt;
            header = header-set_cnt h s home _ _ shows (ap (λ t. t + 1) cnt);
          },
        )
