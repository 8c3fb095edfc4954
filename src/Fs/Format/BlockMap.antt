-- ===== src/Fs/Format/BlockMap.antt =====
-- The block bitmap that `partition_format` writes.
use winux_os.Base.{
  ℕ, ◌+◌, ◌*◌, ◌/◌, ◌%◌, ◌^◌, ◌<◌, ◌≤◌, ◌≡◌, refl, Bool, true, false, ◌==◌, ltb, ◌||◌, has_bit,
  has_bit-zero, all_below, all_below_sound, same, eq_of_same, arith, Bytes,
}
use winux_os.Fs.{Partition}
use winux_os.Fs.Format.{
  clear_bits, block_bitmap_bytes, used_sects, block_bitmap_bit_len, new_super_block,
}
use winux_os.Fs.Format.Layout.{new_super_block-IsDivided}

abbrev pub bit_at : Bytes → ℕ → Bool
bit_at p j = has_bit (p (j / 8)) (j % 8)

-- The last byte has its bits up to `last_bit` cleared, that one included.
abbrev edge_law : ℕ → ℕ → Bool
edge_law l k = same (has_bit (clear_bits 255 0 (l + 1)) k) (ltb l k)

edge_table : all_below 8 (λ l. all_below 8 (edge_law l)) ≡ true
unfolding all_below has_bit clear_bits
edge_table = refl

edge : (l k : ℕ) → l < 8 → k < 8 → has_bit (clear_bits 255 0 (l + 1)) k ≡ ltb l k
edge l k hl hk =
    eq_of_same _ _ (all_below_sound 8 (edge_law l) k (all_below_sound 8 _ l edge_table hl) hk)

full : (k : ℕ) → k < 8 → has_bit 255 k ≡ true
full k h = all_below_sound 8 (has_bit 255) k (unfold all_below has_bit in refl) h

root : (k : ℕ) → k < 8 → has_bit 1 k ≡ (k == 0)
root k h =
    eq_of_same _ _
      (all_below_sound 8 (λ k. same (has_bit 1 k) (k == 0)) k (unfold all_below has_bit in refl) h)

-- For 8 blocks or more, in the sectors of the formatted block bitmap up to the one of bit
-- `bit_len`, the set bits are bit 0 and those after bit `bit_len`.
pub block_bitmap_lem :
    (bit_len j : ℕ)
    → 8 ≤ bit_len
    → j < (bit_len / 4096 + 1) * 4096
    → bit_at (block_bitmap_bytes bit_len) j ≡ (j == 0 || ltb bit_len j)
unfolding block_bitmap_bytes
block_bitmap_lem bit_len j big inside = ground (
  arith,
  edge (bit_len % 8) (j % 8) (omega arith) (omega arith),
  full (j % 8) (omega arith),
  root (j % 8) (omega arith),
  has_bit-zero (j % 8),
)

-- On a formatted partition of fewer than 2^32 sectors with at least 16 sectors beside its tables,
-- the bit after the last block's is free, and it stands for the first sector after the end of the
-- partition.
pub block_after_end :
    (part : Partition)
    → used_sects + 16 ≤ part.sec_cnt
    → part.start_lba + part.sec_cnt ≤ 2 ^ 28
    → let n = block_bitmap_bit_len part in
      (bit_at (block_bitmap_bytes n) n ≡ false)
      × ((new_super_block part).data_start_lba + n ≡ part.start_lba + part.sec_cnt)
block_after_end part room small =
    let d = new_super_block-IsDivided part (omega arith) small in
    let big : 8 ≤ block_bitmap_bit_len part = unfold block_bitmap_bit_len in omega arith in
    (
      ground (
        arith,
        block_bitmap_lem (block_bitmap_bit_len part) (block_bitmap_bit_len part) big (omega arith),
      ),
      d.ends_with_partition,
    )
