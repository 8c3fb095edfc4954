-- ===== src/Fs/Format/Mount.antt =====
-- Mounting a partition that was formatted.
use winux_os.Base.{
  ℕ, ◌+◌, ◌-◌, ◌*◌, ◌/◌, ◌%◌, ◌^◌, ◌<◌, ◌≤◌, ◌≡◌, ap, ◌∙◌, ◌==◌, if◌then◌else◌, arith, Bytes, u32,
}
use winux_os.Device.Ide.{Disk, sectors_from}
use winux_os.Fs.{Partition, SuperBlock}
use winux_os.Fs.Words.{encode, word_at, word_at-encode}
use winux_os.Fs.Format.{
  used_sects, new_super_block, block_bitmap_bit_len, super_words, block_bitmap_bytes, write_tables,
  read_super_block, mount_partition,
}
use winux_os.Fs.Format.Layout.{IsDivided, new_super_block-IsDivided}

-- Two runs of bytes that agree give the same word.
pub word_cong :
    (p q : Bytes) (k : ℕ) → ((i : ℕ) → i < 4 * k + 4 → p i ≡ q i) → word_at p k ≡ word_at q k
unfolding word_at
word_cong p q k h = omega (
  arith,
  h (4 * k) (omega arith),
  h (4 * k + 1) (omega arith),
  h (4 * k + 2) (omega arith),
  h (4 * k + 3) (omega arith),
)

module _ (disk : Disk) (part : Partition) (room : used_sects + 16 ≤ part.sec_cnt)
    (small : part.start_lba + part.sec_cnt ≤ 2 ^ 28) where
  abbrev sb : SuperBlock
  sb = new_super_block part

  divided : IsDivided part sb (block_bitmap_bit_len part)
  divided = new_super_block-IsDivided part (omega arith) small

  abbrev formatted : Disk
  formatted = write_tables disk part

  super_sector :
      (i : ℕ)
      → i < 512
      → sectors_from formatted (u32 (part.start_lba + 1)) i ≡ encode (super_words sb) i
  unfolding write_tables
  super_sector i h = ground (arith, divided)

  super_word :
      (k : ℕ)
      → k < 128
      → super_words sb k < 2 ^ 32
      → word_at (sectors_from formatted (u32 (part.start_lba + 1))) k ≡ super_words sb k
  super_word k h w =
      word_cong _ (encode (super_words sb)) k (λ i p. super_sector i (omega arith))
      ∙ word_at-encode (super_words sb) k w

  -- The super block is read back as it was written.
  pub read-format : read_super_block formatted part ≡ sb
  unfolding read_super_block super_words new_super_block
  read-format = λ i. record {
    magic = super_word 0 (omega arith) (omega arith) i;
    sec_cnt = super_word 1 (omega arith) (omega arith) i;
    inode_cnt = super_word 2 (omega arith) (omega arith) i;
    part_lba_base = super_word 3 (omega arith) (omega arith) i;
    block_bitmap_lba = super_word 4 (omega arith) (omega arith) i;
    block_bitmap_sects = super_word 5 (omega arith) (omega arith) i;
    inode_bitmap_lba = super_word 6 (omega arith) (omega arith) i;
    inode_bitmap_sects = super_word 7 (omega arith) (omega arith) i;
    inode_table_lba = super_word 8 (omega arith) (omega arith) i;
    inode_table_sects = super_word 9 (omega arith) (omega arith) i;
    data_start_lba = super_word 10 (omega arith) (omega arith) i;
    root_inode_no = super_word 11 (omega arith) (omega arith) i;
    dir_entry_size = super_word 12 (omega arith) (omega arith) i;
  }

  inode_bitmap_sector :
      (j : ℕ) → j < 512 → sectors_from formatted sb.inode_bitmap_lba j ≡ (if j == 0 then 1 else 0)
  unfolding write_tables new_super_block
  inode_bitmap_sector j h = ground arith

  block_bitmap_sector :
      (i : ℕ)
      → i < sb.block_bitmap_sects * 512
      → sectors_from formatted sb.block_bitmap_lba i
        ≡ block_bitmap_bytes (block_bitmap_bit_len part) i
  unfolding write_tables
  block_bitmap_sector i h =
      ground (arith, divided, ap (block_bitmap_bytes (block_bitmap_bit_len part)) (at i))
    where
      at : (i : ℕ) → (sb.block_bitmap_lba + i / 512 - sb.block_bitmap_lba) * 512 + i % 512 ≡ i
      at i = omega arith

  pub mounted_lem :
      (i j : ℕ)
      → i < sb.block_bitmap_sects * 512
      → j < 512
      → let m = mount_partition formatted part in
        (m.sb ≡ sb)
        × (m.block_bitmap.bits i ≡ block_bitmap_bytes (block_bitmap_bit_len part) i)
        × (m.inode_bitmap.bits j ≡ (if j == 0 then 1 else 0))
  unfolding mount_partition
  mounted_lem i j h k = (
    read-format,
    ap (λ (t : SuperBlock). sectors_from formatted t.block_bitmap_lba i) read-format
        ∙ block_bitmap_sector i h,
    ap (λ (t : SuperBlock). sectors_from formatted t.inode_bitmap_lba j) read-format
        ∙ inode_bitmap_sector j k,
  )
