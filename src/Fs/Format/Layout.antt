-- ===== src/Fs/Format/Layout.antt =====
-- How `partition_format` divides a partition.
use winux_os.Base.{ℕ, ◌+◌, ◌*◌, ◌^◌, ◌<◌, ◌≤◌, ◌≡◌, arith}
use winux_os.Fs.{Partition, SuperBlock, bits_per_sector, inode_size, max_files_per_part}
use winux_os.Fs.Format.{used_sects, block_bitmap_bit_len, new_super_block}

-- The regions follow one another without a gap, the data blocks end with the partition, and the
-- bitmap has a bit for every data block and less than a sector to spare.
pub record IsDivided (part : Partition) (sb : SuperBlock) (blocks : ℕ) : Type 0 where
  pub after_super_block : sb.block_bitmap_lba ≡ part.start_lba + 2
  pub after_block_bitmap : sb.inode_bitmap_lba ≡ sb.block_bitmap_lba + sb.block_bitmap_sects
  pub after_inode_bitmap : sb.inode_table_lba ≡ sb.inode_bitmap_lba + sb.inode_bitmap_sects
  pub after_inode_table : sb.data_start_lba ≡ sb.inode_table_lba + sb.inode_table_sects
  pub ends_with_partition : sb.data_start_lba + blocks ≡ part.start_lba + part.sec_cnt
  pub bits_enough : blocks ≤ sb.block_bitmap_sects * bits_per_sector
  pub bits_tight : sb.block_bitmap_sects * bits_per_sector < blocks + bits_per_sector + 1
  pub inodes_fit : inode_size * max_files_per_part ≤ sb.inode_table_sects * 512

-- For a partition that ends at or before sector 2^28 with room for the tables, the regions of the
-- super block follow one another without a gap, the data blocks end with the partition, the block
-- bitmap has a bit for each of them and at most a sector to spare, and the inode table has room
-- for 4096 inodes.
pub new_super_block-IsDivided :
    (part : Partition)
    → used_sects ≤ part.sec_cnt
    → part.start_lba + part.sec_cnt ≤ 2 ^ 28
    → IsDivided part (new_super_block part) (block_bitmap_bit_len part)
unfolding new_super_block block_bitmap_bit_len
new_super_block-IsDivided part room small = omega arith
