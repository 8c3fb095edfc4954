-- ===== src/Fs/Format.antt =====
-- fs/fs.c: `partition_format`, and `mount_partition` as far as it reads the disk.
pub mod Layout
pub mod BlockMap
pub mod Mount
use winux_os.Base.{
  ℕ, zero, suc, ◌+◌, ◌-◌, ◌*◌, ◌/◌, ◌%◌, ◌^◌, bit_and, bit_or, Bool, true, false, ◌==◌, ltb, leb,
  if◌then◌else◌, ◌&&◌, ◌||◌, Bytes, update, u32, Outcome, ok, panic,
}
use winux_os.Bitmap.{Bitmap}
use winux_os.Device.Ide.{Disk, sectors_from, overwrite, sector_size}
use winux_os.Fs.{
  SuperBlock, Inode, Partition, fs_magic, inode_size, dir_entry_size, max_files_per_part,
  bits_per_sector, div_round_up,
}
use winux_os.Fs.Words.{encode, word_at}

abbrev pub inode_bitmap_sects : ℕ
inode_bitmap_sects = div_round_up max_files_per_part bits_per_sector

abbrev pub inode_table_sects : ℕ
inode_table_sects = div_round_up (inode_size * max_files_per_part) sector_size

-- Boot sector, super block, inode bitmap and inode table.
abbrev pub used_sects : ℕ
used_sects = 1 + 1 + inode_bitmap_sects + inode_table_sects

abbrev pub free_sects : Partition → ℕ
free_sects part = u32 (part.sec_cnt + 2 ^ 32 - used_sects)

unfoldable pub block_bitmap_sects : Partition → ℕ
block_bitmap_sects part = div_round_up (free_sects part) (bits_per_sector + 1)

unfoldable pub block_bitmap_bit_len : Partition → ℕ
unfolding block_bitmap_sects
block_bitmap_bit_len part = u32 (free_sects part + 2 ^ 32 - block_bitmap_sects part)

-- The super block that is written.
unfoldable pub new_super_block : Partition → SuperBlock
unfolding block_bitmap_sects
new_super_block part =
    let block_bitmap_lba = u32 (part.start_lba + 2) in
    let inode_bitmap_lba = u32 (block_bitmap_lba + block_bitmap_sects part) in
    let inode_table_lba = u32 (inode_bitmap_lba + inode_bitmap_sects) in
    record {
      magic = fs_magic;
      sec_cnt = part.sec_cnt;
      inode_cnt = max_files_per_part;
      part_lba_base = part.start_lba;
      block_bitmap_lba = block_bitmap_lba;
      block_bitmap_sects = block_bitmap_sects part;
      inode_bitmap_lba = inode_bitmap_lba;
      inode_bitmap_sects = inode_bitmap_sects;
      inode_table_lba = inode_table_lba;
      inode_table_sects = inode_table_sects;
      data_start_lba = u32 (inode_table_lba + inode_table_sects);
      root_inode_no = 0;
      dir_entry_size = dir_entry_size;
    }

-- The words of the super block, in the order of the structure; the padding is not modelled.
unfoldable pub super_words : SuperBlock → ℕ → ℕ
super_words sb zero = sb.magic
super_words sb (suc zero) = sb.sec_cnt
super_words sb (suc (suc zero)) = sb.inode_cnt
super_words sb (suc (suc (suc zero))) = sb.part_lba_base
super_words sb (suc (suc (suc (suc zero)))) = sb.block_bitmap_lba
super_words sb (suc (suc (suc (suc (suc zero))))) = sb.block_bitmap_sects
super_words sb (suc (suc (suc (suc (suc (suc zero)))))) = sb.inode_bitmap_lba
super_words sb (suc (suc (suc (suc (suc (suc (suc zero))))))) = sb.inode_bitmap_sects
super_words sb (suc (suc (suc (suc (suc (suc (suc (suc zero)))))))) = sb.inode_table_lba
super_words sb (suc (suc (suc (suc (suc (suc (suc (suc (suc zero))))))))) = sb.inode_table_sects
super_words sb (suc (suc (suc (suc (suc (suc (suc (suc (suc (suc zero)))))))))) = sb.data_start_lba
super_words sb (suc (suc (suc (suc (suc (suc (suc (suc (suc (suc (suc zero))))))))))) =
    sb.root_inode_no
super_words sb (suc (suc (suc (suc (suc (suc (suc (suc (suc (suc (suc (suc k)))))))))))) =
    if k == 0 then sb.dir_entry_size else 0

-- `while (bit_idx <= last_bit) byte &= ~(1 << bit_idx++)`: `left` rounds from `bit_idx` on.
unfoldable pub clear_bits : ℕ → ℕ → ℕ → ℕ
clear_bits byte bit_idx zero = byte
clear_bits byte bit_idx (suc left) =
    clear_bits (bit_and byte (255 - 2 ^ bit_idx)) (bit_idx + 1) left

-- The block bitmap in the buffer: the root directory's block is taken, and so is what follows the
-- last block in its sector.
unfoldable pub block_bitmap_bytes : ℕ → Bytes
unfolding clear_bits
block_bitmap_bytes bit_len =
    let last_byte = bit_len / 8 in
    let last_bit = bit_len % 8 in
    let remain_byte = sector_size - last_byte % sector_size in
    let rooted = update (λ _. 0) 0 (bit_or 0 1) in
    let padded =
      λ (i : ℕ). if leb last_byte i && ltb i (last_byte + remain_byte) then 255 else rooted i in
    update padded last_byte (clear_bits (padded last_byte) 0 (last_bit + 1))

-- The first inode: the root directory with its two entries.
unfoldable pub root_inode_words : ℕ → ℕ → ℕ
root_inode_words data_start_lba k =
    if k == 1 then dir_entry_size * 2 else if k == 4 then data_start_lba else 0

-- The entries "." and ".." with inode 0 and the type of a directory.
unfoldable pub root_dir_bytes : Bytes
root_dir_bytes i =
    if i == 0 || i == 24 || i == 25 then b'.' else if i == 20 || i == 44 then 2 else 0

-- The five writes, in order.
unfoldable pub write_tables : Disk → Partition → Disk
unfolding new_super_block block_bitmap_bit_len super_words block_bitmap_bytes root_inode_words
    root_dir_bytes
write_tables disk part =
    let sb = new_super_block part in
    let d₁ = overwrite disk (u32 (part.start_lba + 1)) (encode (super_words sb)) 1 in
    let d₂ =
      overwrite d₁ sb.block_bitmap_lba (block_bitmap_bytes (block_bitmap_bit_len part))
        sb.block_bitmap_sects in
    let d₃ =
      overwrite d₂ sb.inode_bitmap_lba (update (λ _. 0) 0 (bit_or 0 1)) sb.inode_bitmap_sects in
    let d₄ =
      overwrite d₃ sb.inode_table_lba (encode (root_inode_words sb.data_start_lba))
        sb.inode_table_sects in
    overwrite d₄ sb.data_start_lba root_dir_bytes 1

-- `granted` says whether `sys_malloc` gives the buffer: its result is not tested, and the memory at
-- NULL would be written.
unfoldable pub partition_format : Bool → Disk → Partition → Outcome Disk
partition_format granted disk part = if granted then ok (write_tables disk part) else panic

-- The super block read from the disk.
unfoldable pub read_super_block : Disk → Partition → SuperBlock
unfolding word_at
read_super_block disk part =
    let p = sectors_from disk (u32 (part.start_lba + 1)) in
    record {
      magic = word_at p 0;
      sec_cnt = word_at p 1;
      inode_cnt = word_at p 2;
      part_lba_base = word_at p 3;
      block_bitmap_lba = word_at p 4;
      block_bitmap_sects = word_at p 5;
      inode_bitmap_lba = word_at p 6;
      inode_bitmap_sects = word_at p 7;
      inode_table_lba = word_at p 8;
      inode_table_sects = word_at p 9;
      data_start_lba = word_at p 10;
      root_inode_no = word_at p 11;
      dir_entry_size = word_at p 12;
    }

-- What `mount_partition` keeps in memory.
pub record Mounted : Type 0 where
  pub sb : SuperBlock
  pub block_bitmap : Bitmap
  pub inode_bitmap : Bitmap

unfoldable pub mount_partition : Disk → Partition → Mounted
unfolding read_super_block
mount_partition disk part =
    let sb = read_super_block disk part in
    record {
      sb = sb;
      block_bitmap = record {
        btmp_bytes_len = sb.block_bitmap_sects * sector_size;
        bits = sectors_from disk sb.block_bitmap_lba;
      };
      inode_bitmap = record {
        btmp_bytes_len = sb.inode_bitmap_sects * sector_size;
        bits = sectors_from disk sb.inode_bitmap_lba;
      };
    }
