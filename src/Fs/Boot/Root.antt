-- ===== src/Fs/Boot/Root.antt =====
-- The steps of a first start: searching the partitions, clearing the file table, the root
-- directory's inode, and memory.
use winux_os.Base.{
  ℕ, zero, suc, ◌+◌, ◌-◌, ◌%◌, ◌^◌, ◌<◌, ◌≤◌, ◌≡◌, ◌∙◌, refl, ap, true, inl, inr, Bool-cases, none,
  ◌∷◌, ◌==◌, update, ok, arith, Bool, fun_ext, leb,
}
use winux_os.Device.Ide.{Disk, sectors_from}
use winux_os.Fs.{Partition, SuperBlock, FileSystem}
use winux_os.Fs.Words.{encode, word_at, word_at-encode}
use winux_os.Fs.Format.{
  used_sects, new_super_block, block_bitmap_bit_len, root_inode_words, root_dir_bytes, write_tables,
}
use winux_os.Fs.Format.Layout.{IsDivided, new_super_block-IsDivided}
use winux_os.Fs.Format.Mount.{word_cong}
use winux_os.Fs.InodeTable.{inode_locate, sectors_of, on_disk, decode_inode, read_inode, load_inode}
use winux_os.Fs.Search.{Drive, search_part, search_parts, clear_file_table}
use winux_os.Fs.Boot.{granted}

search_parts-none :
    (grants : Partition → Bool) (left : ℕ) (hd : Drive) (k : ℕ)
    → ((j : ℕ) → k ≤ j → (hd.parts j).sec_cnt ≡ 0)
    → search_parts grants left hd k ≡ ok hd
unfolding search_parts
search_parts-none grants zero hd k empty = refl
search_parts-none grants (suc left) hd k empty =
    rw (search_part, empty k (omega arith))
      (search_parts-none grants left hd (k + 1) (λ j p. empty j (omega arith)))

pub search_parts_rest :
    (grants : Partition → Bool) (left : ℕ) (hd : Drive) (k : ℕ) (disk : Disk)
    → ((j : ℕ) → k + 1 ≤ j → (hd.parts j).sec_cnt ≡ 0)
    → search_part grants hd.disk (hd.parts k) ≡ ok disk
    → search_parts grants (suc left) hd k ≡ ok (record hd { disk = disk })
unfolding search_parts
search_parts_rest grants left hd k disk empty run =
    rw run (search_parts-none grants left (record hd { disk = disk }) (k + 1) empty)

pub clear_file_table-none :
    (left : ℕ) (fs : FileSystem) (fd k : ℕ)
    → k < fd + left
    → (k < fd → (fs.file_table k).fd_inode ≡ none)
    → ((clear_file_table left fs fd).file_table k).fd_inode ≡ none
unfolding clear_file_table
clear_file_table-none zero fs fd k h before = before (omega arith)
clear_file_table-none (suc left) fs fd k h before =
    clear_file_table-none left _ (fd + 1) k (omega arith) (λ p. elim (Bool-cases (fd == k)) [
      | inl here ↦ rw here refl
      | inr there ↦ rw there (before (ground arith))
    ])

-- The loop changes the file table alone.
pub clear_file_table-rest :
    (left : ℕ) (fs : FileSystem) (fd : ℕ)
    → clear_file_table left fs fd
      ≡ record fs { file_table = (clear_file_table left fs fd).file_table }
unfolding clear_file_table
clear_file_table-rest zero fs fd = refl
clear_file_table-rest (suc left) fs fd = clear_file_table-rest left _ (fd + 1)

module _ (disk : Disk) (part : Partition) (room : used_sects + 16 ≤ part.sec_cnt)
    (small : part.start_lba + part.sec_cnt ≤ 2 ^ 28) where
  abbrev sb : SuperBlock
  sb = new_super_block part

  abbrev formatted : Disk
  formatted = write_tables disk part

  divided : IsDivided part sb (block_bitmap_bit_len part)
  divided = new_super_block-IsDivided part (omega arith) small

  inode_sector :
      (i : ℕ)
      → i < 512
      → sectors_from formatted sb.inode_table_lba i ≡ encode (root_inode_words sb.data_start_lba) i
  unfolding write_tables new_super_block
  inode_sector i h = ground (arith, divided)

  root_word :
      (k : ℕ)
      → k < 20
      → root_inode_words sb.data_start_lba k < 2 ^ 32
      → word_at (λ i. sectors_from formatted sb.inode_table_lba (0 + i)) k
        ≡ root_inode_words sb.data_start_lba k
  root_word k h w =
      word_cong _ (encode (root_inode_words sb.data_start_lba)) k
        (λ i p. let e : 0 + i ≡ i = omega arith in rw e (inode_sector i (omega arith)))
      ∙ word_at-encode (root_inode_words sb.data_start_lba) k w

  -- The root directory's inode: two entries in the first data block.
  pub root_inode :
      ((read_inode formatted sb 0).i_size ≡ 48)
      × ((read_inode formatted sb 0).i_sectors 0 ≡ sb.data_start_lba)
  unfolding read_inode inode_locate decode_inode root_inode_words
  root_inode =
      let lba : (sb.inode_table_lba + 0) % 2 ^ 32 ≡ sb.inode_table_lba = omega (arith, divided) in
      rw lba (
        root_word 1 (omega arith) (omega arith),
        root_word 4 (omega arith) (omega (arith, divided)),
      )

  -- The first data block.
  pub root_block : formatted sb.data_start_lba ≡ root_dir_bytes
  unfolding write_tables
  root_block =
      let here : sb.data_start_lba - sb.data_start_lba ≡ 0 = omega arith in
      fun_ext (λ i. ground (arith, here))

  first_inode :
      leb
        ((inode_locate sb 0).sec_lba + sectors_of (inode_locate sb 0))
        (part.start_lba + part.sec_cnt)
      ≡ true
  unfolding inode_locate
  first_inode = ground (arith, divided)

  -- The root directory's inode lies in the partition.
  pub root_on_disk :
      (fs : FileSystem)
      → fs.sb ≡ sb
      → part.start_lba + part.sec_cnt ≤ fs.disk_sects
      → on_disk fs (inode_locate fs.sb 0) ≡ true
  root_on_disk fs e inside =
      ap (λ t. leb ((inode_locate t 0).sec_lba + sectors_of (inode_locate t 0)) fs.disk_sects) e
      ∙ ground (arith, first_inode)

pub granted_lem :
    (fs : FileSystem)
    → ((n : ℕ) → fs.grants n ≡ true)
    → granted fs ≡ ok (record fs { next_ref = fs.next_ref + 1 })
unfolding granted
granted_lem fs memory = rw (granted, memory fs.next_ref) refl

pub load_lem :
    (fs : FileSystem) (n : ℕ)
    → ((m : ℕ) → fs.grants m ≡ true)
    → on_disk fs (inode_locate fs.sb n) ≡ true
    → load_inode fs n
      ≡ ok (
        fs.next_ref,
        record fs {
          next_ref = fs.next_ref + 1 + 1;
          inodes =
              update fs.inodes fs.next_ref
                (record (read_inode fs.disk fs.sb n) { i_open_cnts = 1 });
          open_inodes = fs.next_ref ∷ fs.open_inodes;
        },
      )
unfolding load_inode
load_lem fs n memory inside = ground (arith, inside, memory fs.next_ref, memory (fs.next_ref + 1))
