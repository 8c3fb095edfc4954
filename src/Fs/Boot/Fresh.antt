-- ===== src/Fs/Boot/Fresh.antt =====
-- The first start with an unformatted partition: it is formatted and mounted, and its root
-- directory is open.
use winux_os.Base.{
  ℕ, ◌+◌, ◌^◌, ◌<◌, ◌≤◌, ◌≡◌, ◌∙◌, refl, ap, true, false, some, List, [], ◌∷◌, ◌==◌, update, ok,
  arith, Bool, Bytes, ltb, ◌||◌, ◌*◌, subst, sym, if◌then◌else◌,
}
use winux_os.Str.{equal, strcmp}
use winux_os.Device.Ide.{Disk}
use winux_os.Fs.{Partition, bits_per_sector, SuperBlock, FileSystem, fs_magic}
use winux_os.Fs.Format.{
  used_sects, new_super_block, block_bitmap_bit_len, write_tables, read_super_block, root_dir_bytes,
  mount_partition,
}
use winux_os.Fs.Format.Layout.{IsDivided, new_super_block-IsDivided}
use winux_os.Fs.Format.BlockMap.{bit_at}
use winux_os.Fs.Format.Mount.{read-format}
use winux_os.Fs.InodeTable.{read_inode}
use winux_os.Fs.Directory.{entry_at, i_no_at, f_type_at}
use winux_os.Fs.Search.{Drive}
use winux_os.Fs.Search.Again.{magic_of}
use winux_os.Fs.Boot.{Listed, default_part, find_part}
use winux_os.Fs.Boot.Root.{root_block}

-- Entry `k` of a block is a directory of inode 0 whose name is `n` dots.
pub record IsDirectory (block : Bytes) (k n : ℕ) : Type 0 where
  pub dots : (i : ℕ) → i < n → entry_at block k i ≡ b'.'
  pub ends : entry_at block k n ≡ 0
  pub number : i_no_at block k ≡ 0
  pub directory : f_type_at block k ≡ 2

-- What a formatted partition is, in memory and on the disk: the regions lie one after the other,
-- the super block is stored, the root directory's block and inode alone are taken, and its block has
-- the entries "." and ".." of inode 0 and no other.
pub record IsFormatted (part : Partition) (fs : FileSystem) : Type 0 where
  pub divided : IsDivided part fs.sb (block_bitmap_bit_len part)
  pub stored : read_super_block fs.disk part ≡ fs.sb
  -- The bit after the last block's is clear too.
  pub blocks :
      (j : ℕ)
      → j < fs.sb.block_bitmap_sects * bits_per_sector
      → bit_at fs.block_bitmap.bits j ≡ (j == 0 || ltb (block_bitmap_bit_len part) j)
  pub inodes : (j : ℕ) → j < 512 → fs.inode_bitmap.bits j ≡ (if j == 0 then 1 else 0)
  pub dot : IsDirectory (fs.disk fs.sb.data_start_lba) 0 1
  pub dot_dot : IsDirectory (fs.disk fs.sb.data_start_lba) 1 2
  pub rest : (k : ℕ) → 2 ≤ k → k < 21 → f_type_at (fs.disk fs.sb.data_start_lba) k ≡ 0

module _ (grants : Partition → Bool) (channels : ℕ) (drives : ℕ → Drive) (p : Listed)
    (rest : List Listed) (fs : FileSystem) (room : used_sects + 16 ≤ p.part.sec_cnt)
    (small : p.part.start_lba + p.part.sec_cnt ≤ 2 ^ 28) (first : (drives 0).parts 0 ≡ p.part)
    (others : (j : ℕ) → 1 ≤ j → ((drives 0).parts j).sec_cnt ≡ 0)
    (missing : (magic_of (drives 0).disk p.part == fs_magic) ≡ false) (on_first : p.channel_no ≡ 0)
    (named : strcmp 9 p.name default_part ≡ some equal) (memory : (n : ℕ) → fs.grants n ≡ true)
    (buffer : grants p.part ≡ true)
    (inside : p.part.start_lba + p.part.sec_cnt ≤ fs.disk_sects) where
  abbrev formatted_disk : Disk
  formatted_disk = write_tables (drives 0).disk p.part

  -- The drives after the search.
  abbrev after : ℕ → Drive
  after = update drives 0 (record (drives 0) { disk = formatted_disk })

  -- The state after the partition was mounted.
  abbrev mounted : FileSystem
  mounted =
      let m = mount_partition formatted_disk p.part in
      record fs {
        disk = formatted_disk;
        sb = m.sb;
        block_bitmap = m.block_bitmap;
        inode_bitmap = m.inode_bitmap;
        open_inodes = [];
        next_ref = fs.next_ref + 1 + 1 + 1 + 1 + 1;
      }

  abbrev root : ℕ
  root = fs.next_ref + 1 + 1 + 1 + 1 + 1

  abbrev opened : FileSystem
  opened = record mounted {
    next_ref = fs.next_ref + 1 + 1 + 1 + 1 + 1 + 1 + 1;
    inodes =
        update fs.inodes root (record (read_inode formatted_disk mounted.sb 0) { i_open_cnts = 1 });
    open_inodes = root ∷ [];
    root_dir = root;
  }

  sb_read : mounted.sb ≡ new_super_block p.part
  unfolding mount_partition
  sb_read = read-format (drives 0).disk p.part room small

  find_run : find_part (p ∷ rest) default_part ≡ ok (some p)
  unfolding find_part
  find_run = rw (find_part, named) refl

  abbrev bits : ℕ
  bits = block_bitmap_bit_len p.part

  divided : IsDivided p.part mounted.sb bits
  divided =
      subst (λ t. IsDivided p.part t bits) (sym sb_read)
        (new_super_block-IsDivided p.part (omega arith) small)

  block : mounted.disk mounted.sb.data_start_lba ≡ root_dir_bytes
  block =
      ap (λ (t : SuperBlock). formatted_disk t.data_start_lba) sb_read
      ∙ root_block (drives 0).disk p.part room small
