-- ===== src/Fs.antt =====
-- fs/: the structures on the disk and in memory. A disk is used through what `ide_read` and
-- `ide_write` do with it (`Device.Ide.Transfer`): sectors are read and overwritten as wholes.
pub mod Words
pub mod Format
pub mod InodeTable
pub mod Files
pub mod Directory
pub mod Open
pub mod Write
pub mod Read
pub mod Search
pub mod Boot
mod Examples
use winux_os.Base.{ℕ, ◌+◌, ◌-◌, ◌*◌, ◌/◌, u32, Bool, Option, some, none, List, if◌then◌else◌}
use winux_os.Bitmap.{Bitmap}
use winux_os.Device.Ide.{Disk}

-- struct super_block, without the padding.
pub record SuperBlock : Type 0 where
  pub magic : ℕ
  pub sec_cnt : ℕ
  pub inode_cnt : ℕ
  pub part_lba_base : ℕ
  pub block_bitmap_lba : ℕ
  pub block_bitmap_sects : ℕ
  pub inode_bitmap_lba : ℕ
  pub inode_bitmap_sects : ℕ
  pub inode_table_lba : ℕ
  pub inode_table_sects : ℕ
  pub data_start_lba : ℕ
  pub root_inode_no : ℕ
  pub dir_entry_size : ℕ

-- struct inode, without its links in the list of open inodes.
pub record Inode : Type 0 where
  pub i_no : ℕ
  pub i_size : ℕ
  pub i_open_cnts : ℕ
  pub write_deny : Bool
  pub i_sectors : ℕ → ℕ

-- The part of struct partition that the file system reads.
pub record Partition : Type 0 where
  pub start_lba : ℕ
  pub sec_cnt : ℕ

abbrev pub fs_magic : ℕ
fs_magic = 0x19980320

-- sizeof(struct inode), sizeof(struct dir_entry)
abbrev pub inode_size : ℕ
inode_size = 76

abbrev pub dir_entry_size : ℕ
dir_entry_size = 24

abbrev pub max_files_per_part : ℕ
max_files_per_part = 4096

abbrev pub bits_per_sector : ℕ
bits_per_sector = 4096

abbrev pub div_round_up : ℕ → ℕ → ℕ
div_round_up x step = u32 (x + step - 1) / step

-- struct file; `fd_inode` is NULL in a free slot.
pub record File : Type 0 where
  pub fd_pos : ℕ
  pub fd_flag : ℕ
  pub fd_inode : Option ℕ

-- The mounted partition and the file system's tables. `inodes` are the inodes in memory by their
-- reference, `open_inodes` the list of `cur_part`, `grants` says which of the successive calls of
-- `sys_malloc` get memory, and `next_ref` counts them. `fd_table` is the running task's. The disk has
-- `disk_sects` sectors.
pub record FileSystem : Type 0 where
  pub disk : Disk
  pub disk_sects : ℕ
  pub sb : SuperBlock
  pub block_bitmap : Bitmap
  pub inode_bitmap : Bitmap
  pub inodes : ℕ → Inode
  pub open_inodes : List ℕ
  pub next_ref : ℕ
  pub grants : ℕ → Bool
  pub root_dir : ℕ
  pub file_table : ℕ → File
  pub fd_table : ℕ → Option ℕ

-- `sys_malloc` as the file system sees it: a new reference or NULL.
unfoldable pub alloc : FileSystem → Option ℕ × FileSystem
alloc fs = (
  if fs.grants fs.next_ref then some fs.next_ref else none,
  record fs { next_ref = fs.next_ref + 1 },
)
