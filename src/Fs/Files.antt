-- ===== src/Fs/Files.antt =====
-- fs/file.c: the tables of open files, the bitmaps of the partition, opening and closing.
pub mod Slots
pub mod Deny
use winux_os.Base.{
  ℕ, zero, suc, ◌+◌, ◌-◌, ◌*◌, ◌/◌, Bool, true, false, not, Option, none, some, ◌==◌, ltb, leb,
  if◌then◌else◌, ◌||◌, Bytes, update, u32, Outcome, ok, panic, ◌>>=◌, ◌>>◌, assert,
}
use winux_os.Bitmap.{Bitmap, scan, set}
use winux_os.Device.Ide.{Disk, overwrite, sector_size}
use winux_os.Fs.{SuperBlock, Inode, FileSystem, File, bits_per_sector}
use winux_os.Fs.InodeTable.{inode_open, inode_close}

abbrev pub max_file_open : ℕ
max_file_open = 32

abbrev pub max_files_open_per_proc : ℕ
max_files_open_per_proc = 8

-- enum oflags
abbrev pub o_wronly : ℕ
o_wronly = 1

abbrev pub o_rdwr : ℕ
o_rdwr = 2

-- enum bitmap_type
pub data BitmapType : Type 0 where
  inode_bitmap : BitmapType
  block_bitmap : BitmapType

-- `fd_inode == NULL`, and -1 in a task's `fd_table`
abbrev pub is_none {ℓ} : {A : Type ℓ} → Option A → Bool
is_none none = true
is_none (some x) = false

-- Both tables are searched from 3 on; `left` entries are left.
unfoldable pub find_slot : (ℕ → Bool) → ℕ → ℕ → Option ℕ
find_slot free zero idx = none
find_slot free (suc left) idx =
    let rest = find_slot free left (idx + 1) in if free idx then some idx else rest

unfoldable pub get_free_slot_in_global : FileSystem → Option ℕ
unfolding find_slot
get_free_slot_in_global fs =
    find_slot (λ i. is_none (fs.file_table i).fd_inode) (max_file_open - 3) 3

unfoldable pub pcb_fd_install : FileSystem → ℕ → Option ℕ × FileSystem
unfolding find_slot
pcb_fd_install fs globa_fd_idx =
    elim (find_slot (λ i. is_none (fs.fd_table i)) (max_files_open_per_proc - 3) 3) [
      | none ↦ (none, fs)
      | some i ↦ (some i, record fs { fd_table = update fs.fd_table i (some globa_fd_idx) })
    ]

-- An index that `bitmap_scan` found is set.
unfoldable pub take_bit : Bitmap → Outcome (Option ℕ × Bitmap)
take_bit m = scan m 1 >>= λ found. elim found [
  | none ↦ ok (none, m)
  | some bit_idx ↦ set m bit_idx 1 >>= λ m'. ok (some bit_idx, m')
]

unfoldable pub inode_bitmap_alloc : FileSystem → Outcome (Option ℕ × FileSystem)
unfolding take_bit
inode_bitmap_alloc fs =
    take_bit fs.inode_bitmap >>= λ (found, m). ok (found, record fs { inode_bitmap = m })

-- The result is a sector's address.
unfoldable pub block_bitmap_alloc : FileSystem → Outcome (Option ℕ × FileSystem)
unfolding take_bit
block_bitmap_alloc fs = take_bit fs.block_bitmap >>= λ (found, m). ok (
  elim found [ none ↦ none | some bit_idx ↦ some (u32 (fs.sb.data_start_lba + bit_idx)) ],
  record fs { block_bitmap = m },
)

unfoldable pub bitmap_sync : FileSystem → ℕ → BitmapType → FileSystem
bitmap_sync fs bit_idx btmp_type =
    let off_sec = bit_idx / bits_per_sector in
    let off_size = off_sec * sector_size in
    elim btmp_type [
      | inode_bitmap ↦ record fs {
        disk =
            overwrite fs.disk (fs.sb.inode_bitmap_lba + off_sec)
              (λ i. fs.inode_bitmap.bits (off_size + i)) 1;
      }
      | block_bitmap ↦ record fs {
        disk =
            overwrite fs.disk (fs.sb.block_bitmap_lba + off_sec)
              (λ i. fs.block_bitmap.bits (off_size + i)) 1;
      }
    ]

-- `*write_deny = v` through the pointer to an inode in memory
abbrev pub set_write_deny : FileSystem → ℕ → Bool → FileSystem
set_write_deny fs r v = record fs {
  inodes = update fs.inodes r (record (fs.inodes r) { write_deny = v });
}

abbrev pub set_file : FileSystem → ℕ → File → FileSystem
set_file fs fd_idx file = record fs { file_table = update fs.file_table fd_idx file }

abbrev pub is_write : ℕ → Bool
is_write flag = flag == o_wronly || flag == o_rdwr

-- The check of `write_deny`, with the interrupts off, and what follows it.
unfoldable pub claim : FileSystem → ℕ → ℕ → ℕ → Option ℕ × FileSystem
unfolding pcb_fd_install
claim fs fd_idx r flag =
    if is_write flag
    then if (fs.inodes r).write_deny
      then (none, fs)
      else pcb_fd_install (set_write_deny fs r true) fd_idx
    else pcb_fd_install fs fd_idx

unfoldable pub file_open : FileSystem → ℕ → ℕ → Outcome (Option ℕ × FileSystem)
unfolding get_free_slot_in_global claim
file_open fs inode_no flag = elim (get_free_slot_in_global fs) [
  | none ↦ ok (none, fs)
  | some fd_idx ↦ inode_open fs inode_no >>= λ (r, fs₁). ok (
      claim (set_file fs₁ fd_idx (record { fd_pos = 0; fd_flag = flag; fd_inode = some r })) fd_idx
        r flag)
]

-- `file_close` of an entry of the file table. An entry whose `fd_inode` is NULL is written through.
unfoldable pub file_close : FileSystem → ℕ → Outcome FileSystem
file_close fs fd_idx = elim (fs.file_table fd_idx).fd_inode [
  | none ↦ panic
  | some r ↦
      (let closed = inode_close (set_write_deny fs r false) r in
        ok (set_file closed fd_idx (record (fs.file_table fd_idx) { fd_inode = none })))
]

-- `fd_local2global` of fs/fs.c
unfoldable pub fd_local2global : FileSystem → ℕ → Outcome ℕ
fd_local2global fs local_fd = elim (fs.fd_table local_fd) [
  | none ↦ panic
  | some global_fd ↦ assert (ltb global_fd max_file_open) >> ok global_fd
]
