-- ===== src/Fs/Search.antt =====
-- fs/fs.c: how `filesys_init` looks through the disks for partitions to format, and the loop that
-- clears the file table. The buffer for a super block is always granted here; `grants` says for which
-- partitions `sys_malloc` gives the buffer of `partition_format`.
pub mod Again
mod Examples
use winux_os.Base.{
  ℕ, zero, suc, ◌+◌, ◌-◌, ◌<◌, ◌≤◌, ◌≡◌, refl, true, false, ◌==◌, ltb, if◌then◌else◌, update, none,
  arith, u32, Bool, Outcome, ok, ◌>>=◌,
}
use winux_os.Device.Ide.{Disk, sectors_from}
use winux_os.Fs.{Partition, FileSystem, fs_magic}
use winux_os.Fs.Format.{partition_format}
use winux_os.Fs.Words.{word_at}

-- The second disk of a channel: its sectors, and its partitions: 0 to 3 are `prim_parts`, 4 to 11
-- are `logic_parts`.
pub record Drive : Type 0 where
  pub disk : Disk
  pub parts : ℕ → Partition

-- One partition: without the magic number in its super block it is formatted.
unfoldable pub search_part : (Partition → Bool) → Disk → Partition → Outcome Disk
search_part grants disk part =
    if part.sec_cnt == 0
    then ok disk
    else if word_at (sectors_from disk (u32 (part.start_lba + 1))) 0 == fs_magic
    then ok disk
    else partition_format (grants part) disk part

-- `while (part_idx < 12)`, with `left` rounds to go.
unfoldable pub search_parts : (Partition → Bool) → ℕ → Drive → ℕ → Outcome Drive
unfolding search_part
search_parts grants zero hd part_idx = ok hd
search_parts grants (suc left) hd part_idx =
    search_part grants hd.disk (hd.parts part_idx) >>= λ disk.
    search_parts grants left (record { disk = disk; parts = hd.parts }) (part_idx + 1)

-- The channels from `channel_no` on, by their second disks. `part_idx` starts at 0 for the first
-- channel and is left at 12 for the others: 12 rounds, then none.
unfoldable pub search_channels : (Partition → Bool) → ℕ → (ℕ → Drive) → ℕ → ℕ → Outcome (ℕ → Drive)
unfolding search_parts
search_channels grants zero drives channel_no part_idx = ok drives
search_channels grants (suc left) drives channel_no part_idx =
    search_parts grants (12 - part_idx) (drives channel_no) part_idx >>= λ hd.
    search_channels grants left (update drives channel_no hd) (channel_no + 1)
      (part_idx + (12 - part_idx))

unfoldable pub search_disks : (Partition → Bool) → ℕ → (ℕ → Drive) → Outcome (ℕ → Drive)
unfolding search_channels
search_disks grants channel_cnt drives = search_channels grants channel_cnt drives 0 0

-- `while (fd_idx < MAX_FILE_OPEN)`: no slot of the file table has an inode.
unfoldable pub clear_file_table : ℕ → FileSystem → ℕ → FileSystem
clear_file_table zero fs fd_idx = fs
clear_file_table (suc left) fs fd_idx =
    clear_file_table left
      (record fs {
        file_table =
            update fs.file_table fd_idx (record (fs.file_table fd_idx) { fd_inode = none });
      })
      (fd_idx + 1)
