-- ===== src/Fs/Write/Limit.antt =====
-- fs/file.c, `file_write`: a write that stays in the file's last block, and the largest size.
use winux_os.Base.{
  ℕ, ◌+◌, ◌-◌, ◌*◌, ◌/◌, ◌≡◌, ◌≢◌, true, false, ◌==◌, ltb, leb, some, Bytes, u32, arith, update,
  panic,
}
use winux_os.Device.Ide.{sector_size}
use winux_os.Fs.{FileSystem, alloc}
use winux_os.Fs.Write.{first_block, write_inode, file_write}

module _ (junk : ℕ → ℕ) (fs : FileSystem) (fd_idx r : ℕ) (buf : Bytes) (count : ℕ)
    (opened : (fs.file_table fd_idx).fd_inode ≡ some r) (io_buf : fs.grants fs.next_ref ≡ true)
    (blocks : fs.grants (fs.next_ref + 1) ≡ true) (written : (fs.inodes r).i_sectors 0 ≢ 0) where
  -- A write to an open file that has a first block, which would make it exactly 71680 bytes long,
  -- stops `file_write` in its ASSERT, if both buffers are granted.
  pub file_write_limit :
      (fs.inodes r).i_size + count ≡ 71680 → file_write junk fs fd_idx buf count ≡ panic
  unfolding file_write write_inode first_block alloc
  file_write_limit full =
      let allowed : ltb (512 * 140) (u32 ((fs.inodes r).i_size + count)) ≡ false = ground arith in
      let has_block : ((fs.inodes r).i_sectors 0 == 0) ≡ false = ground arith in
      let too_many : leb (u32 ((fs.inodes r).i_size + count) / 512 + 1) 140 ≡ false =
        ground arith in
      rw (opened, file_write, write_inode, allowed, io_buf, blocks, has_block, too_many)

  abbrev pub size : ℕ
  size = (fs.inodes r).i_size

  abbrev pub lba : ℕ
  lba = (fs.inodes r).i_sectors (size / sector_size)

  -- The state after the two calls of `sys_malloc`, and the one address that is collected.
  abbrev granted : FileSystem
  granted = record fs { next_ref = fs.next_ref + 1 + 1 }

  abbrev last_block : ℕ → ℕ
  last_block =
      update junk (size / sector_size + 1 - 1)
        ((fs.inodes r).i_sectors (size / sector_size + 1 - 1))
