-- ===== src/Fs/Read.antt =====
-- fs/file.c: `file_read`, whose first ASSERT always fails, with the body behind it; fs/fs.c:
-- `sys_read`.
pub mod Blocks
use winux_os.Base.{
  ℕ, zero, suc, ◌+◌, ◌-◌, ◌/◌, ◌%◌, ◌^◌, Bool, true, false, not, ◌&&◌, Option, none, some, ◌==◌,
  ltb, leb, if◌then◌else◌, Bytes, splice, u32, Outcome, ok, panic, ◌>>=◌, ◌>>◌, assert, update,
}
use winux_os.Device.Ide.{Disk, sector_size}
use winux_os.Fs.{Inode, FileSystem, File, alloc}
use winux_os.Fs.Files.{set_file, fd_local2global}
use winux_os.Fs.Write.{Run, ◌>>?◌, read_table}

-- What the loop changes: the place in the file and the buffer.
pub record Reader : Type 0 where
  pub fd_pos : ℕ
  pub buf : Bytes

unfoldable pub read_size : ℕ → ℕ → ℕ
read_size fd_pos size_left =
    let sec_left_bytes = sector_size - fd_pos % sector_size in
    if ltb size_left sec_left_bytes then size_left else sec_left_bytes

-- One round: a sector is read and the chunk copied to `buf_dst`, which is `buf + done`.
unfoldable pub read_chunk : Disk → (ℕ → ℕ) → Reader → ℕ → ℕ → Reader
read_chunk disk all_blocks r done chunk =
    let io_buf = disk (all_blocks (r.fd_pos / sector_size)) in
    record {
      fd_pos = u32 (r.fd_pos + chunk);
      buf = splice r.buf done (λ i. io_buf (r.fd_pos % sector_size + i)) chunk;
    }

-- `while (bytes_read < size)`, on fuel: every chunk has a byte.
unfoldable pub read_chunks : ℕ → Disk → (ℕ → ℕ) → Reader → ℕ → ℕ → Reader
unfolding read_size read_chunk
read_chunks zero disk all_blocks r done size_left = r
read_chunks (suc fuel) disk all_blocks r done size_left =
    let chunk = read_size r.fd_pos size_left in
    let rest =
      read_chunks fuel disk all_blocks (read_chunk disk all_blocks r done chunk) (done + chunk)
        (size_left - chunk) in
    if size_left == 0 then r else rest

-- Direct blocks `first` to `last` are taken from the inode.
abbrev pub direct_blocks : (ℕ → ℕ) → (ℕ → ℕ) → ℕ → ℕ → ℕ → ℕ
direct_blocks i_sectors all_blocks first last i =
    if leb first i && leb i last then i_sectors i else all_blocks i

-- The addresses of the blocks to read.
unfoldable pub gather : FileSystem → (ℕ → ℕ) → (ℕ → ℕ) → ℕ → ℕ → Outcome (ℕ → ℕ)
gather fs i_sectors all_blocks first last =
    let table = i_sectors 12 in
    if first == last
    then (if ltb last 12
        then ok (direct_blocks i_sectors all_blocks last last)
        else ok (read_table fs table all_blocks))
    else if ltb last 12
    then ok (direct_blocks i_sectors all_blocks first last)
    else if ltb first 12
    then (assert (not (table == 0))
        >> ok (read_table fs table (direct_blocks i_sectors all_blocks first 11)))
    else (assert (not (table == 0)) >> ok (read_table fs table all_blocks))

-- The body behind the first ASSERT, for an inode in memory and `size` bytes. Without memory for
-- `io_buf` it goes on with NULL, and `memset` stops in its ASSERT.
unfoldable pub read_inode_bytes : (ℕ → ℕ) → FileSystem → ℕ → Inode → Bytes → ℕ → Run (ℕ × Bytes)
unfolding gather read_chunks
read_inode_bytes junk fs fd_idx inode buf size =
    let pos = (fs.file_table fd_idx).fd_pos in
    let (io_buf, fs₁) = alloc fs in
    ok (alloc fs₁) >>? λ all fs₂.
    let first = pos / sector_size in
    let last = u32 (pos + size) / sector_size in
    assert (ltb first 139 && ltb last 139)
    >> (gather fs₂ inode.i_sectors junk first last >>= λ all_blocks. elim io_buf [
      | none ↦ if size == 0 then ok (some (0, buf), fs₂) else panic
      | some _ ↦
          let r =
            read_chunks size fs₂.disk all_blocks (record { fd_pos = pos; buf = buf }) 0 size in
          ok (
            some (size, r.buf),
            set_file fs₂ fd_idx (record (fs₂.file_table fd_idx) { fd_pos = r.fd_pos }),
          )
    ])

-- The size is cut to what is left of the file; at its end the result is -1.
unfoldable pub read_body : (ℕ → ℕ) → FileSystem → ℕ → ℕ → Bytes → ℕ → Run (ℕ × Bytes)
unfolding read_inode_bytes
read_body junk fs fd_idx r buf count =
    let inode = fs.inodes r in
    let pos = (fs.file_table fd_idx).fd_pos in
    let left = u32 (inode.i_size + 2 ^ 32 - pos) in
    if ltb inode.i_size (u32 (pos + count))
    then (if left == 0 then ok (none, fs) else read_inode_bytes junk fs fd_idx inode buf left)
    else read_inode_bytes junk fs fd_idx inode buf count

unfoldable pub file_read : (ℕ → ℕ) → FileSystem → ℕ → Bytes → ℕ → Run (ℕ × Bytes)
unfolding read_body
file_read junk fs fd_idx buf count = assert false >> (elim (fs.file_table fd_idx).fd_inode [
  | none ↦ panic
  | some r ↦ read_body junk fs fd_idx r buf count
])

-- `sys_read`; a negative descriptor is `none`.
unfoldable pub sys_read : (ℕ → ℕ) → FileSystem → Option ℕ → Bytes → ℕ → Run (ℕ × Bytes)
unfolding file_read
sys_read junk fs none buf count = ok (none, fs)
sys_read junk fs (some fd) buf count =
    fd_local2global fs fd >>= λ global_fd. file_read junk fs global_fd buf count
