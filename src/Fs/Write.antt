-- ===== src/Fs/Write.antt =====
-- fs/file.c: `file_write`.
pub mod Chunks
pub mod Limit
use winux_os.Base.{
  ℕ, zero, suc, ◌+◌, ◌-◌, ◌*◌, ◌/◌, ◌%◌, ◌^◌, min, Bool, true, false, not, Option, none, some, ◌==◌,
  ltb, leb, if◌then◌else◌, ◌&&◌, ◌||◌, Bytes, update, splice, u32, Outcome, ok, panic, ◌>>=◌, ◌>>◌,
  assert,
}
use winux_os.Device.Ide.{Disk, overwrite, sector_size}
use winux_os.Fs.{SuperBlock, Inode, FileSystem, File, alloc}
use winux_os.Fs.Words.{encode, word_at}
use winux_os.Fs.InodeTable.{inode_sync}
use winux_os.Fs.Files.{block_bitmap, block_bitmap_alloc, bitmap_sync, set_file}

-- The rest of a function body: it returns -1 (`none`) or goes on with a value.
abbrev pub Run : Type 0 → Type 0
Run A = Outcome (Option A × FileSystem)

infixl 5 ◌>>?◌
abbrev pub ◌>>?◌ : {A B : Type 0} → Run A → (A → FileSystem → Run B) → Run B
m >>? f = m >>= λ (x, fs). elim x [ none ↦ ok (none, fs) | some a ↦ f a fs ]

-- `fd_inode->i_sectors[k] = lba`
abbrev pub set_sector : FileSystem → ℕ → ℕ → ℕ → FileSystem
set_sector fs r k lba = record fs {
  inodes =
      update fs.inodes r
        (record (fs.inodes r) { i_sectors = update (fs.inodes r).i_sectors k lba });
}

-- The index in the block bitmap of a sector's address
abbrev pub block_bitmap_idx : FileSystem → ℕ → ℕ
block_bitmap_idx fs lba = u32 (lba + 2 ^ 32 - fs.sb.data_start_lba)

-- A file that is written for the first time gets a block.
unfoldable pub first_block : FileSystem → ℕ → Run Unit
first_block fs r =
    if (fs.inodes r).i_sectors 0 == 0
    then (block_bitmap_alloc fs >>? λ lba fs₁.
        let fs₂ = set_sector fs₁ r 0 lba in
        let idx = block_bitmap_idx fs₂ lba in
        assert (not (idx == 0)) >> ok (some tt, bitmap_sync fs₂ idx block_bitmap))
    else ok (some tt, fs)

-- The three loops that allocate blocks: a direct block is also put into the inode; in the first
-- loop every index is below 12, in the third none is. `left` indices are left.
unfoldable pub add_blocks : FileSystem → ℕ → (ℕ → ℕ) → ℕ → ℕ → Run (ℕ → ℕ)
add_blocks fs r all_blocks zero block_idx = ok (some all_blocks, fs)
add_blocks fs r all_blocks (suc left) block_idx = block_bitmap_alloc fs >>? λ lba fs₁.
    let all = update all_blocks block_idx lba in
    let idx = block_bitmap_idx fs₁ lba in
    let direct = ltb block_idx 12 in
    let fs₂ = (if direct then set_sector fs₁ r block_idx lba else fs₁) in
    assert (not direct || (fs₁.inodes r).i_sectors block_idx == 0)
    >> add_blocks (bitmap_sync fs₂ idx block_bitmap) r all left (block_idx + 1)

-- `ide_read(indirect_block_table, all_blocks + 12, 1)` and the `ide_write` of the same.
unfoldable pub read_table : FileSystem → ℕ → (ℕ → ℕ) → ℕ → ℕ
read_table fs table all_blocks =
    λ i. if leb 12 i && ltb i 140 then word_at (fs.disk table) (i - 12) else all_blocks i

unfoldable pub write_table : FileSystem → ℕ → (ℕ → ℕ) → FileSystem
write_table fs table all_blocks = record fs {
  disk = overwrite fs.disk table (encode (λ k. all_blocks (12 + k))) 1;
}

-- The addresses of the blocks to write, for a file that has `has` blocks and will have `will`.
unfoldable pub collect : FileSystem → ℕ → (ℕ → ℕ) → ℕ → ℕ → Run (ℕ → ℕ)
collect fs r all_blocks has will =
    let i_sectors = (fs.inodes r).i_sectors in
    let last = update all_blocks (has - 1) (i_sectors (has - 1)) in
    let table = i_sectors 12 in
    if will == has
    then if leb has 12
      then ok (some last, fs)
      else assert (not (table == 0)) >> ok (some (read_table fs table all_blocks), fs)
    else if leb will 12
    then assert (not (i_sectors (has - 1) == 0)) >> add_blocks fs r last (will - has) has
    else if leb has 12
    then (block_bitmap_alloc fs >>? λ lba fs₁.
        assert ((fs₁.inodes r).i_sectors 12 == 0)
        >> (add_blocks (set_sector fs₁ r 12 lba) r last (will - has) has >>? λ all fs₂.
            ok (some all, write_table fs₂ lba all)))
    else (assert (not (table == 0))
        >> (add_blocks fs r (read_table fs table all_blocks) (will - has) has >>? λ all fs₁.
            ok (some all, write_table fs₁ table all)))

-- What the loop over the chunks changes.
pub record Cursor : Type 0 where
  pub disk : Disk
  pub i_size : ℕ
  pub fd_pos : ℕ

-- One chunk: its size, and the cursor after it.
unfoldable pub chunk_size : ℕ → ℕ → ℕ
chunk_size i_size size_left =
    let sec_left_bytes = sector_size - i_size % sector_size in
    if ltb size_left sec_left_bytes then size_left else sec_left_bytes

unfoldable pub write_chunk : Cursor → (ℕ → ℕ) → Bytes → ℕ → Bool → Cursor
write_chunk c all_blocks src chunk first_write_block =
    let sec_lba = all_blocks (c.i_size / sector_size) in
    let io_buf : Bytes = (if first_write_block then c.disk sec_lba else λ _. 0) in
    record {
      disk = overwrite c.disk sec_lba (splice io_buf (c.i_size % sector_size) src chunk) 1;
      i_size = u32 (c.i_size + chunk);
      fd_pos = u32 (c.fd_pos + chunk);
    }

-- `while (bytes_written < count)`, on fuel: every chunk has a byte.
unfoldable pub write_chunks : ℕ → Cursor → (ℕ → ℕ) → Bytes → ℕ → Bool → Cursor
unfolding chunk_size write_chunk
write_chunks zero c all_blocks src size_left first_write_block = c
write_chunks (suc fuel) c all_blocks src size_left first_write_block =
    let chunk = chunk_size c.i_size size_left in
    let rest =
      write_chunks fuel (write_chunk c all_blocks src chunk first_write_block) all_blocks
        (λ i. src (chunk + i)) (size_left - chunk) false in
    if size_left == 0 then c else rest

-- The loop, on the file's members, and `inode_sync`.
unfoldable pub write_data : FileSystem → ℕ → ℕ → (ℕ → ℕ) → Bytes → ℕ → FileSystem
write_data fs fd_idx r all_blocks buf count =
    let start : Cursor = record {
      disk = fs.disk;
      i_size = (fs.inodes r).i_size;
      fd_pos = u32 ((fs.inodes r).i_size + 2 ^ 32 - 1);
    } in
    let c = write_chunks count start all_blocks buf count true in
    let inode = record (fs.inodes r) { i_size = c.i_size } in
    let fs₁ = set_file fs fd_idx (record (fs.file_table fd_idx) { fd_pos = c.fd_pos }) in
    record fs₁ { inodes = update fs.inodes r inode; disk = inode_sync c.disk fs.sb inode }

-- `file_write` for an inode in memory; `junk` is what `sys_malloc` leaves in `all_blocks`.
unfoldable pub write_inode : (ℕ → ℕ) → FileSystem → ℕ → ℕ → Bytes → ℕ → Run ℕ
unfolding first_block collect write_data
write_inode junk fs fd_idx r buf count =
    if ltb (512 * 140) (u32 ((fs.inodes r).i_size + count))
    then ok (none, fs)
    else (ok (alloc fs) >>? λ io_buf fs₁. ok (alloc fs₁) >>? λ all fs₂.
        first_block fs₂ r >>? λ done fs₃.
        let has = (fs₃.inodes r).i_size / 512 + 1 in
        let will = u32 ((fs₃.inodes r).i_size + count) / 512 + 1 in
        assert (leb will 140)
        >> (collect fs₃ r junk has will >>? λ all_blocks fs₄.
            ok (some count, write_data fs₄ fd_idx r all_blocks buf count)))

-- `file_write` of an entry of the file table.
unfoldable pub file_write : (ℕ → ℕ) → FileSystem → ℕ → Bytes → ℕ → Run ℕ
unfolding write_inode
file_write junk fs fd_idx buf count = elim (fs.file_table fd_idx).fd_inode [
  | none ↦ panic
  | some r ↦ write_inode junk fs fd_idx r buf count
]
