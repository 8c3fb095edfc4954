-- ===== src/Fs/Directory.antt =====
-- fs/dir.c, and `search_file` of fs/fs.c: the root directory.
pub mod Lookup
use winux_os.Base.{
  ℕ, zero, suc, ◌+◌, ◌-◌, ◌*◌, ◌/◌, ◌%◌, ◌^◌, Bool, true, false, not, Option, none, some, ◌==◌, ltb,
  leb, if◌then◌else◌, ◌&&◌, Bytes, update, splice, u8, u32, Outcome, ok, panic, ◌>>=◌, ◌>>◌, assert,
}
use winux_os.Str.{Cmp, less, equal, greater, strlen, strcmp, memcpy}
use winux_os.Device.Ide.{Disk, overwrite, sector_size}
use winux_os.Fs.{SuperBlock, Inode, FileSystem, alloc, dir_entry_size}
use winux_os.Fs.Words.{encode, word_at}
use winux_os.Fs.InodeTable.{inode_open}
use winux_os.Fs.Files.{block_bitmap, block_bitmap_alloc, bitmap_sync}

-- struct dir_entry: 16 bytes of name, the inode's number, the type.
pub record DirEntry : Type 0 where
  pub filename : Bytes
  pub i_no : ℕ
  pub f_type : ℕ

-- `open_root_dir`; `root_dir.inode` is a member of the model's state.
unfoldable pub open_root_dir : FileSystem → Outcome FileSystem
open_root_dir fs =
    inode_open fs fs.sb.root_inode_no >>= λ (r, fs'). ok (record fs' { root_dir = r })

-- The name is copied without its zero. With no zero in `fuel` bytes the copy has no end.
unfoldable pub create_dir_entry : ℕ → Bytes → ℕ → ℕ → DirEntry → Outcome DirEntry
create_dir_entry fuel filename inode_no file_types p_de = elim (strlen fuel filename) [
  | none ↦ panic
  | some len ↦ ok (record {
    filename = memcpy p_de.filename filename len;
    i_no = inode_no;
    f_type = file_types;
  })
]

-- The bytes of an entry.
unfoldable pub entry_bytes : DirEntry → Bytes
entry_bytes e i =
    if ltb i 16
    then e.filename i
    else encode (λ k. if k == 0 then e.i_no else if k == 1 then e.f_type else 0) (i - 16)

-- Entry `idx` in a buffer, and its members behind the name.
abbrev pub entry_at : Bytes → ℕ → Bytes
entry_at buf idx i = buf (idx * dir_entry_size + i)

unfoldable pub i_no_at : Bytes → ℕ → ℕ
i_no_at buf idx = word_at (entry_at buf idx) 4

unfoldable pub f_type_at : Bytes → ℕ → ℕ
f_type_at buf idx = word_at (entry_at buf idx) 5

-- The first entry of type FT_UNKNOWN; `left` are left.
unfoldable pub find_unknown : Bytes → ℕ → ℕ → Option ℕ
find_unknown buf zero idx = none
find_unknown buf (suc left) idx =
    let rest = find_unknown buf left (idx + 1) in if f_type_at buf idx == 0 then some idx else rest

-- `root_dir.inode` after an entry was added
abbrev grow_root : FileSystem → FileSystem
grow_root fs = record fs {
  inodes = update fs.inodes fs.root_dir (record (fs.inodes fs.root_dir) {
    i_size = u32 ((fs.inodes fs.root_dir).i_size + fs.sb.dir_entry_size);
  });
}

abbrev set_block : FileSystem → ℕ → ℕ → FileSystem
set_block fs k lba = record fs {
  inodes = update fs.inodes fs.root_dir (record (fs.inodes fs.root_dir) {
    i_sectors = update (fs.inodes fs.root_dir).i_sectors k lba;
  });
}

abbrev write_sector : FileSystem → ℕ → Bytes → FileSystem
write_sector fs lba buf = record fs { disk = overwrite fs.disk lba buf 1 }

-- `all_blocks[block_idx]` of `sync_dir_entry`: beyond the direct blocks the array holds zeros.
abbrev root_block : FileSystem → ℕ → ℕ
root_block fs block_idx =
    if ltb block_idx 12 then (fs.inodes fs.root_dir).i_sectors block_idx else 0

-- A block that is not there is allocated and takes the entry. From block 12 on the source leaves
-- `all_blocks[block_idx]` at 0 and writes there.
unfoldable pub new_dir_block : FileSystem → DirEntry → ℕ → Outcome (Bool × FileSystem)
new_dir_block fs e block_idx = block_bitmap_alloc fs >>= λ (found, fs₁). elim found [
  | none ↦ ok (false, fs₁)
  | some lba ↦
      (let fs₂ = bitmap_sync fs₁ (u32 (lba + 2 ^ 32 - fs₁.sb.data_start_lba)) block_bitmap in
        let fs₃ = (if ltb block_idx 12 then set_block fs₂ block_idx lba else fs₂) in
        let at = (if ltb block_idx 12 then lba else 0) in
        ok (
          true,
          grow_root (write_sector fs₃ at (splice (λ _. 0) 0 (entry_bytes e) fs₃.sb.dir_entry_size)),
        ))
]

-- The loop over the blocks; `left` are left.
unfoldable pub sync_blocks : FileSystem → DirEntry → ℕ → ℕ → Outcome (Bool × FileSystem)
unfolding new_dir_block find_unknown
sync_blocks fs e zero block_idx = ok (false, fs)
sync_blocks fs e (suc left) block_idx =
    let lba = root_block fs block_idx in
    let buf = fs.disk lba in
    let rest = sync_blocks fs e left (block_idx + 1) in
    if lba == 0
    then new_dir_block fs e block_idx
    else elim (find_unknown buf (sector_size / fs.sb.dir_entry_size) 0) [
      | none ↦ rest
      | some k ↦ ok (
        true,
        grow_root (
            write_sector fs lba
              (splice buf (k * dir_entry_size) (entry_bytes e) fs.sb.dir_entry_size)),
      )
    ]

unfoldable pub sync_dir_entry : FileSystem → DirEntry → Outcome (Bool × FileSystem)
unfolding sync_blocks
sync_dir_entry fs e = sync_blocks fs e 140 0

-- The entries of one block against a name: `strcmp` is given `fuel` bytes.
unfoldable pub search_block : ℕ → Bytes → Bytes → ℕ → ℕ → Outcome (Option ℕ)
search_block fuel buf name zero idx = ok none
search_block fuel buf name (suc left) idx =
    let rest = search_block fuel buf name left (idx + 1) in
    elim (strcmp fuel (entry_at buf idx) name) [
      | none ↦ panic
      | some equal ↦ ok (some (i_no_at buf idx))
      | some less ↦ rest
      | some greater ↦ rest
    ]

unfoldable pub search_blocks : ℕ → FileSystem → (ℕ → ℕ) → Bytes → ℕ → ℕ → Outcome (Option ℕ)
unfolding search_block
search_blocks fuel fs all_blocks name zero block_idx = ok none
search_blocks fuel fs all_blocks name (suc left) block_idx =
    let rest = search_blocks fuel fs all_blocks name left (block_idx + 1) in
    let lba = all_blocks block_idx in
    if lba == 0
    then rest
    else search_block fuel (fs.disk lba) name (sector_size / fs.sb.dir_entry_size) 0 >>= λ found.
        elim found [ none ↦ rest | some i_no ↦ ok (some i_no) ]

-- `all_blocks` of `search_file`: `junk` is what `sys_malloc` leaves where nothing is read.
unfoldable pub root_blocks : (ℕ → ℕ) → FileSystem → ℕ → ℕ
root_blocks junk fs i =
    let inode = fs.inodes fs.root_dir in
    if ltb i 12
    then inode.i_sectors i
    else if inode.i_sectors 12 == 0
    then junk i
    else word_at (fs.disk (inode.i_sectors 12)) (i - 12)

-- The second buffer is used without a test; the length is a `uint8_t`.
unfoldable pub search_file : ℕ → (ℕ → ℕ) → FileSystem → Bytes → Outcome (Option ℕ × FileSystem)
unfolding root_blocks search_blocks
search_file fuel junk fs pathname = elim (strlen fuel pathname) [
  | none ↦ panic
  | some len ↦
      (let (all, fs₁) = alloc fs in
        let (buf, fs₂) = alloc fs₁ in
        assert (pathname 0 == 47 && ltb 1 (u8 len) && ltb (u8 len) 512) >> elim all [
          | none ↦ panic
          | some a ↦ elim buf [
            | none ↦ panic
            | some b ↦
                search_blocks fuel fs (root_blocks junk fs) (λ i. pathname (i + 1)) 140 0
                >>= λ found. ok (found, fs₂)
          ]
        ])
]
