-- ===== src/Fs/Open.antt =====
-- fs/fs.c: creating and opening files, and the system calls on descriptors.
pub mod Missing
pub mod Create
use winux_os.Base.{
  ℕ, ◌+◌, ◌-◌, ◌^◌, false, not, Option, none, some, ◌∷◌, ◌==◌, leb, if◌then◌else◌, ◌&&◌, ◌||◌,
  Bytes, update, has_bit, ok, panic, ◌>>=◌,
}
use winux_os.Fs.{FileSystem, File, alloc}
use winux_os.Fs.InodeTable.{inode_init, inode_sync}
use winux_os.Fs.Files.{
  is_none, inode_bitmap, inode_bitmap_alloc, bitmap_sync, get_free_slot_in_global, pcb_fd_install,
  set_file, set_write_deny, file_open, fd_local2global,
}
use winux_os.Fs.Directory.{DirEntry, create_dir_entry, sync_dir_entry, search_file}
use winux_os.Fs.Write.{Run, ◌>>?◌, file_write}

-- FT_REGULAR
abbrev pub ft_regular : ℕ
ft_regular = 1

-- The inode's number: -1 from the bitmap goes on as a uint32_t.
abbrev number_of : Option ℕ → ℕ
number_of none = 2 ^ 32 - 1
number_of (some n) = n

abbrev pub empty_entry : DirEntry
empty_entry = record { filename = λ _. 0; i_no = 0; f_type = 0 }

-- Numbers 1 to 4 of the comments in the source: the entry, the inode, the bitmap, the list.
unfoldable pub store_new : FileSystem → DirEntry → ℕ → ℕ → ℕ → Run ℕ
store_new fs entry inode_no r fd_idx = sync_dir_entry fs entry >>= λ (done, fs₁).
    if not done
    then ok (none, fs₁)
    else (let fs₂ = record fs₁ { disk = inode_sync fs₁.disk fs₁.sb (fs₁.inodes r) } in
        let fs₃ = bitmap_sync fs₂ inode_no inode_bitmap in
        ok (
          pcb_fd_install
            (record fs₃ {
              open_inodes = r ∷ fs₃.open_inodes;
              inodes = update fs₃.inodes r (record (fs₃.inodes r) { i_open_cnts = 1 });
            })
            fd_idx))

-- `filename` starts with a slash, which is skipped; `fuel` is for the length of the name.
unfoldable pub file_create : ℕ → FileSystem → Bytes → ℕ → Run ℕ
unfolding store_new
file_create fuel fs filename flags = inode_bitmap_alloc fs >>= λ (found, fs₁).
    let inode_no = number_of found in
    ok (alloc fs₁) >>? λ r fs₂.
    let fs₃ = record fs₂ { inodes = update fs₂.inodes r (inode_init inode_no (fs₂.inodes r)) } in
    elim (get_free_slot_in_global fs₃) [
      | none ↦ ok (none, fs₃)
      | some fd_idx ↦
          (let file : File = record { fd_pos = 0; fd_flag = flags; fd_inode = some r } in
            let fs₄ = set_write_deny (set_file fs₃ fd_idx file) r false in
            create_dir_entry fuel (λ i. filename (i + 1)) inode_no ft_regular empty_entry
            >>= λ entry. ok (alloc fs₄) >>? λ io_buf fs₅. store_new fs₅ entry inode_no r fd_idx)
    ]

-- O_CREAT is bit 2 of the flags.
unfoldable pub sys_open : ℕ → (ℕ → ℕ) → FileSystem → Bytes → ℕ → Run ℕ
unfolding file_create
sys_open fuel junk fs pathname flags = search_file fuel junk fs pathname >>= λ (inode_no, fs₁).
    let found = not (is_none inode_no) in
    if found && has_bit flags 2
    then ok (none, fs₁)
    else if not found && has_bit flags 2
    then file_create fuel fs₁ pathname flags
    else file_open fs₁ (number_of inode_no) flags

-- What a call puts on the console; `console_put_str` is not modelled further.
pub data Written : Type 0 where
  on_console : Written
  on_disk : Written

-- `sys_write`; a negative descriptor is `none`. Text for stdout is copied to 1024 bytes on the
-- stack, so a longer one writes past them: the model stops there.
unfoldable pub sys_write : (ℕ → ℕ) → FileSystem → Option ℕ → Bytes → ℕ → Run (ℕ × Written)
sys_write junk fs none buf count = ok (none, fs)
sys_write junk fs (some fd) buf count =
    if fd == 1
    then if leb count 1024 then ok (some (count, on_console), fs) else panic
    else (fd_local2global fs fd >>= λ global_fd.
        let flag = (fs.file_table global_fd).fd_flag in
        if has_bit flag 0 || has_bit flag 1
        then (file_write junk fs global_fd buf count >>? λ bytes_written fs₁.
            ok (some (bytes_written, on_disk), fs₁))
        else ok (none, fs))
