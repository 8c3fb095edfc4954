-- ===== src/Fs/Open/Missing.antt =====
-- fs/fs.c: searching and opening a file that is not in the root directory.
use winux_os.Base.{
  ℕ, zero, suc, ◌+◌, ◌-◌, ◌/◌, ◌^◌, ◌<◌, ◌≡◌, ◌≢◌, ◌⊎◌, inl, inr, refl, ap, Bool-cases, true, false,
  ◌==◌, none, some, ◌∷◌, Bytes, u32, has_bit, arith, update, update_self, ok,
}
use winux_os.Str.{less, greater, strlen, strcmp}
use winux_os.Device.Ide.{sector_size}
use winux_os.Fs.{FileSystem, File, alloc, dir_entry_size}
use winux_os.Fs.InodeTable.{read_inode, inode_locate, on_disk, find_open, load_inode, inode_open}
use winux_os.Fs.Files.{
  is_none, is_write, find_slot, get_free_slot_in_global, pcb_fd_install, claim, file_open,
}
use winux_os.Fs.Directory.{entry_at, search_block, search_blocks, root_blocks, search_file}
use winux_os.Fs.Directory.Lookup.{path_ok}
use winux_os.Fs.Open.{sys_open}

-- An entry compares unequal to the name.
abbrev pub Differs : ℕ → Bytes → Bytes → Type 0
Differs fuel entry name =
    (strcmp fuel entry name ≡ some less) ⊎ (strcmp fuel entry name ≡ some greater)

-- No entry of a block of the directory has the name; `junk` is what the memory of `all_blocks` held.
abbrev pub IsMissing : ℕ → (ℕ → ℕ) → FileSystem → Bytes → Type 0
IsMissing fuel junk fs name =
    (i j : ℕ)
    → i < 140
    → root_blocks junk fs i ≢ 0
    → j < 21
    → Differs fuel (entry_at (fs.disk (root_blocks junk fs i)) j) name

search_block-missing :
    (fuel : ℕ) (buf name : Bytes) (left idx : ℕ)
    → ((j : ℕ) → j < idx + left → Differs fuel (entry_at buf j) name)
    → search_block fuel buf name left idx ≡ ok none
unfolding search_block
search_block-missing fuel buf name zero idx other = refl
search_block-missing fuel buf name (suc left) idx other =
    let go = search_block-missing fuel buf name left (idx + 1) (λ j p. other j (omega arith)) in
    elim (other idx (omega arith)) [
      | inl e ↦ rw (search_block, e) go
      | inr e ↦ rw (search_block, e) go
    ]

search_blocks-missing :
    (fuel : ℕ) (fs : FileSystem) (all_blocks : ℕ → ℕ) (name : Bytes) (left idx : ℕ)
    → fs.sb.dir_entry_size ≡ dir_entry_size
    → ((i j : ℕ)
        → i < idx + left
        → all_blocks i ≢ 0
        → j < 21
        → Differs fuel (entry_at (fs.disk (all_blocks i)) j) name)
    → search_blocks fuel fs all_blocks name left idx ≡ ok none
unfolding search_blocks
search_blocks-missing fuel fs all_blocks name zero idx size other = refl
search_blocks-missing fuel fs all_blocks name (suc left) idx size other =
    let go =
      search_blocks-missing fuel fs all_blocks name left (idx + 1) size
        (λ i j p. other i j (omega arith)) in
    let entries : sector_size / fs.sb.dir_entry_size ≡ 21 = rw size in
    elim (Bool-cases (all_blocks idx == 0)) [
      | inl absent ↦ rw absent go
      | inr there ↦
          let block =
            search_block-missing fuel (fs.disk (all_blocks idx)) name 21 0
              (λ j p. other idx j (omega arith) (ground arith) p) in
          rw (there, entries, block) go
    ]

module _ (fuel : ℕ) (junk : ℕ → ℕ) (fs : FileSystem) (pathname : Bytes) (len : ℕ)
    (size : fs.sb.dir_entry_size ≡ dir_entry_size) (sl : strlen fuel pathname ≡ some len)
    (slash : pathname 0 ≡ 47) (long : 1 < len) (short : len < 256)
    (memory : (n : ℕ) → fs.grants n ≡ true)
    (missing : IsMissing fuel junk fs (λ i. pathname (i + 1))) where
  -- Two buffers are taken and not given back.
  abbrev searched : FileSystem
  searched = record fs { next_ref = fs.next_ref + 1 + 1 }

  pub search_file-missing : search_file fuel junk fs pathname ≡ ok (none, searched)
  unfolding search_file alloc
  search_file-missing =
      let (s₀, s₁, s₂) = path_ok (pathname 0) len slash long short in
      let none_found =
        search_blocks-missing fuel fs (root_blocks junk fs) (λ i. pathname (i + 1)) 140 0 size
          (λ i j p. missing i j (omega arith)) in
      rw (search_file, sl, s₀, s₁, s₂, memory fs.next_ref, memory (fs.next_ref + 1), none_found)

  -- On a disk that has this sector, opening for reading gives a descriptor all the same, whose inode
  -- is what that sector holds.
  sys_open-missing_on_disk :
      (flags fd_idx fd : ℕ)
      → has_bit flags 2 ≡ false
      → is_write flags ≡ false
      → find_open fs.inodes fs.open_inodes (2 ^ 32 - 1) ≡ none
      → get_free_slot_in_global fs ≡ some fd_idx
      → find_slot (λ i. is_none (fs.fd_table i)) 5 3 ≡ some fd
      → u32 (fs.sb.inode_table_lba + 8388607) < fs.disk_sects
      → (fs' : FileSystem) × (r : ℕ) × (sys_open fuel junk fs pathname flags ≡ ok (some fd, fs'))
        × (fs'.fd_table fd ≡ some fd_idx)
        × ((fs'.file_table fd_idx).fd_inode ≡ some r)
        × (fs'.inodes r ≡ record (read_inode fs.disk fs.sb (2 ^ 32 - 1)) { i_open_cnts = 1 })
        × ((inode_locate fs.sb (2 ^ 32 - 1)).sec_lba ≡ u32 (fs.sb.inode_table_lba + 8388607))
  unfolding sys_open file_open claim pcb_fd_install inode_open load_inode alloc inode_locate
      get_free_slot_in_global
  sys_open-missing_on_disk flags fd_idx fd no_creat reads new slot free large =
      let r = fs.next_ref + 1 + 1 in
      let slot' : find_slot (λ i. is_none (fs.file_table i).fd_inode) 29 3 ≡ some fd_idx = slot in
      let there : on_disk fs (inode_locate fs.sb (2 ^ 32 - 1)) ≡ true = ground arith in
      let g₁ = memory r in
      let g₂ = memory (r + 1) in
      let file : File = record { fd_pos = 0; fd_flag = flags; fd_inode = some r } in
      let final : FileSystem = record fs {
        next_ref = r + 1 + 1;
        inodes =
            update fs.inodes r (record (read_inode fs.disk fs.sb (2 ^ 32 - 1)) { i_open_cnts = 1 });
        open_inodes = r ∷ fs.open_inodes;
        file_table = update fs.file_table fd_idx file;
        fd_table = update fs.fd_table fd (some fd_idx);
      } in
      (
        final,
        r,
        rw
            (
              search_file-missing, no_creat, file_open, get_free_slot_in_global, slot', inode_open,
              new, load_inode, alloc, g₁, g₂, there, claim, reads, pcb_fd_install, free,
            )
            refl,
        ground arith,
        ap (λ (f : File). f.fd_inode) (update_self fs.file_table fd_idx file),
        update_self fs.inodes r _,
        ap u32 (omega arith),
      )
