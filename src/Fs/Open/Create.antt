-- ===== src/Fs/Open/Create.antt =====
-- fs/fs.c: `sys_open` with O_CREAT of a new file.
use winux_os.Base.{
  ℕ, ◌+◌, ◌-◌, ◌/◌, ◌<◌, ◌≤◌, ◌≡◌, ◌≢◌, refl, sym, ap, ◌∙◌, true, false, some, ◌∷◌, Bytes, has_bit,
  arith, update, update_self, ok, fun_ext,
}
use winux_os.Str.{equal, strlen, strcmp, memcpy}
use winux_os.Bitmap.{Bitmap}
use winux_os.Device.Ide.{Disk, sector_size, overwrite}
use winux_os.Fs.{SuperBlock, FileSystem, File, Inode, alloc, dir_entry_size}
use winux_os.Fs.InodeTable.{inode_locate, inode_init, inode_sync}
use winux_os.Fs.Files.{
  is_none, find_slot, get_free_slot_in_global, pcb_fd_install, take_bit, inode_bitmap_alloc,
  set_file, set_write_deny, bitmap_sync, inode_bitmap,
}
use winux_os.Fs.Directory.{
  DirEntry, entry_at, find_unknown, create_dir_entry, search_blocks, root_blocks, search_file,
}
use winux_os.Fs.Directory.Lookup.{
  path_ok, with_entry, stored, sync_dir_entry-stored, find_unknown-first, search_block-hit,
  search_blocks-first, i_no-with_entry,
}
use winux_os.Fs.Open.{sys_open, file_create, store_new, ft_regular}
use winux_os.Fs.Open.Missing.{Differs, IsMissing, search_file-missing}

-- The entry that is written: the first `l` bytes of the name over zeros.
abbrev pub entry_of : Bytes → ℕ → ℕ → DirEntry
entry_of name l n = record { filename = memcpy (λ _. 0) name l; i_no = n; f_type = ft_regular }

install :
    (fs : FileSystem) (global fd : ℕ)
    → find_slot (λ i. is_none (fs.fd_table i)) 5 3 ≡ some fd
    → pcb_fd_install fs global
      ≡ (some fd, record fs { fd_table = update fs.fd_table fd (some global) })
unfolding pcb_fd_install
install fs global fd free = rw (pcb_fd_install, free) refl

-- The two tables' sectors lie before sector `s`.
bitmap_sync-behind :
    (fs : FileSystem) (n s i : ℕ)
    → n < 4096
    → fs.sb.inode_bitmap_lba < s
    → (bitmap_sync fs n inode_bitmap).disk s i ≡ fs.disk s i
unfolding bitmap_sync
bitmap_sync-behind fs n s i below h = ground arith

inode_sync-behind :
    (disk : Disk) (sb : SuperBlock) (inode : Inode) (s i : ℕ)
    → (inode_locate sb inode.i_no).sec_lba + 2 ≤ s
    → inode_sync disk sb inode s i ≡ disk s i
unfolding inode_sync
inode_sync-behind disk sb inode s i h = ground arith

module _ (fuel : ℕ) (junk : ℕ → ℕ) (fs : FileSystem) (pathname : Bytes)
    (len l n k flags fd_idx fd : ℕ) (m : Bitmap) (size : fs.sb.dir_entry_size ≡ dir_entry_size)
    (sl : strlen fuel pathname ≡ some len) (slash : pathname 0 ≡ 47) (long : 1 < len)
    (short : len < 256) (memory : (i : ℕ) → fs.grants i ≡ true)
    (missing : IsMissing fuel junk fs (λ i. pathname (i + 1)))
    (named : strlen fuel (λ i. pathname (i + 1)) ≡ some l) (creat : has_bit flags 2 ≡ true)
    (taken : take_bit fs.inode_bitmap ≡ ok (some n, m)) (below : n < 4096)
    (slot : get_free_slot_in_global fs ≡ some fd_idx)
    (free : find_slot (λ i. is_none (fs.fd_table i)) 5 3 ≡ some fd)
    (older : fs.root_dir < fs.next_ref) (there : (fs.inodes fs.root_dir).i_sectors 0 ≢ 0)
    (unknown : find_unknown (fs.disk ((fs.inodes fs.root_dir).i_sectors 0)) 21 0 ≡ some k) where
  abbrev name : Bytes
  name i = pathname (i + 1)

  abbrev entry : DirEntry
  entry = entry_of name l n

  abbrev r : ℕ
  r = fs.next_ref + 1 + 1

  -- The state before the entry is written.
  abbrev numbered : FileSystem
  numbered = record fs {
    inode_bitmap = m;
    next_ref = r + 1;
    inodes = update fs.inodes r (inode_init n (fs.inodes r));
  }

  abbrev prepared : FileSystem
  prepared =
      let fs₄ =
        set_write_deny
          (set_file numbered fd_idx (record { fd_pos = 0; fd_flag = flags; fd_inode = some r })) r
          false in
      record fs₄ { next_ref = r + 1 + 1 }

  root_kept : prepared.inodes fs.root_dir ≡ fs.inodes fs.root_dir
  root_kept = ground arith

  abbrev root_lba : ℕ
  root_lba = (fs.inodes fs.root_dir).i_sectors 0

  prepared_there : (prepared.inodes prepared.root_dir).i_sectors 0 ≢ 0
  prepared_there e = there (sym (ap (λ (i : Inode). i.i_sectors 0) root_kept) ∙ e)

  prepared_unknown :
      find_unknown (prepared.disk ((prepared.inodes prepared.root_dir).i_sectors 0)) 21 0 ≡ some k
  prepared_unknown =
      ap (λ (i : Inode). find_unknown (fs.disk (i.i_sectors 0)) 21 0) root_kept ∙ unknown

  abbrev after : FileSystem
  after = stored fuel junk prepared entry k size prepared_there prepared_unknown

  -- The state before the descriptor is given out.
  abbrev synced : FileSystem
  synced =
      let fs₂ = record after { disk = inode_sync after.disk after.sb (after.inodes r) } in
      let fs₃ = bitmap_sync fs₂ n inode_bitmap in
      record fs₃ {
        open_inodes = r ∷ fs₃.open_inodes;
        inodes = update fs₃.inodes r (record (fs₃.inodes r) { i_open_cnts = 1 });
      }

  abbrev final : FileSystem
  final = record synced { fd_table = update synced.fd_table fd (some fd_idx) }

  slot_kept : get_free_slot_in_global numbered ≡ some fd_idx
  unfolding get_free_slot_in_global
  slot_kept = slot

  table_kept : find_slot (λ i. is_none (synced.fd_table i)) 5 3 ≡ some fd
  unfolding bitmap_sync
  table_kept = free

  created :
      file_create fuel (record fs { next_ref = fs.next_ref + 1 + 1 }) pathname flags
      ≡ ok (some fd, final)
  unfolding file_create inode_bitmap_alloc alloc create_dir_entry store_new
  created =
      let g₁ = memory r in
      let g₂ = memory (r + 1) in
      let wrote =
        sync_dir_entry-stored fuel junk prepared entry k size prepared_there prepared_unknown in
      ground (arith, taken, g₁, slot_kept, named, g₂, wrote, install synced fd_idx fd table_kept)

  module _ (table : (inode_locate fs.sb n).sec_lba + 2 ≤ root_lba)
      (map_before : fs.sb.inode_bitmap_lba < root_lba) where
    abbrev block : Bytes
    block = with_entry (fs.disk root_lba) k entry

    prepared_root : (prepared.inodes prepared.root_dir).i_sectors 0 ≡ root_lba
    prepared_root = ap (λ (i : Inode). i.i_sectors 0) root_kept

    after_block : (i : ℕ) → after.disk root_lba i ≡ block i
    after_block i =
        let zero : root_lba - root_lba ≡ 0 = omega arith in
        ap (λ lba. overwrite fs.disk lba (with_entry (fs.disk lba) k entry) 1 root_lba i)
          prepared_root
        ∙ ground (arith, zero)

    number : (after.inodes r).i_no ≡ n
    unfolding inode_init
    number = ground arith

    empty : (after.inodes r).i_size ≡ 0
    unfolding inode_init
    empty = ground arith

    final_block : final.disk root_lba ≡ block
    unfolding bitmap_sync
    final_block =
        let at = ap (λ j. (inode_locate fs.sb j).sec_lba) number in
        let fs₂ = record after { disk = inode_sync after.disk after.sb (after.inodes r) } in
        fun_ext (λ i.
          bitmap_sync-behind fs₂ n root_lba i below map_before
          ∙ inode_sync-behind after.disk fs.sb (after.inodes r) root_lba i (omega (arith, at))
          ∙ after_block i)

    final_root : root_blocks junk final 0 ≡ root_lba
    unfolding root_blocks bitmap_sync
    final_root = ground (arith, prepared_root)

    found_again :
        ((j : ℕ) → j < k → Differs fuel (entry_at block j) name)
        → strcmp fuel (entry_at block k) name ≡ some equal
        → search_blocks fuel final (root_blocks junk final) name 140 0 ≡ ok (some n)
    unfolding bitmap_sync
    found_again before hit =
        let entries : sector_size / fs.sb.dir_entry_size ≡ 21 = rw size in
        let inside = find_unknown-first (fs.disk root_lba) 21 0 k unknown in
        search_blocks-first fuel final (root_blocks junk final) name 139 n
          (λ e. there (sym final_root ∙ e))
          (rw (final_root, final_block, entries)
            (search_block-hit fuel block name 21 0 k (omega arith) inside.1 (λ j p q. before j q)
                hit
              ∙ ap (λ v. ok (some v)) (i_no-with_entry (fs.disk root_lba) k entry (omega arith))))

    -- `sys_open` with O_CREAT of a path whose name is in no block of the directory returns the
    -- task's first free descriptor: it leads to the first free slot of the file table and an inode
    -- with the number that the bitmap gave and size 0, which is open, and then `search_file` of
    -- the path finds this number. The conditions: entries are 24 bytes, the path starts with a
    -- slash and has 2 to 255 bytes, memory is granted, the number is below 4096, both tables have
    -- a free slot, the directory's first block lies behind the tables and has a free entry `k`,
    -- and once written entry `k` compares equal to the name and none before it does.
    pub sys_open-create :
        ((j : ℕ) → j < k → Differs fuel (entry_at block j) name)
        → strcmp fuel (entry_at block k) name ≡ some equal
        → (fs' fs'' : FileSystem) × (sys_open fuel junk fs pathname flags ≡ ok (some fd, fs'))
          × (fs'.fd_table fd ≡ some fd_idx)
          × ((fs'.file_table fd_idx).fd_inode ≡ some r)
          × ((fs'.inodes r).i_no ≡ n)
          × ((fs'.inodes r).i_size ≡ 0)
          × (fs'.open_inodes ≡ r ∷ fs.open_inodes)
          × (fs'.inode_bitmap ≡ m)
          × (search_file fuel junk fs' pathname ≡ ok (some n, fs''))
    unfolding sys_open bitmap_sync search_file alloc inode_init
    sys_open-create before hit =
        let (s₀, s₁, s₂) = path_ok (pathname 0) len slash long short in
        let missed =
          search_file-missing fuel junk fs pathname len size sl slash long short memory missing in
        (
          final,
          record final { next_ref = final.next_ref + 1 + 1 },
          rw (missed, creat) created,
          update_self fs.fd_table fd (some fd_idx),
          ap (λ (f : File). f.fd_inode) (update_self fs.file_table fd_idx _),
          ap (λ (i : Inode). i.i_no) (update_self after.inodes r _) ∙ number,
          ap (λ (i : Inode). i.i_size) (update_self after.inodes r _) ∙ empty,
          refl,
          refl,
          rw
              (
                search_file,
                sl,
                s₀,
                s₁,
                s₂,
                memory final.next_ref,
                memory (final.next_ref + 1),
                found_again before hit,
              )
              refl,
        )
