-- ===== src/Fs/Boot.antt =====
-- fs/fs.c: `filesys_init`, with the names that device/ide.c gives partitions and the choice of the
-- partition to mount. Strings are compared with fuel for eight characters, which is the room that a
-- name has.
pub mod Root
pub mod Fresh
mod Examples
use winux_os.Base.{
  ℕ, zero, suc, ◌+◌, ◌*◌, Bool, true, false, Option, none, some, List, [], ◌∷◌, ◌==◌, ltb,
  if◌then◌else◌, Bytes, get_or, Outcome, ok, panic, ◌>>=◌, ◌>>◌,
}
use winux_os.Str.{Cmp, equal, less, greater, strcmp}
use winux_os.Stdio.{sprintf}
use winux_os.Device.Ide.{Disk}
use winux_os.Fs.{Partition, FileSystem, alloc}
use winux_os.Fs.Format.{Mounted, mount_partition}
use winux_os.Fs.Directory.{open_root_dir}
use winux_os.Fs.Files.{max_file_open}
use winux_os.Fs.Search.{Drive, search_disks, clear_file_table}

-- `sprintf(name, "%s%d", hd->name, number)` into a name of zeros.
unfoldable pub part_name : Bytes → ℕ → Outcome Bytes
unfolding sprintf
part_name hd_name number =
    let format = b'%' ∷ b's' ∷ b'%' ∷ b'd' ∷ [] in
    let arguments = λ (k : ℕ). if k == 0 then 0 else number in
    elim (sprintf 64 (λ _. hd_name) (λ i. get_or format i 0) arguments (λ _. 0)) [
      | none ↦ panic
      | some (name, len) ↦ ok name
    ]

-- A partition of `partition_list`: its name, the channel of its disk, and where it lies.
pub record Listed : Type 0 where
  pub name : Bytes
  pub channel_no : ℕ
  pub part : Partition

abbrev pub default_part : Bytes
default_part i = get_or (b'h' ∷ b'd' ∷ b'b' ∷ b'1' ∷ []) i 0

-- `list_traversal` with `mount_partition`: the first partition of that name.
unfoldable pub find_part : List Listed → Bytes → Outcome (Option Listed)
find_part [] part_name = ok none
find_part (p ∷ ps) part_name = elim (strcmp 9 p.name part_name) [
  | none ↦ panic
  | some less ↦ find_part ps part_name
  | some equal ↦ ok (some p)
  | some greater ↦ find_part ps part_name
]

-- A buffer, or the PANIC "alloc memory failed!".
unfoldable pub granted : FileSystem → Outcome FileSystem
unfolding alloc
granted fs = let (found, fs') = alloc fs in elim found [ none ↦ panic | some r ↦ ok fs' ]

-- `mount_partition` of a partition with the right name: four buffers, and no open inode.
unfoldable pub mount : Disk → Partition → FileSystem → Outcome FileSystem
unfolding mount_partition
mount disk part fs = do
  fs₁ ← granted fs
  fs₂ ← granted fs₁
  fs₃ ← granted fs₂
  fs₄ ← granted fs₃
  let m = mount_partition disk part
  ok (record fs₄ {
    disk = disk;
    sb = m.sb;
    block_bitmap = m.block_bitmap;
    inode_bitmap = m.inode_bitmap;
    open_inodes = [];
  })

-- With no partition of the name `cur_part` stays NULL, and `open_root_dir` reads through it.
-- `memory` says for which partitions the buffer of `partition_format` is granted.
unfoldable pub filesys_init :
    (Partition → Bool) → ℕ → (ℕ → Drive) → List Listed → FileSystem → Outcome FileSystem
filesys_init memory channel_cnt drives partition_list fs = granted fs >>= λ fs₁.
    search_disks memory channel_cnt drives >>= λ drives'.
    find_part partition_list default_part >>= λ found. elim found [
      | none ↦ panic
      | some p ↦ mount (drives' p.channel_no).disk p.part fs₁ >>= λ fs₂.
          open_root_dir fs₂ >>= λ fs₃. ok (clear_file_table max_file_open fs₃ 0)
    ]
