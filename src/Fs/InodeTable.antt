-- ===== src/Fs/InodeTable.antt =====
-- fs/inode.c.
pub mod RoundTrip
pub mod Sharing
use winux_os.Base.{
  ℕ, zero, suc, ◌+◌, ◌-◌, ◌*◌, ◌/◌, ◌%◌, ◌^◌, Bool, true, false, not, Option, none, some, List, [],
  ◌∷◌, ◌==◌, ltb, leb, if◌then◌else◌, ◌&&◌, Bytes, update, splice, u32, Outcome, ok, panic, ◌>>=◌,
  ◌>>◌, assert,
}
use winux_os.Device.Ide.{Disk, sectors_from, overwrite, sector_size}
use winux_os.Fs.{SuperBlock, Inode, FileSystem, inode_size, alloc}
use winux_os.Fs.Words.{encode, word_at}

-- struct inode_position
pub record Position : Type 0 where
  pub two_sec : Bool
  pub sec_lba : ℕ
  pub off_size : ℕ

unfoldable pub inode_locate : SuperBlock → ℕ → Position
inode_locate sb inode_no =
    let off_byte_size = u32 (inode_no * inode_size) in
    let off = off_byte_size % sector_size in
    record {
      two_sec = ltb sector_size (off + inode_size);
      sec_lba = u32 (sb.inode_table_lba + off_byte_size / sector_size);
      off_size = off;
    }

abbrev pub sectors_of : Position → ℕ
sectors_of pos = if pos.two_sec then 2 else 1

-- The words that `inode_sync` writes: the members that live only in memory are cleared.
unfoldable pub inode_words : Inode → ℕ → ℕ
inode_words i k =
    if k == 0
    then i.i_no
    else if k == 1
    then i.i_size
    else if leb 4 k && ltb k 17
    then i.i_sectors (k - 4)
    else 0

-- An inode from its bytes.
unfoldable pub decode_inode : Bytes → Inode
decode_inode p = record {
  i_no = word_at p 0;
  i_size = word_at p 1;
  i_open_cnts = word_at p 2;
  write_deny = not (word_at p 3 == 0);
  i_sectors = λ k. word_at p (4 + k);
}

-- Reads one or two sectors, changes the inode's bytes, writes the sectors back.
abbrev patch : Disk → Position → Bytes → Disk
patch disk pos bytes =
    overwrite disk pos.sec_lba
      (splice (sectors_from disk pos.sec_lba) pos.off_size bytes inode_size) (sectors_of pos)

unfoldable pub inode_sync : Disk → SuperBlock → Inode → Disk
inode_sync disk sb inode = patch disk (inode_locate sb inode.i_no) (encode (inode_words inode))

unfoldable pub inode_delete : Disk → SuperBlock → ℕ → Disk
inode_delete disk sb inode_no = patch disk (inode_locate sb inode_no) (λ _. 0)

unfoldable pub read_inode : Disk → SuperBlock → ℕ → Inode
read_inode disk sb inode_no =
    let pos = inode_locate sb inode_no in
    decode_inode (λ i. sectors_from disk pos.sec_lba (pos.off_size + i))

-- The loop over the open inodes.
unfoldable pub find_open : (ℕ → Inode) → List ℕ → ℕ → Option ℕ
find_open inodes [] inode_no = none
find_open inodes (r ∷ rs) inode_no =
    if (inodes r).i_no == inode_no then some r else find_open inodes rs inode_no

-- The sectors of a place lie on the disk. Reading others ends in the PANIC of `ide_read`.
abbrev pub on_disk : FileSystem → Position → Bool
on_disk fs pos = leb (pos.sec_lba + sectors_of pos) fs.disk_sects

-- From the disk, in front of the list. With no memory the source would write through NULL.
unfoldable pub load_inode : FileSystem → ℕ → Outcome (ℕ × FileSystem)
unfolding read_inode alloc
load_inode fs inode_no =
    let (found, fs₁) = alloc fs in
    let (buf, fs₂) = alloc fs₁ in
    elim found [
      | none ↦ panic
      | some r ↦ elim buf [
        | none ↦ panic
        | some b ↦
            assert (on_disk fs (inode_locate fs.sb inode_no))
            >> ok (
              r,
              record fs₂ {
                inodes =
                    update fs.inodes r
                      (record (read_inode fs.disk fs.sb inode_no) { i_open_cnts = 1 });
                open_inodes = r ∷ fs.open_inodes;
              },
            )
      ]
    ]

unfoldable pub inode_open : FileSystem → ℕ → Outcome (ℕ × FileSystem)
unfolding find_open load_inode
inode_open fs inode_no = elim (find_open fs.inodes fs.open_inodes inode_no) [
  | some r ↦ ok (
    r,
    record fs {
      inodes =
          update fs.inodes r
            (record (fs.inodes r) { i_open_cnts = u32 ((fs.inodes r).i_open_cnts + 1) });
    },
  )
  | none ↦ load_inode fs inode_no
]

-- `list_remove` of an inode's tag.
unfoldable pub remove : List ℕ → ℕ → List ℕ
remove [] r = []
remove (x ∷ xs) r = if x == r then xs else x ∷ remove xs r

unfoldable pub inode_close : FileSystem → ℕ → FileSystem
unfolding remove
inode_close fs r =
    let cnts = u32 ((fs.inodes r).i_open_cnts + 2 ^ 32 - 1) in
    let fs' = record fs {
      inodes = update fs.inodes r (record (fs.inodes r) { i_open_cnts = cnts });
    } in
    if cnts == 0 then record fs' { open_inodes = remove fs.open_inodes r } else fs'

unfoldable pub inode_init : ℕ → Inode → Inode
inode_init inode_no old = record {
  i_no = inode_no;
  i_size = 0;
  i_open_cnts = 0;
  write_deny = false;
  i_sectors = λ k. if ltb k 13 then 0 else old.i_sectors k;
}
