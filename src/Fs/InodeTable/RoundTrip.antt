-- ===== src/Fs/InodeTable/RoundTrip.antt =====
-- The inode table on the disk: an inode that was written is read back, and the others stay.
use winux_os.Base.{
  ℕ, ◌+◌, ◌-◌, ◌*◌, ◌/◌, ◌%◌, ◌^◌, ◌<◌, ◌≤◌, ◌≡◌, ◌≢◌, ap, ap₂, ◌∙◌, false, ltb, leb, if◌then◌else◌,
  ◌&&◌, Bytes, arith, Bool-cases, inl, inr,
}
use winux_os.Device.Ide.{Disk, sectors_from, sector_size}
use winux_os.Fs.{SuperBlock, Inode, inode_size}
use winux_os.Fs.Words.{encode, word_at, word_at-encode}
use winux_os.Fs.InodeTable.{
  Position, inode_locate, sectors_of, inode_words, decode_inode, patch, inode_sync, read_inode,
}

-- The table fits into 32 bits of sector numbers.
abbrev pub IsTable : SuperBlock → Type 0
IsTable sb = sb.inode_table_lba + 608 < 2 ^ 32

-- Every inode lies in the table's 608 sectors, in the one or two sectors that are moved for it.
pub inode_locate_lem :
    (sb : SuperBlock) (n : ℕ)
    → IsTable sb
    → n < 4096
    → let pos = inode_locate sb n in
      (pos.off_size + inode_size ≤ sectors_of pos * sector_size)
      × (sb.inode_table_lba ≤ pos.sec_lba)
      × (pos.sec_lba + sectors_of pos ≤ sb.inode_table_lba + 608)
      × ((pos.sec_lba - sb.inode_table_lba) * sector_size + pos.off_size ≡ n * inode_size)
unfolding inode_locate
inode_locate_lem sb n table small = ground arith

abbrev base : Position → ℕ
base pos = pos.sec_lba * 512 + pos.off_size

-- The patch as a change of the disk's bytes, counted from its first one.
patch_at :
    (disk : Disk) (pos : Position) (bytes : Bytes) (s i : ℕ)
    → i < 512
    → pos.off_size + inode_size ≤ sectors_of pos * 512
    → patch disk pos bytes s i ≡ (
        if leb (base pos) (s * 512 + i) && ltb (s * 512 + i) (base pos + inode_size)
        then bytes (s * 512 + i - base pos)
        else disk s i)
patch_at disk pos bytes s i h fits = elim (Bool-cases (leb pos.sec_lba s)) [
  | inl above ↦
      let le : pos.sec_lba ≤ s = ground arith in
      let a : (s - pos.sec_lba) * 512 + i - pos.off_size ≡ s * 512 + i - base pos = omega arith in
      let q : pos.sec_lba + ((s - pos.sec_lba) * 512 + i) / 512 ≡ s = omega arith in
      let r : ((s - pos.sec_lba) * 512 + i) % 512 ≡ i = omega arith in
      ground (arith, ap bytes a, ap₂ disk q r)
  | inr below ↦ ground arith
]

module _ (disk : Disk) (sb : SuperBlock) (table : IsTable sb) (n : ℕ) (small : n < 4096)
    (bytes : Bytes) where
  -- The bytes of the inode after the patch.
  patch_self :
      (b : ℕ)
      → b < inode_size
      → let pos = inode_locate sb n in
        sectors_from (patch disk pos bytes) pos.sec_lba (pos.off_size + b) ≡ bytes b
  patch_self b h =
      let pos = inode_locate sb n in
      let l = inode_locate_lem sb n table small in
      let at =
        patch_at disk pos bytes (pos.sec_lba + (pos.off_size + b) / 512) ((pos.off_size + b) % 512)
          (omega arith) l.0 in
      let a : (pos.sec_lba + (pos.off_size + b) / 512) * 512 + (pos.off_size + b) % 512 - base pos
          ≡ b =
        omega arith in
      ground (arith, at, ap bytes a)

  -- The bytes of another inode.
  patch_other :
      (other b : ℕ)
      → other < 4096
      → other ≢ n
      → b < inode_size
      → let pos = inode_locate sb other in
        sectors_from (patch disk (inode_locate sb n) bytes) pos.sec_lba (pos.off_size + b)
        ≡ sectors_from disk pos.sec_lba (pos.off_size + b)
  patch_other other b ho ne h =
      let pos = inode_locate sb other in
      let l = inode_locate_lem sb n table small in
      let k = inode_locate_lem sb other table ho in
      let at =
        patch_at disk (inode_locate sb n) bytes (pos.sec_lba + (pos.off_size + b) / 512)
          ((pos.off_size + b) % 512) (omega arith) l.0 in
      ground (arith, at, l, k)

-- Two runs of bytes that agree in the first 76 give the same word.
word_cong :
    (p q : Bytes) (k : ℕ)
    → k < 19
    → ((b : ℕ) → b < inode_size → p b ≡ q b)
    → word_at p k ≡ word_at q k
unfolding word_at
word_cong p q k small h = omega (
  arith,
  h (4 * k) (omega arith),
  h (4 * k + 1) (omega arith),
  h (4 * k + 2) (omega arith),
  h (4 * k + 3) (omega arith),
)

-- Every member that goes to the disk fits its word.
pub record IsStorable (i : Inode) : Type 0 where
  pub number : i.i_no < 4096
  pub size : i.i_size < 2 ^ 32
  pub sectors : (k : ℕ) → i.i_sectors k < 2 ^ 32

inode_words-lt : (i : Inode) (k : ℕ) → IsStorable i → inode_words i k < 2 ^ 32
unfolding inode_words
inode_words-lt i k st = ground (arith, st.number, st.size, st.sectors (k - 4))

-- An inode numbered below 4096 with a 32-bit size and 32-bit sector addresses, in a table below
-- sector 2^32, that `inode_sync` wrote is read back from the disk: its number, size and thirteen
-- block addresses, with no opener and no writer.
pub read-sync :
    (disk : Disk) (sb : SuperBlock) (i : Inode) (k : ℕ)
    → IsTable sb
    → IsStorable i
    → k < 13
    → let r = read_inode (inode_sync disk sb i) sb i.i_no in
      (r.i_no ≡ i.i_no)
      × (r.i_size ≡ i.i_size)
      × (r.i_open_cnts ≡ 0)
      × (r.write_deny ≡ false)
      × (r.i_sectors k ≡ i.i_sectors k)
unfolding inode_sync read_inode decode_inode
read-sync disk sb i k table st small =
    let word = λ (j : ℕ) (h : j < 19).
      word_cong _ (encode (inode_words i)) j h
        (λ b p. patch_self disk sb table i.i_no st.number (encode (inode_words i)) b p)
      ∙ word_at-encode (inode_words i) j (inode_words-lt i j st) in
    let e : 4 + k - 4 ≡ k = omega arith in
    unfold inode_words in
    (
      word 0 (omega arith),
      word 1 (omega arith),
      word 2 (omega arith),
      ground (arith, word 3 (omega arith)),
      ground (arith, word (4 + k) (omega arith), ap i.i_sectors e),
    )

-- In a table below sector 2^32, `inode_sync` of one inode below 4096 leaves the number, the size
-- and the block addresses of every other inode below 4096 on the disk as they were.
pub read-sync_ne :
    (disk : Disk) (sb : SuperBlock) (i : Inode) (other k : ℕ)
    → IsTable sb
    → i.i_no < 4096
    → other < 4096
    → other ≢ i.i_no
    → k < 13
    → let r = read_inode (inode_sync disk sb i) sb other in
      let old = read_inode disk sb other in
      (r.i_no ≡ old.i_no) × (r.i_size ≡ old.i_size) × (r.i_sectors k ≡ old.i_sectors k)
unfolding inode_sync read_inode decode_inode
read-sync_ne disk sb i other k table st ho ne small =
    let word = λ (j : ℕ) (h : j < 19).
      word_cong _
        (λ b.
          sectors_from disk (inode_locate sb other).sec_lba ((inode_locate sb other).off_size + b))
        j h (λ b p. patch_other disk sb table i.i_no st (encode (inode_words i)) other b ho ne p) in
    (word 0 (omega arith), word 1 (omega arith), word (4 + k) (omega arith))
