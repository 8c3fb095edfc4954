-- ===== src/Fs/Directory/Lookup.antt =====
-- fs/dir.c and fs/fs.c: an entry that was written is found under its name.
use winux_os.Base.{
  ℕ, zero, suc, ◌+◌, ◌-◌, ◌*◌, ◌/◌, ◌^◌, ◌<◌, ◌≤◌, ◌≡◌, ◌≢◌, ◌⊎◌, inl, inr, ap, subst, fun_ext, ◌∙◌,
  true, false, ◌==◌, ltb, if◌then◌else◌, some, Bytes, splice, u8, u32, arith, Bool-cases, update,
  ok,
}
use winux_os.Str.{less, equal, greater, strlen, strcmp}
use winux_os.Device.Ide.{sector_size, overwrite}
use winux_os.Fs.{FileSystem, alloc, dir_entry_size}
use winux_os.Fs.Words.{encode, word_at, word_at-encode}
use winux_os.Fs.Directory.{
  DirEntry, entry_bytes, entry_at, i_no_at, f_type_at, find_unknown, sync_blocks, sync_dir_entry,
  search_block, search_blocks, root_blocks, search_file,
}

-- A block after an entry was written to it.
abbrev pub with_entry : Bytes → ℕ → DirEntry → Bytes
with_entry buf k e = splice buf (k * dir_entry_size) (entry_bytes e) dir_entry_size

with_entry-at :
    (buf : Bytes) (k : ℕ) (e : DirEntry) (i : ℕ)
    → i < 24
    → entry_at (with_entry buf k e) k i ≡ entry_bytes e i
with_entry-at buf k e i h = let from : k * 24 + i - k * 24 ≡ i = omega arith in ground arith

entry_words : DirEntry → ℕ → ℕ
entry_words e w = if w == 0 then e.i_no else if w == 1 then e.f_type else 0

behind_name :
    (buf : Bytes) (k : ℕ) (e : DirEntry) (j : ℕ)
    → j < 8
    → entry_at (with_entry buf k e) k (16 + j) ≡ encode (entry_words e) j
unfolding entry_bytes entry_words
behind_name buf k e j h =
    let from : 16 + j - 16 ≡ j = omega arith in
    let long : ltb (16 + j) 16 ≡ false = ground arith in
    with_entry-at buf k e (16 + j) (omega arith) ∙ rw (long, from)

pub i_no-with_entry :
    (buf : Bytes) (k : ℕ) (e : DirEntry) → e.i_no < 2 ^ 32 → i_no_at (with_entry buf k e) k ≡ e.i_no
unfolding i_no_at word_at entry_words
i_no-with_entry buf k e small =
    let b = behind_name buf k e in
    omega (
      arith,
      b 0 (omega arith),
      b 1 (omega arith),
      b 2 (omega arith),
      b 3 (omega arith),
      word_at-encode (entry_words e) 0 small,
    )

-- `find_unknown` gives the first entry of type FT_UNKNOWN.
pub find_unknown-first :
    (buf : Bytes) (left idx k : ℕ)
    → find_unknown buf left idx ≡ some k
    → (idx ≤ k) × (k < idx + left) × (f_type_at buf k ≡ 0)
unfolding find_unknown
find_unknown-first buf zero idx k e = cc
find_unknown-first buf (suc left) idx k e = ground (arith, find_unknown-first buf left (idx + 1) k)

search_block-here :
    (fuel : ℕ) (buf name : Bytes) (left k : ℕ)
    → strcmp fuel (entry_at buf k) name ≡ some equal
    → search_block fuel buf name (suc left) k ≡ ok (some (i_no_at buf k))
unfolding search_block
search_block-here fuel buf name left k hit = rw (search_block, hit)

-- A search stops at the first entry that compares equal.
pub search_block-hit :
    (fuel : ℕ) (buf name : Bytes) (left idx k : ℕ)
    → idx ≤ k
    → k < idx + left
    → ((j : ℕ)
        → idx ≤ j
        → j < k
        → (strcmp fuel (entry_at buf j) name ≡ some less)
          ⊎ (strcmp fuel (entry_at buf j) name ≡ some greater))
    → strcmp fuel (entry_at buf k) name ≡ some equal
    → search_block fuel buf name left idx ≡ ok (some (i_no_at buf k))
unfolding search_block
search_block-hit fuel buf name zero idx k lo hi before hit = absurd (omega arith)
search_block-hit fuel buf name (suc left) idx k lo hi before hit = elim (Bool-cases (idx == k)) [
  | inl here ↦
      let e : k ≡ idx = ground arith in
      subst (λ q. search_block fuel buf name (suc left) q ≡ ok (some (i_no_at buf k))) e
        (search_block-here fuel buf name left k hit)
  | inr there ↦
      let go =
        search_block-hit fuel buf name left (idx + 1) k (ground arith) (omega arith)
          (λ j p q. before j (omega arith) q) hit in
      elim (before idx (omega arith) (ground arith)) [
        | inl e ↦ rw (search_block, e) go
        | inr e ↦ rw (search_block, e) go
      ]
]

-- The ASSERT of `search_file` holds.
pub path_ok :
    (c len : ℕ)
    → c ≡ 47
    → 1 < len
    → len < 256
    → ((c == 47) ≡ true) × (ltb 1 (u8 len) ≡ true) × (ltb (u8 len) 512 ≡ true)
path_ok c len slash long short =
    let e : u8 len ≡ len = omega arith in rw e (ground arith, ground arith, ground arith)

pub search_blocks-first :
    (fuel : ℕ) (fs : FileSystem) (all_blocks : ℕ → ℕ) (name : Bytes) (left n : ℕ)
    → all_blocks 0 ≢ 0
    → search_block fuel (fs.disk (all_blocks 0)) name (sector_size / fs.sb.dir_entry_size) 0
      ≡ ok (some n)
    → search_blocks fuel fs all_blocks name (suc left) 0 ≡ ok (some n)
unfolding search_blocks
search_blocks-first fuel fs all_blocks name left n there found =
    let present : (all_blocks 0 == 0) ≡ false = ground arith in rw (search_blocks, present, found)

module _ (fuel : ℕ) (junk : ℕ → ℕ) (fs : FileSystem) (e : DirEntry) (k : ℕ)
    (entry_size : fs.sb.dir_entry_size ≡ dir_entry_size)
    (there : (fs.inodes fs.root_dir).i_sectors 0 ≢ 0)
    (slot : find_unknown (fs.disk ((fs.inodes fs.root_dir).i_sectors 0)) 21 0 ≡ some k) where
  abbrev pub root_lba : ℕ
  root_lba = (fs.inodes fs.root_dir).i_sectors 0

  -- The first block of the directory after the entry was written.
  abbrev pub new_block : Bytes
  new_block = with_entry (fs.disk root_lba) k e

  abbrev pub stored : FileSystem
  stored = record fs {
    disk = overwrite fs.disk root_lba new_block 1;
    inodes = update fs.inodes fs.root_dir (record (fs.inodes fs.root_dir) {
      i_size = u32 ((fs.inodes fs.root_dir).i_size + dir_entry_size);
    });
  }

  pub sync_dir_entry-stored : sync_dir_entry fs e ≡ ok (true, stored)
  unfolding sync_dir_entry sync_blocks
  sync_dir_entry-stored =
      let present : (root_lba == 0) ≡ false = ground arith in
      let entries : sector_size / fs.sb.dir_entry_size ≡ 21 = rw entry_size in
      rw (present, entries, slot, entry_size)

  found_in_root :
      (name : Bytes)
      → e.i_no < 2 ^ 32
      → k < 21
      → ((j : ℕ)
          → j < k
          → (strcmp fuel (entry_at new_block j) name ≡ some less)
            ⊎ (strcmp fuel (entry_at new_block j) name ≡ some greater))
      → strcmp fuel (entry_at new_block k) name ≡ some equal
      → search_blocks fuel stored (root_blocks junk stored) name 140 0 ≡ ok (some e.i_no)
  unfolding root_blocks
  found_in_root name small inside before hit =
      let entries : sector_size / fs.sb.dir_entry_size ≡ 21 = rw entry_size in
      let zero : root_lba - root_lba ≡ 0 = omega arith in
      let block : stored.disk root_lba ≡ new_block = fun_ext (λ i. ground (arith, zero)) in
      let first : root_blocks junk stored 0 ≡ root_lba = unfold root_blocks in ground arith in
      search_blocks-first fuel stored (root_blocks junk stored) name 139 e.i_no (rw first there) (
        rw (first, block, entries)
          (search_block-hit fuel new_block name 21 0 k (omega arith) (omega arith)
              (λ j p q. before j q) hit
            ∙ ap (λ n. ok (some n)) (i_no-with_entry (fs.disk root_lba) k e small)))

  -- With a first directory block that has a free entry `k`, `sync_dir_entry` succeeds, and then
  -- `search_file` of the path finds the entry's inode number. The conditions: entries are 24
  -- bytes, the path starts with a slash and has 2 to 255 bytes, both buffers are granted, the
  -- number is a uint32_t, and in the written block entry `k` compares equal to the name and none
  -- before it does.
  pub search_file-sync_dir_entry :
      (pathname : Bytes) (len : ℕ)
      → strlen fuel pathname ≡ some len
      → pathname 0 ≡ 47
      → 1 < len
      → len < 256
      → fs.grants fs.next_ref ≡ true
      → fs.grants (fs.next_ref + 1) ≡ true
      → e.i_no < 2 ^ 32
      → ((j : ℕ)
          → j < k
          → (strcmp fuel (entry_at new_block j) (λ i. pathname (i + 1)) ≡ some less)
            ⊎ (strcmp fuel (entry_at new_block j) (λ i. pathname (i + 1)) ≡ some greater))
      → strcmp fuel (entry_at new_block k) (λ i. pathname (i + 1)) ≡ some equal
      → (fs' : FileSystem) × (sync_dir_entry fs e ≡ ok (true, fs'))
        × ((fs'' : FileSystem) × (search_file fuel junk fs' pathname ≡ ok (some e.i_no, fs'')))
  unfolding search_file alloc
  search_file-sync_dir_entry pathname len sl slash long short g₁ g₂ small before hit =
      let inside = find_unknown-first (fs.disk root_lba) 21 0 k slot in
      let found =
        found_in_root (λ i. pathname (i + 1)) small (omega (arith, inside.1)) before hit in
      let (s₀, s₁, s₂) = path_ok (pathname 0) len slash long short in
      (
        stored,
        sync_dir_entry-stored,
        (
          record stored { next_ref = fs.next_ref + 1 + 1 },
          rw (search_file, sl, s₀, s₁, s₂, g₁, g₂, found),
        ),
      )
