-- ===== src/Fs/Search/Again.antt =====
-- What the search for file systems leaves alone.
use winux_os.Base.{
  ℕ, zero, suc, ◌+◌, ◌^◌, ◌≤◌, ◌≡◌, ◌∙◌, refl, ap, sym, true, false, inl, inr, Bool-cases, ◌==◌,
  update, arith, u32, Bool, ok, panic, ◌>>=◌, fun_ext,
}
use winux_os.Device.Ide.{Disk, sectors_from}
use winux_os.Fs.{Partition, SuperBlock, fs_magic}
use winux_os.Fs.Format.{
  write_tables, partition_format, read_super_block, used_sects, new_super_block,
}
use winux_os.Fs.Format.Mount.{read-format}
use winux_os.Fs.Words.{word_at}
use winux_os.Fs.Search.{Drive, search_part, search_parts, search_channels, search_disks}

abbrev pub magic_of : Disk → Partition → ℕ
magic_of disk part = word_at (sectors_from disk (u32 (part.start_lba + 1))) 0

module _ (grants : Partition → Bool) where
  search_part_found :
      (disk : Disk) (part : Partition)
      → (magic_of disk part == fs_magic) ≡ true
      → search_part grants disk part ≡ ok disk
  unfolding search_part
  search_part_found disk part there = elim (Bool-cases (part.sec_cnt == 0)) [
    | inl none_there ↦ rw none_there refl
    | inr some_there ↦ rw (some_there, there) refl
  ]

  pub search_part_new :
      (disk : Disk) (part : Partition)
      → (part.sec_cnt == 0) ≡ false
      → (magic_of disk part == fs_magic) ≡ false
      → search_part grants disk part ≡ partition_format (grants part) disk part
  unfolding search_part
  search_part_new disk part room missing = rw (room, missing) refl

  formatted_magic :
      (disk : Disk) (part : Partition)
      → used_sects + 16 ≤ part.sec_cnt
      → part.start_lba + part.sec_cnt ≤ 2 ^ 28
      → magic_of (write_tables disk part) part ≡ fs_magic
  unfolding read_super_block new_super_block
  formatted_magic disk part room small =
      ap (λ (sb : SuperBlock). sb.magic) (read-format disk part room small)

  -- A partition with room for a file system is formatted at most once: a second search leaves the
  -- disk as the first one did.
  pub search_part-twice :
      (disk : Disk) (part : Partition)
      → used_sects + 16 ≤ part.sec_cnt
      → part.start_lba + part.sec_cnt ≤ 2 ^ 28
      → (search_part grants disk part >>= λ d. search_part grants d part)
        ≡ search_part grants disk part
  unfolding partition_format
  search_part-twice disk part room small = elim (Bool-cases (magic_of disk part == fs_magic)) [
    | inl there ↦ ap (λ o. o >>= λ d. search_part grants d part) (search_part_found disk part there)
    | inr missing ↦
        let first = search_part_new disk part (ground arith) missing in
        elim (Bool-cases (grants part)) [
          | inl memory ↦
              let wrote : search_part grants disk part ≡ ok (write_tables disk part) =
                first ∙ rw memory refl in
              ap (λ o. o >>= λ d. search_part grants d part) wrote
              ∙ search_part_found (write_tables disk part) part
                  (ap (λ m. m == fs_magic) (formatted_magic disk part room small))
              ∙ sym wrote
          | inr no_memory ↦
              let stopped : search_part grants disk part ≡ panic = first ∙ rw no_memory refl in
              ap (λ o. o >>= λ d. search_part grants d part) stopped ∙ sym stopped
        ]
  ]

update-same : (drives : ℕ → Drive) (n : ℕ) → update drives n (drives n) ≡ drives
update-same drives n = λ i k. same k i
  where
    same : (k : ℕ) → update drives n (drives n) k ≡ drives k
    same k = ground (arith, ap drives)

search_channels-done :
    (grants : Partition → Bool) (left : ℕ) (drives : ℕ → Drive) (channel_no : ℕ)
    → search_channels grants left drives channel_no 12 ≡ ok drives
unfolding search_channels search_parts
search_channels-done grants zero drives channel_no = refl
search_channels-done grants (suc left) drives channel_no =
    ap (λ d. search_channels grants left d (channel_no + 1) 12) (update-same drives channel_no)
    ∙ search_channels-done grants left drives (channel_no + 1)

-- Since `part_idx` is not set back, the search over one channel or more looks at the disk of the
-- first alone: it stops where the search of that disk's twelve partitions does, and otherwise that
-- disk is as this search leaves it, and the drives of all other channels stay as they are,
-- whatever they hold.
pub search_disks-first :
    (grants : Partition → Bool) (channels : ℕ) (drives : ℕ → Drive)
    → search_disks grants (channels + 1) drives
      ≡ (search_parts grants 12 (drives 0) 0 >>= λ hd. ok (update drives 0 hd))
unfolding search_disks search_channels
search_disks-first grants channels drives = rw (the_suc channels) (
    ap (λ next. search_parts grants 12 (drives 0) 0 >>= next)
      (fun_ext (λ hd. search_channels-done grants channels (update drives 0 hd) 1)))
  where
    the_suc : (n : ℕ) → n + 1 ≡ suc n
    the_suc n = omega arith
