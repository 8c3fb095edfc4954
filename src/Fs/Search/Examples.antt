-- ===== src/Fs/Search/Examples.antt =====
-- Two disks with a partition each, and a search over both.
use winux_os.Base.{
  ℕ, ◌≡◌, refl, ◌==◌, if◌then◌else◌, update, Bool, true, Outcome, ok, panic, blocked, ◌>>=◌,
}
use winux_os.Fs.{Partition}
use winux_os.Fs.Search.{Drive, search_parts, search_disks}
use winux_os.Fs.Search.Again.{search_disks-first}

-- A disk of zeros with one partition, the first.
abbrev empty_drive : Drive
empty_drive = record {
  disk = λ _ _. 0;
  parts = λ k. record { start_lba = 63; sec_cnt = if k == 0 then 2048 else 0 };
}

abbrev two_drives : ℕ → Drive
two_drives _ = empty_drive

-- All memory is granted.
abbrev memory : Partition → Bool
memory part = true

-- A byte of a disk after a search.
abbrev byte_of : Outcome (ℕ → Drive) → ℕ → ℕ → ℕ → ℕ
byte_of (ok drives) n lba i = (drives n).disk lba i
byte_of panic n lba i = 0
byte_of blocked n lba i = 0

-- The first disk gets the magic number, byte by byte from 0x20 on; the second stays empty.
first_formatted : byte_of (search_disks memory 2 two_drives) 0 64 0 ≡ 0x20
unfolding search_disks winux_os.Fs.Words.word_at winux_os.Fs.Format.partition_format
    winux_os.Fs.Format.write_tables winux_os.Fs.Words.encode
first_formatted = refl

second_left : byte_of (search_disks memory 2 two_drives) 1 64 0 ≡ 0
unfolding search_disks winux_os.Fs.Words.word_at winux_os.Fs.Format.partition_format
    winux_os.Fs.Format.write_tables winux_os.Fs.Words.encode
second_left = refl

search_disks-first_example :
    search_disks memory 2 two_drives
    ≡ (search_parts memory 12 empty_drive 0 >>= λ hd. ok (update two_drives 0 hd))
search_disks-first_example = search_disks-first memory 1 two_drives
