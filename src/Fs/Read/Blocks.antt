-- ===== src/Fs/Read/Blocks.antt =====
-- What the loop of `file_read` reads.
use winux_os.Base.{
  ℕ, zero, suc, ◌+◌, ◌-◌, ◌/◌, ◌%◌, ◌^◌, ◌<◌, ◌≤◌, ◌≡◌, ◌∙◌, refl, ◌&&◌, ◌==◌, ltb, leb,
  if◌then◌else◌, Bytes, splice, u32, panic, arith, Bool-cases, inl, inr,
}
use winux_os.Device.Ide.{Disk, sector_size}
use winux_os.Fs.{FileSystem}
use winux_os.Fs.Read.{read_size, read_chunk, read_chunks, file_read}

-- Byte `p` of the file whose blocks lie at `all_blocks`.
abbrev pub file_byte : Disk → (ℕ → ℕ) → ℕ → ℕ
file_byte disk all_blocks p = disk (all_blocks (p / sector_size)) (p % sector_size)

read_size_lem :
    (pos left : ℕ)
    → 0 < left
    → (0 < read_size pos left)
      × (read_size pos left ≤ left)
      × (pos % 512 + read_size pos left ≤ 512)
unfolding read_size
read_size_lem pos left h = ground arith

-- In a chunk the offset in the sector runs on.
same_sector :
    (pos i : ℕ)
    → pos % 512 + i < 512
    → ((pos + i) / 512 ≡ pos / 512) × ((pos + i) % 512 ≡ pos % 512 + i)
same_sector pos i h = (omega arith, omega arith)

joined :
    (disk : Disk) (blocks : ℕ → ℕ) (pos n : ℕ) (buf : Bytes) (done left j : ℕ)
    → n ≤ left
    → pos % 512 + n ≤ 512
    → (if leb (done + n) j && ltb j (done + n + (left - n))
        then file_byte disk blocks (pos + n + (j - (done + n)))
        else splice buf done (λ i. disk (blocks (pos / sector_size)) (pos % sector_size + i)) n j)
      ≡ (if leb done j && ltb j (done + left)
          then file_byte disk blocks (pos + (j - done))
          else buf j)
joined disk blocks pos n buf done left j inside whole =
    elim (Bool-cases (leb done j && ltb j (done + n))) [
      | inl chunk ↦
          let (sector, offset) = same_sector pos (j - done) (ground arith) in
          rw (sector, offset) (ground arith)
      | inr other ↦ elim (Bool-cases (leb (done + n) j)) [
        | inl later ↦
            let e : pos + n + (j - (done + n)) ≡ pos + (j - done) = ground arith in
            rw e (ground arith)
        | inr before ↦ ground arith
      ]
    ]

-- The loop ends, given fuel for each byte: the bytes of the file from the position on are in the
-- buffer from `done` on, in order, and the rest of the buffer is as it was.
pub read_chunks_lem :
    (fuel : ℕ) (disk : Disk) (blocks : ℕ → ℕ) (pos : ℕ) (buf : Bytes) (done left j : ℕ)
    → left ≤ fuel
    → pos + left < 2 ^ 32
    → (read_chunks fuel disk blocks (record { fd_pos = pos; buf = buf }) done left).buf j ≡ (
        if leb done j && ltb j (done + left)
        then file_byte disk blocks (pos + (j - done))
        else buf j)
unfolding read_chunks
read_chunks_lem zero disk blocks pos buf done left j f b = ground arith
read_chunks_lem (suc fuel) disk blocks pos buf done left j f b =
    let n = read_size pos left in
    elim (Bool-cases (left == 0)) [
      | inl nothing ↦ rw nothing (ground arith)
      | inr more ↦
          let (some_byte, inside, whole) = read_size_lem pos left (ground arith) in
          let next : u32 (pos + n) ≡ pos + n = omega arith in
          let rest =
            read_chunks_lem fuel disk blocks (pos + n)
              (splice buf done (λ i. disk (blocks (pos / sector_size)) (pos % sector_size + i)) n)
              (done + n) (left - n) j (omega arith) (omega arith) in
          rw (more, read_chunk, next) (rest ∙ joined disk blocks pos n buf done left j inside whole)
    ]

-- `file_read` of any file stops the kernel.
pub file_read-stops :
    (junk : ℕ → ℕ) (fs : FileSystem) (fd_idx : ℕ) (buf : Bytes) (count : ℕ)
    → file_read junk fs fd_idx buf count ≡ panic
unfolding file_read
file_read-stops junk fs fd_idx buf count = refl
