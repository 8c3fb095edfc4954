-- ===== src/Fs/Write/Chunks.antt =====
-- fs/file.c, `file_write`: the loop that writes the data, against the file's bytes.
use winux_os.Base.{
  ℕ, zero, suc, ◌+◌, ◌-◌, ◌*◌, ◌/◌, ◌%◌, ◌<◌, ◌≤◌, ◌≡◌, ◌≢◌, ◌⊎◌, inl, inr, refl, ap, ◌∙◌, Bool,
  true, false, ◌==◌, ltb, if◌then◌else◌, Bytes, arith, Bool-cases,
}
use winux_os.Device.Ide.{Disk, sector_size}
use winux_os.Fs.Write.{Cursor, chunk_size, write_chunk, write_chunks}

-- Byte `p` of the file whose block `i` lies in sector `all_blocks i`.
abbrev pub file_byte : Disk → (ℕ → ℕ) → ℕ → ℕ
file_byte disk all_blocks p = disk (all_blocks (p / sector_size)) (p % sector_size)

module _ (all_blocks : ℕ → ℕ) (lo n : ℕ)
    (apart : (i j : ℕ)
      → lo ≤ i
      → i < n
      → lo ≤ j
      → j < n
      → all_blocks i ≡ all_blocks j
      → i ≡ j) where
  -- One chunk, which lies in one block.
  write_chunk-byte :
      (c : Cursor) (src : Bytes) (chunk p : ℕ) (first : Bool)
      → (first ≡ true) ⊎ (c.i_size % sector_size ≡ 0)
      → lo * sector_size ≤ c.i_size
      → c.i_size + chunk ≤ n * sector_size
      → 0 < chunk
      → c.i_size % sector_size + chunk ≤ sector_size
      → lo * sector_size ≤ p
      → p < c.i_size + chunk
      → file_byte (write_chunk c all_blocks src chunk first).disk all_blocks p
        ≡ (if ltb p c.i_size then file_byte c.disk all_blocks p else src (p - c.i_size))
  unfolding write_chunk
  write_chunk-byte c src chunk p first start low high more fits p_low p_high =
      elim (Bool-cases (all_blocks (p / sector_size) == all_blocks (c.i_size / sector_size))) [
        | inl here ↦
            let same =
              apart (p / sector_size) (c.i_size / sector_size) (omega arith) (omega arith)
                (omega arith) (omega arith) (ground arith) in
            rw same (ground arith)
        | inr there ↦ elim (Bool-cases (ltb p c.i_size)) [
          | inl old ↦ ground arith
          | inr new ↦
              let same : p / sector_size ≡ c.i_size / sector_size = ground arith in
              absurd (let e = ap all_blocks same in ground arith)
        ]
      ]

  -- The other sectors stay.
  write_chunk-others :
      (c : Cursor) (src : Bytes) (chunk : ℕ) (first : Bool) (s k : ℕ)
      → lo * sector_size ≤ c.i_size
      → c.i_size < n * sector_size
      → ((i : ℕ) → lo ≤ i → i < n → all_blocks i ≢ s)
      → (write_chunk c all_blocks src chunk first).disk s k ≡ c.disk s k
  unfolding write_chunk
  write_chunk-others c src chunk first s k low high other =
      let ne = other (c.i_size / sector_size) (omega arith) (omega arith) in ground arith

  -- `left` bytes from `src` are appended to the file: its size grows by them, its bytes from the
  -- block of `lo` on are the old ones and then those of `src`, and no sector outside the file's
  -- blocks changes.
  pub record IsAppended (c c' : Cursor) (src : Bytes) (left : ℕ) : Type 0 where
    pub size : c'.i_size ≡ c.i_size + left
    pub bytes :
        (p : ℕ)
        → lo * sector_size ≤ p
        → p < c.i_size + left
        → file_byte c'.disk all_blocks p
          ≡ (if ltb p c.i_size then file_byte c.disk all_blocks p else src (p - c.i_size))
    pub others :
        (s k : ℕ) → ((i : ℕ) → lo ≤ i → i < n → all_blocks i ≢ s) → c'.disk s k ≡ c.disk s k

  chunk_size_lem :
      (size left : ℕ)
      → 0 < left
      → (0 < chunk_size size left)
        × (chunk_size size left ≤ left)
        × (size % sector_size + chunk_size size left ≤ sector_size)
        × ((chunk_size size left ≡ left) ⊎ ((size + chunk_size size left) % sector_size ≡ 0))
  unfolding chunk_size
  chunk_size_lem size left more = ground arith

  -- A chunk, and the loop on the bytes that are left.
  IsAppended-step :
      (c c' : Cursor) (src : Bytes) (chunk left : ℕ) (first : Bool)
      → (first ≡ true) ⊎ (c.i_size % sector_size ≡ 0)
      → n ≤ 140
      → lo * sector_size ≤ c.i_size
      → c.i_size + left ≤ n * sector_size
      → 0 < chunk
      → chunk ≤ left
      → c.i_size % sector_size + chunk ≤ sector_size
      → IsAppended
          (write_chunk c all_blocks src chunk first)
          c'
          (λ i. src (chunk + i))
          (left - chunk)
      → IsAppended c c' src left
  IsAppended-step c c' src chunk left first start small low high more le fits rest =
      let c₁ = write_chunk c all_blocks src chunk first in
      let size₁ : c₁.i_size ≡ c.i_size + chunk = unfold write_chunk in omega arith in
      record {
        size = omega (arith, rest.size);
        bytes = λ p pl ph. rest.bytes p pl (omega arith) ∙ elim (Bool-cases (ltb p c₁.i_size)) [
          | inl now ↦
              let b =
                write_chunk-byte c src chunk p first start low (omega arith) more fits pl
                  (ground arith) in
              rw now b
          | inr later ↦ rw later (ground arith)
        ];
        others = λ s k other.
            rest.others s k other
            ∙ write_chunk-others c src chunk first s k low (omega arith) other;
      }

  -- The loop of `file_write` appends the `left` bytes, given fuel for each of them: the size grows
  -- by them, from the block of `lo` on the file's bytes are the old ones and then those written,
  -- and no other sector changes. The conditions: the blocks from `lo` to `n`, at most 140, lie in
  -- different sectors and have room, and the first chunk is read before it is written, or starts a
  -- block, or is empty.
  pub write_chunks-IsAppended :
      (fuel left : ℕ) (c : Cursor) (src : Bytes) (first : Bool)
      → left ≤ fuel
      → n ≤ 140
      → (first ≡ true) ⊎ ((c.i_size % sector_size ≡ 0) ⊎ (left ≡ 0))
      → lo * sector_size ≤ c.i_size
      → c.i_size + left ≤ n * sector_size
      → IsAppended c (write_chunks fuel c all_blocks src left first) src left
  unfolding write_chunks
  write_chunks-IsAppended zero left c src first enough small start low high = record {
    size = omega arith;
    bytes = λ p pl ph. ground arith;
    others = λ s k other. refl;
  }
  write_chunks-IsAppended (suc fuel) zero c src first enough small start low high = record {
    size = omega arith;
    bytes = λ p pl ph. ground arith;
    others = λ s k other. refl;
  }
  write_chunks-IsAppended (suc fuel) (suc left') c src first enough small start low high =
      let left = suc left' in
      let chunk = chunk_size c.i_size left in
      let (more, le, fits, rest) = chunk_size_lem c.i_size left (omega arith) in
      let c₁ = write_chunk c all_blocks src chunk first in
      let size₁ : c₁.i_size ≡ c.i_size + chunk = unfold write_chunk in omega arith in
      let ih =
        write_chunks-IsAppended fuel (left - chunk) c₁ (λ i. src (chunk + i)) false (omega arith)
          small (ground arith) (omega arith) (omega arith) in
      let start' : (first ≡ true) ⊎ (c.i_size % sector_size ≡ 0) = ground arith in
      let some_left : (suc left' == 0) ≡ false = ground arith in
      rw some_left (IsAppended-step c _ src chunk left first start' small low high more le fits ih)
