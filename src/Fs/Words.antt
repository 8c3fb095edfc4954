-- ===== src/Fs/Words.antt =====
-- uint32_t in memory, lowest byte first.
use winux_os.Base.{ℕ, ◌+◌, ◌*◌, ◌/◌, ◌%◌, ◌^◌, ◌<◌, ◌≡◌, arith, Bytes, if◌then◌else◌, ◌==◌}

-- Byte `j` of a word.
abbrev pub byte_of : ℕ → ℕ → ℕ
byte_of w j =
    if j == 0
    then w % 256
    else if j == 1
    then w / 2 ^ 8 % 256
    else if j == 2
    then w / 2 ^ 16 % 256
    else w / 2 ^ 24 % 256

-- The bytes of consecutive words.
unfoldable pub encode : (ℕ → ℕ) → Bytes
encode words i = byte_of (words (i / 4)) (i % 4)

-- Word `k` behind a pointer.
unfoldable pub word_at : Bytes → ℕ → ℕ
word_at p k = p (4 * k) + 2 ^ 8 * p (4 * k + 1) + 2 ^ 16 * p (4 * k + 2) + 2 ^ 24 * p (4 * k + 3)

encode-byte : (words : ℕ → ℕ) (k j : ℕ) → j < 4 → encode words (4 * k + j) ≡ byte_of (words k) j
unfolding encode
encode-byte words k j h =
    let q : (4 * k + j) / 4 ≡ k = omega arith in
    let r : (4 * k + j) % 4 ≡ j = omega arith in rw (q, r)

encode_zero : (words : ℕ → ℕ) (k : ℕ) → encode words (4 * k) ≡ words k % 256
unfolding encode
encode_zero words k =
    let q : 4 * k / 4 ≡ k = omega arith in let r : 4 * k % 4 ≡ 0 = omega arith in rw (q, r)

-- A word that was stored is read back.
pub word_at-encode : (words : ℕ → ℕ) (k : ℕ) → words k < 2 ^ 32 → word_at (encode words) k ≡ words k
unfolding word_at
word_at-encode words k h = omega (
  arith,
  encode_zero words k,
  encode-byte words k 1 (omega arith),
  encode-byte words k 2 (omega arith),
  encode-byte words k 3 (omega arith),
)
