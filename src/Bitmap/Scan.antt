-- ===== src/Bitmap/Scan.antt =====
-- Where `bitmap_scan` starts: the first free bit of the map.
use winux_os.Base.{
  ℕ, zero, suc, ◌+◌, ◌-◌, ◌*◌, ◌/◌, ◌%◌, ◌<◌, ◌≤◌, ◌≡◌, refl, ◌≢◌, Bool, true, false, not, ◌&&◌,
  ◌||◌, some, ◌==◌, ltb, Bytes, has_bit, all_below, all_below_sound, ok, panic, arith, Bool-cases,
  inl, inr,
}
use winux_os.Bitmap.{Bitmap, IsBytes, skip_full, skip_used, find_run, first_free, scan, scan_test}

-- The loop stops at the first byte that is not 0xff, or at the end.
pub record IsSkipped (bits : Bytes) (start end r : ℕ) : Type 0 where
  pub from_start : start ≤ r
  pub to_end : r ≤ end
  pub passed : (i : ℕ) → start ≤ i → i < r → bits i ≡ 255
  pub stopped : r < end → bits r ≢ 255

skip_full-IsSkipped :
    (bits : Bytes) (left idx end : ℕ)
    → idx + left ≡ end
    → IsSkipped bits idx end (skip_full bits left idx)
unfolding skip_full
skip_full-IsSkipped bits zero idx end e = record {
  from_start = omega arith;
  to_end = omega arith;
  passed = λ i p q. absurd (omega arith);
  stopped = λ p. absurd (omega arith);
}
skip_full-IsSkipped bits (suc left) idx end e = elim (Bool-cases (bits idx == 255)) [
  | inl full ↦
      let rest = skip_full-IsSkipped bits left (idx + 1) end (omega arith) in
      rw full (record {
        from_start = omega (arith, rest.from_start);
        to_end = rest.to_end;
        passed = λ i p q. elim (Bool-cases (idx == i)) [
          | inl here ↦ ground arith
          | inr there ↦ rest.passed i (ground arith) q
        ];
        stopped = rest.stopped;
      })
  | inr found ↦ rw found (record {
    from_start = omega arith;
    to_end = omega arith;
    passed = λ i p q. absurd (omega arith);
    stopped = λ p. ground arith;
  })
]

-- In a byte that is not 0xff the inner loop stops at its first clear bit.
abbrev free_law : ℕ → Bool
free_law b =
    (b == 255)
    || (ltb (skip_used b 8 0) 8
        && (not (has_bit b (skip_used b 8 0)) && all_below (skip_used b 8 0) (has_bit b)))

free_table : all_below 256 free_law ≡ true
unfolding all_below has_bit skip_used
free_table = refl

free_in_byte :
    (b : ℕ)
    → b < 256
    → b ≢ 255
    → (skip_used b 8 0 < 8)
      × (has_bit b (skip_used b 8 0) ≡ false)
      × (all_below (skip_used b 8 0) (has_bit b) ≡ true)
free_in_byte b h ne = ground (arith, all_below_sound 256 free_law b free_table h)

-- `s` is the first free bit of the map.
pub record IsFirstFree (m : Bitmap) (s : ℕ) : Type 0 where
  pub inside : s < m.btmp_bytes_len * 8
  pub free : scan_test m s ≡ false
  pub before : (j : ℕ) → j < s → scan_test m j ≡ true

full_byte : (j : ℕ) → has_bit 255 (j % 8) ≡ true
full_byte j =
    all_below_sound 8 (has_bit 255) (j % 8) (unfold all_below has_bit in refl) (omega arith)

-- All eight bits of the passed bytes are set.
passed_bits :
    (m : Bitmap) (r j : ℕ)
    → IsSkipped m.bits 0 m.btmp_bytes_len r
    → j / 8 < r
    → scan_test m j ≡ true
unfolding scan_test
passed_bits m r j s h = rw (s.passed (j / 8) (omega arith) h) (full_byte j)

module _ (m : Bitmap) (h : IsBytes m.bits) where
  abbrev stop : ℕ
  stop = skip_full m.bits m.btmp_bytes_len 0

  skipped : IsSkipped m.bits 0 m.btmp_bytes_len stop
  skipped = skip_full-IsSkipped m.bits m.btmp_bytes_len 0 m.btmp_bytes_len (omega arith)

  first_free-IsFirstFree : stop < m.btmp_bytes_len → IsFirstFree m (first_free m stop)
  unfolding first_free scan_test
  first_free-IsFirstFree lt =
      let byte = free_in_byte (m.bits stop) (h stop) (skipped.stopped lt) in
      let k = skip_used (m.bits stop) 8 0 in
      let q : (stop * 8 + k) / 8 ≡ stop = omega (arith, byte.0) in
      let r : (stop * 8 + k) % 8 ≡ k = omega (arith, byte.0) in
      record {
        inside = omega (arith, byte.0);
        free = rw (q, r) byte.1;
        before = λ j p. elim (Bool-cases (ltb (j / 8) stop)) [
          | inl low ↦ unfold scan_test in passed_bits m stop j skipped (ground arith)
          | inr same_byte ↦
              let e : j / 8 ≡ stop = ground (arith, byte.0) in
              rw e
                (all_below_sound k (has_bit (m.bits stop)) (j % 8) byte.2 (omega (arith, byte.0)))
        ];
      }

  -- A free bit in the map keeps the byte loop inside the map.
  stop_lt : (f : ℕ) → f < m.btmp_bytes_len * 8 → scan_test m f ≡ false → stop < m.btmp_bytes_len
  stop_lt f inside free = elim (Bool-cases (ltb stop m.btmp_bytes_len)) [
    | inl lt ↦ ground arith
    | inr ge ↦ absurd (
        let t : scan_test m f ≡ true = passed_bits m stop f skipped (ground (arith, skipped)) in cc)
  ]

  -- On a map of bytes with a free bit inside, `bitmap_scan` for one bit returns the first free
  -- bit.
  pub scan-one :
      (f : ℕ)
      → f < m.btmp_bytes_len * 8
      → scan_test m f ≡ false
      → (s : ℕ) × (scan m 1 ≡ ok (some s)) × IsFirstFree m s
  unfolding scan
  scan-one f inside free =
      let lt = stop_lt f inside free in (first_free m stop, ground arith, first_free-IsFirstFree lt)

  -- For more than one bit `bitmap_scan` goes on from the first free bit.
  pub scan_many :
      (cnt : ℕ)
      → cnt ≢ 1
      → (f : ℕ) → f < m.btmp_bytes_len * 8
      → scan_test m f ≡ false
      → (s : ℕ) × IsFirstFree m s
        × (scan m cnt ≡ ok (find_run m cnt (m.btmp_bytes_len * 8 - s) (s + 1) 1))
  unfolding scan
  scan_many cnt ne f inside free =
      let lt = stop_lt f inside free in (first_free m stop, first_free-IsFirstFree lt, ground arith)

  -- On a map of bytes whose bits are all set `bitmap_scan` stops in its ASSERT, whatever the
  -- count.
  pub scan_full :
      (cnt : ℕ) → ((j : ℕ) → j < m.btmp_bytes_len * 8 → scan_test m j ≡ true) → scan m cnt ≡ panic
  unfolding scan
  scan_full cnt full = elim (Bool-cases (ltb stop m.btmp_bytes_len)) [
    | inl lt ↦
        let first = first_free-IsFirstFree (ground arith) in
        absurd (let t = full (first_free m stop) first.inside in let f = first.free in cc)
    | inr ge ↦ rw ge
  ]
