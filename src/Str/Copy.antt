-- ===== src/Str/Copy.antt =====
-- lib/kernel/string.c: what the copying functions leave in memory, byte for byte.
use winux_os.Base.{
  ℕ, zero, suc, ◌+◌, ◌-◌, ◌<◌, ◌≡◌, inl, inr, ◌∙◌, true, false, ◌==◌, ltb, leb, ◌&&◌, if◌then◌else◌,
  some, Bytes, update, arith, Bool-cases,
}
use winux_os.Str.{memcpy, memcpy_from, memset, memset_from, strcpy_from, strcat}
use winux_os.Str.Compare.{IsEnd, strlen_lem}

memcpy_from_lem :
    (size : ℕ) (dst src : Bytes) (i j : ℕ)
    → memcpy_from size dst src i j ≡ (if leb i j && ltb j (i + size) then src j else dst j)
unfolding memcpy_from
memcpy_from_lem zero dst src i j = ground arith
memcpy_from_lem (suc size) dst src i j =
    memcpy_from_lem size (update dst i (src i)) src (i + 1) j ∙ ground arith

-- `memcpy` copies the first `size` bytes of the source and leaves the other bytes of the
-- destination, in one memory where the two do not overlap.
pub memcpy_lem :
    (dst src : Bytes) (size j : ℕ) → memcpy dst src size j ≡ (if ltb j size then src j else dst j)
unfolding memcpy
memcpy_lem dst src size j = memcpy_from_lem size dst src 0 j ∙ ground arith

memset_from_lem :
    (size : ℕ) (dst : Bytes) (value i j : ℕ)
    → memset_from size dst value i j ≡ (if leb i j && ltb j (i + size) then value else dst j)
unfolding memset_from
memset_from_lem zero dst value i j = ground arith
memset_from_lem (suc size) dst value i j =
    memset_from_lem size (update dst i value) value (i + 1) j ∙ ground arith

pub memset_lem :
    (dst : Bytes) (value size j : ℕ)
    → memset dst value size j ≡ (if ltb j size then value else dst j)
unfolding memset
memset_lem dst value size j = memset_from_lem size dst value 0 j ∙ ground arith

last_byte :
    (dst : Bytes) (at : ℕ) (src : Bytes) (i n j : ℕ)
    → i ≡ n
    → update dst (at + i) (src i) j
      ≡ (if leb (at + i) j && leb j (at + n) then src (j - at) else dst j)
last_byte dst at src i n j e = elim (Bool-cases (at + i == j)) [
  | inl here ↦ let off : j - at ≡ i = ground arith in rw off (ground arith)
  | inr there ↦ ground arith
]

one_byte :
    (dst : Bytes) (at : ℕ) (src : Bytes) (i n j : ℕ)
    → i < n
    → (if leb (at + (i + 1)) j && leb j (at + n)
        then src (j - at)
        else update dst (at + i) (src i) j)
      ≡ (if leb (at + i) j && leb j (at + n) then src (j - at) else dst j)
one_byte dst at src i n j h = elim (Bool-cases (at + i == j)) [
  | inl here ↦ let off : j - at ≡ i = ground arith in rw off (ground arith)
  | inr there ↦ ground arith
]

pub strcpy_from-end :
    (fuel : ℕ) (dst : Bytes) (at : ℕ) (src : Bytes) (i n : ℕ)
    → IsEnd src i n
    → n < i + fuel
    → (out : Bytes) × (strcpy_from fuel dst at src i ≡ some out)
      × ((j : ℕ) → out j ≡ (if leb (at + i) j && leb j (at + n) then src (j - at) else dst j))
unfolding strcpy_from
strcpy_from-end zero dst at src i n (le, z, nz) h = absurd (omega arith)
strcpy_from-end (suc fuel) dst at src i n (le, z, nz) h = elim (Bool-cases (i == n)) [
  | inl here ↦
      let e : (src i == 0) ≡ true = ground arith in
      (
        update dst (at + i) (src i),
        rw (strcpy_from, e),
        λ j. last_byte dst at src i n j (ground arith),
      )
  | inr there ↦
      let more = nz i (omega arith) (ground arith) in
      let e : (src i == 0) ≡ false = ground arith in
      let (out, go, bytes) =
        strcpy_from-end fuel (update dst (at + i) (src i)) at src (i + 1) n
          (ground arith, z, λ j p q. nz j (omega arith) q) (omega arith) in
      (out, rw (strcpy_from, e) go, λ j. bytes j ∙ one_byte dst at src i n j (ground arith))
]

-- With fuel for both strings `strcat` appends the second string with its zero where the zero of
-- the first was, and leaves every other byte of the destination.
pub strcat_lem :
    (fuel : ℕ) (dst src : Bytes) (m n : ℕ)
    → IsEnd dst 0 m
    → IsEnd src 0 n
    → m < fuel
    → n < fuel
    → (out : Bytes) × (strcat fuel dst src ≡ some out)
      × ((j : ℕ) → out j ≡ (if leb m j && leb j (m + n) then src (j - m) else dst j))
unfolding strcat
strcat_lem fuel dst src m n ed es hm hn =
    let e = strlen_lem fuel dst m ed hm in
    let (out, run, bytes) = strcpy_from-end fuel dst m src 0 n es (omega arith) in
    let base : m + 0 ≡ m = omega arith in (out, rw (strcat, e) run, λ j. rw base at (bytes j))
