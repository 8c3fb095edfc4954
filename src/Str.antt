-- ===== src/Str.antt =====
-- lib/kernel/string.c. A string is the bytes from a pointer on, up to a zero. A loop that looks for
-- the zero takes fuel, and gives `none` where the fuel ends first. `char` is signed.
pub mod Compare
pub mod Copy
use winux_os.Base.{
  ℕ, zero, suc, ◌+◌, ◌-◌, ◌*◌, ◌/◌, ◌%◌, ◌^◌, ◌<◌, Bool, true, false, Option, none, some, ◌==◌, ltb,
  ◌&&◌, ◌||◌, if◌then◌else◌, Bytes, update, u32,
}

pub data Cmp : Type 0 where
  less equal greater : Cmp

-- `*a > *b` on signed characters.
abbrev pub char_gt : ℕ → ℕ → Bool
char_gt a b = ltb ((b + 128) % 256) ((a + 128) % 256)

abbrev pub char_cmp : ℕ → ℕ → Cmp
char_cmp a b = if char_gt a b then greater else less

-- A character against a `uint8_t`: a negative one equals none.
abbrev pub char_is : ℕ → ℕ → Bool
char_is c ch = ltb c 128 && (c == ch)

-- The functions move along a string from `i` on.
unfoldable pub strlen_from : ℕ → Bytes → ℕ → Option ℕ
strlen_from zero s i = none
strlen_from (suc fuel) s i = elim (s i == 0) [ true ↦ some i | false ↦ strlen_from fuel s (i + 1) ]

unfoldable pub strlen : ℕ → Bytes → Option ℕ
unfolding strlen_from
strlen fuel s = strlen_from fuel s 0

unfoldable pub strcmp_from : ℕ → Bytes → Bytes → ℕ → Option Cmp
strcmp_from zero a b i = none
strcmp_from (suc fuel) a b i = if (a i == 0) && (b i == 0) then some equal else elim (a i == b i) [
  | true ↦ strcmp_from fuel a b (i + 1)
  | false ↦ some (char_cmp (a i) (b i))
]

unfoldable pub strcmp : ℕ → Bytes → Bytes → Option Cmp
unfolding strcmp_from
strcmp fuel a b = strcmp_from fuel a b 0

unfoldable pub memcmp_from : ℕ → Bytes → Bytes → ℕ → Cmp
memcmp_from zero a b i = equal
memcmp_from (suc size) a b i = elim (a i == b i) [
  | true ↦ memcmp_from size a b (i + 1)
  | false ↦ char_cmp (a i) (b i)
]

unfoldable pub memcmp : Bytes → Bytes → ℕ → Cmp
unfolding memcmp_from
memcmp a b size = memcmp_from size a b 0

-- `while(size--) *(dst++) = *(src++)`
unfoldable pub memcpy_from : ℕ → Bytes → Bytes → ℕ → Bytes
memcpy_from zero dst src i = dst
memcpy_from (suc size) dst src i = memcpy_from size (update dst i (src i)) src (i + 1)

unfoldable pub memcpy : Bytes → Bytes → ℕ → Bytes
unfolding memcpy_from
memcpy dst src size = memcpy_from size dst src 0

unfoldable pub memset_from : ℕ → Bytes → ℕ → ℕ → Bytes
memset_from zero dst value i = dst
memset_from (suc size) dst value i = memset_from size (update dst i value) value (i + 1)

unfoldable pub memset : Bytes → ℕ → ℕ → Bytes
unfolding memset_from
memset dst value size = memset_from size dst value 0

-- Copies from `src[i]` to `dst[at + i]`, the zero included.
unfoldable pub strcpy_from : ℕ → Bytes → ℕ → Bytes → ℕ → Option Bytes
strcpy_from zero dst at src i = none
strcpy_from (suc fuel) dst at src i = elim (src i == 0) [
  | true ↦ some (update dst (at + i) (src i))
  | false ↦ strcpy_from fuel (update dst (at + i) (src i)) at src (i + 1)
]

unfoldable pub strcpy : ℕ → Bytes → Bytes → Option Bytes
unfolding strcpy_from
strcpy fuel dst src = strcpy_from fuel dst 0 src 0

unfoldable pub strcat : ℕ → Bytes → Bytes → Option Bytes
unfolding strlen strcpy_from
strcat fuel dst src = elim (strlen fuel dst) [
  | none ↦ none
  | some at ↦ strcpy_from fuel dst at src 0
]

-- `some (some i)`: found at `i`.
unfoldable pub strchr_from : ℕ → Bytes → ℕ → ℕ → Option (Option ℕ)
strchr_from zero s ch i = none
strchr_from (suc fuel) s ch i =
    if s i == 0
    then some none
    else elim (char_is (s i) ch) [ true ↦ some (some i) | false ↦ strchr_from fuel s ch (i + 1) ]

unfoldable pub strchr : ℕ → Bytes → ℕ → Option (Option ℕ)
unfolding strchr_from
strchr fuel s ch = strchr_from fuel s ch 0

-- `while(len--)`
unfoldable pub strrchr_down : ℕ → Bytes → ℕ → Option ℕ
strrchr_down zero s ch = none
strrchr_down (suc len) s ch = if char_is (s len) ch then some len else strrchr_down len s ch

unfoldable pub strrchr : ℕ → Bytes → ℕ → Option (Option ℕ)
unfolding strlen strrchr_down
strrchr fuel s ch = elim (strlen fuel s) [ none ↦ none | some len ↦ some (strrchr_down len s ch) ]

unfoldable pub strchrs_from : ℕ → Bytes → ℕ → ℕ → ℕ → Option ℕ
strchrs_from zero s ch i cnt = none
strchrs_from (suc fuel) s ch i cnt = elim (s i == 0) [
  | true ↦ some cnt
  | false ↦ strchrs_from fuel s ch (i + 1) (if char_is (s i) ch then u32 (cnt + 1) else cnt)
]

unfoldable pub strchrs : ℕ → Bytes → ℕ → Option ℕ
unfolding strchrs_from
strchrs fuel s ch = strchrs_from fuel s ch 0 0

-- `rounds` pairs from `idx` on; the zero goes behind the last pair.
unfoldable pub swap_pairs_from : ℕ → Bytes → Bytes → ℕ → Bytes
swap_pairs_from zero src buf idx = update buf idx 0
swap_pairs_from (suc rounds) src buf idx =
    swap_pairs_from rounds src (update (update buf (idx + 1) (src idx)) idx (src (idx + 1)))
      (idx + 2)

unfoldable pub swap_pairs_bytes : Bytes → Bytes → ℕ → Bytes
unfolding swap_pairs_from
swap_pairs_bytes src buf len = swap_pairs_from ((len + 1) / 2) src buf 0
