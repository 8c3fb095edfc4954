-- ===== src/Stdio.antt =====
-- lib/stdio.c and lib/kernel/stdio_kernel.c: formatted output. The buffer that is written is the
-- bytes from `str` on and the place of `buf_ptr` in it. Argument `k` is the word `ap k`; where a
-- word is a pointer, `mem` has the bytes that it points to. No pointer leads into the buffer.
pub mod Digits
pub mod Text
pub mod Render
pub mod Rounds
pub mod Printf
mod Examples
use winux_os.Base.{
  ℕ, zero, suc, ◌+◌, ◌-◌, ◌/◌, ◌%◌, ◌^◌, Bool, true, false, Option, none, some, ◌==◌, ◌||◌, ltb,
  if◌then◌else◌, Bytes, update, u8, u32,
}
use winux_os.Base.Options.{◌>>=◌}
use winux_os.Str.{strlen, strcpy_from}

-- The character of a digit: `m + '0'` or `m - 10 + 'a'`, as a char.
abbrev pub digit : ℕ → ℕ
digit m = if ltb m 10 then u8 (m + 48) else u8 (m - 10 + 97)

abbrev pub put_char : ℕ → Bytes × ℕ → Bytes × ℕ
put_char c (buf, pos) = (update buf pos c, pos + 1)

-- `none` where the fuel ends before the digits do. The base is a uint8_t.
unfoldable pub itoa : ℕ → ℕ → ℕ → Bytes × ℕ → Option (Bytes × ℕ)
itoa zero value base out = none
itoa (suc fuel) value base out = elim (value / u8 base == 0) [
  | true ↦ some (put_char (digit (value % u8 base)) out)
  | false ↦
      (itoa fuel (value / u8 base) base out >>= λ high.
      some (put_char (digit (value % u8 base)) high))
]

-- The cases of the `switch`: x, s, d and c.
abbrev pub is_conversion : ℕ → Bool
is_conversion c = (c == 120) || (c == 115) || (c == 100) || (c == 99)

unfoldable pub show_int : ℕ → ℕ → Bytes × ℕ → Option (Bytes × ℕ)
unfolding itoa
show_int fuel w out = elim (ltb w (2 ^ 31)) [
  | true ↦ itoa fuel w 10 out
  | false ↦ itoa fuel (u32 (2 ^ 32 - w)) 10 (put_char 45 out)
]

unfoldable pub show_str : ℕ → Bytes → Bytes × ℕ → Option (Bytes × ℕ)
unfolding strcpy_from strlen
show_str fuel s (buf, pos) =
    strcpy_from fuel buf pos s 0 >>= λ copied. strlen fuel s >>= λ len. some (copied, pos + len)

unfoldable pub convert : ℕ → (ℕ → Bytes) → ℕ → ℕ → Bytes × ℕ → Option (Bytes × ℕ)
unfolding itoa show_int show_str
convert fuel mem c w out =
    if c == 120
    then itoa fuel w 16 out
    else if c == 115
    then show_str fuel (mem w) out
    else if c == 100
    then show_int fuel w out
    else some (put_char (u8 w) out)

-- The loop over the format from `format[i]` and argument `k` on. After a `%` that no case takes,
-- the loop goes on at the character behind it.
unfoldable pub vsprintf_from :
    ℕ → (ℕ → Bytes) → Bytes → (ℕ → ℕ) → ℕ → ℕ → Bytes × ℕ → Option (Bytes × ℕ)
unfolding convert
vsprintf_from zero mem format ap i k out = none
vsprintf_from (suc fuel) mem format ap i k out = elim (format i == 0) [
  | true ↦ some out
  | false ↦ elim (format i == 37) [
    | false ↦ vsprintf_from fuel mem format ap (i + 1) k (put_char (format i) out)
    | true ↦ elim (is_conversion (format (i + 1))) [
      | true ↦
          (convert fuel mem (format (i + 1)) (ap k) out >>= λ shown.
          vsprintf_from fuel mem format ap (i + 2) (k + 1) shown)
      | false ↦ vsprintf_from fuel mem format ap (i + 1) k out
    ]
  ]
]

-- The buffer after `vsprintf`, and the length that it returns.
unfoldable pub vsprintf : ℕ → (ℕ → Bytes) → Bytes → (ℕ → ℕ) → Bytes → Option (Bytes × ℕ)
unfolding vsprintf_from strlen
vsprintf fuel mem format ap str = vsprintf_from fuel mem format ap 0 0 (str, 0) >>= λ out.
    strlen fuel out.0 >>= λ len. some (out.0, len)

unfoldable pub sprintf : ℕ → (ℕ → Bytes) → Bytes → (ℕ → ℕ) → Bytes → Option (Bytes × ℕ)
unfolding vsprintf
sprintf fuel mem format ap buf = vsprintf fuel mem format ap buf

-- `char buf[1024] = {0}`
abbrev pub zeroed : Bytes
zeroed i = 0

-- What `printf` passes to `write`: the bytes, and `strlen(buf)`.
unfoldable pub printf : ℕ → (ℕ → Bytes) → Bytes → (ℕ → ℕ) → Option (Bytes × ℕ)
unfolding vsprintf strlen
printf fuel mem format ap =
    vsprintf fuel mem format ap zeroed >>= λ out. strlen fuel out.0 >>= λ len. some (out.0, len)

-- What `printk` passes to `console_put_str`.
unfoldable pub printk : ℕ → (ℕ → Bytes) → Bytes → (ℕ → ℕ) → Option Bytes
unfolding vsprintf
printk fuel mem format ap = vsprintf fuel mem format ap zeroed >>= λ out. some out.0
