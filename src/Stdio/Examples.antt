-- ===== src/Stdio/Examples.antt =====
-- Formatted output of a short format: "a%d:%s" with the arguments -5 and "ok".
use winux_os.Base.{
  Option, ℕ, ◌+◌, ◌-◌, ◌^◌, ◌<◌, ◌≡◌, refl, ◌==◌, List, length, Bytes, if◌then◌else◌, arith, some,
  none,
}
use winux_os.Str.Compare.{IsEnd}
use winux_os.Stdio.{itoa, vsprintf_from, printf, zeroed}
use winux_os.Stdio.Text.{IsPut}
use winux_os.Stdio.Digits.{IsNumeral, itoa_lem}
use winux_os.Stdio.Render.{Renders, Writes}
use winux_os.Stdio.Rounds.{HasStrings, vsprintf_from_lem}
use winux_os.Stdio.Printf.{HasChars, printf_lem}

abbrev format : Bytes
format i =
    if i == 0
    then 97
    else if i == 1
    then 37
    else if i == 2
    then 100
    else if i == 3
    then 58
    else if i == 4
    then 37
    else if i == 5
    then 115
    else 0

abbrev ok_text : Bytes
ok_text i = if i == 0 then 111 else if i == 1 then 107 else 0

abbrev mem : ℕ → Bytes
mem w = ok_text

abbrev args : ℕ → ℕ
args k = if k == 0 then 2 ^ 32 - 5 else 4096

format-IsEnd : IsEnd format 0 6
format-IsEnd = (omega arith, refl, λ j p q. ground arith)

ok-IsEnd : IsEnd ok_text 0 2
ok-IsEnd = (omega arith, refl, λ j p q. ground arith)

words : (k : ℕ) → args k < 2 ^ 32
words k = ground arith

strings : HasStrings 32 mem format args
strings i k p q = (2, ok-IsEnd, omega arith)

no_char : HasChars format args
no_char i k p q z = ground arith

itoa_lem_example :
    (cs : List ℕ) × (out : Bytes) × (itoa 8 255 16 (zeroed, 0) ≡ some (out, 0 + length cs))
    × IsNumeral 16 255 cs
    × IsPut zeroed 0 cs out
itoa_lem_example =
    itoa_lem 8 255 16 zeroed 0 (omega arith) (omega arith) (omega arith) (omega arith)

vsprintf_from_lem_example :
    (text : List ℕ) × Writes zeroed 0 (vsprintf_from 40 mem format args 0 0 (zeroed, 0)) text
    × Renders mem format args 0 0 text
vsprintf_from_lem_example =
    vsprintf_from_lem 32 mem format args 6 (omega arith) words strings 40 0 0 zeroed 0 format-IsEnd
      (omega arith)

-- The buffer after the loop, and the place behind the text.
abbrev reached : Option (Bytes × ℕ) → Bytes × ℕ
reached none = (zeroed, 0)
reached (some out) = out

abbrev after : Bytes × ℕ
after = reached (vsprintf_from 1100 mem format args 0 0 (zeroed, 0))

six_chars : after.1 ≡ 6
unfolding vsprintf_from
six_chars = refl

run : vsprintf_from 1100 mem format args 0 0 (zeroed, 0) ≡ some (after.0, after.1)
unfolding vsprintf_from
run = refl

printf_lem_example :
    (text : List ℕ) × Renders mem format args 0 0 text
    × (printf 1100 mem format args ≡ some (after.0, length text))
    × IsPut zeroed 0 text after.0
unfolding vsprintf_from
printf_lem_example =
    printf_lem 32 mem format args 6 1100 format-IsEnd (omega arith) words strings no_char
      (omega arith) after.0 after.1 run (omega arith) (omega arith)
