-- ===== src/Device/Keyboard/Codes.antt =====
-- What single keys do: letters, the keys that are held, and the bounds of the table.
use winux_os.Base.{
  ℕ, ◌+◌, ◌-◌, ◌<◌, ◌≤◌, ◌≡◌, refl, ap, ◌∙◌, Bool, true, false, not, ◌&&◌, ◌||◌, List, [], ◌∷◌,
  ◌++◌, ◌==◌, leb, ltb, bit_and, length, all_below, all_below_sound, arith,
}
use winux_os.Device.Keyboard.{
  Keys, Action, quiet, unknown_key, types, keymap, is_known, is_letter, shifted, key_index,
  key_char, press, merge, release, press_control, decode_code, decode,
}

-- Every byte that the handler may look up, after 0xe0 or not, leads inside the table.
index_law : ℕ → Bool
index_law s =
    (not (is_known (merge true s)) || ltb (key_index (merge true s)) (length keymap))
    && (not (is_known (merge false s)) || ltb (key_index (merge false s)) (length keymap))

index_table : all_below 256 index_law ≡ true
unfolding all_below index_law is_known merge key_index keymap
index_table = refl

-- The handler never reads outside `keymap`.
pub key_index-lt :
    (ext : Bool) (scancode : ℕ)
    → scancode < 256
    → is_known (merge ext scancode) ≡ true
    → key_index (merge ext scancode) < length keymap
unfolding index_law
key_index-lt true s h known = ground (arith, all_below_sound 256 index_law s index_table h)
key_index-lt false s h known = ground (arith, all_below_sound 256 index_law s index_table h)

-- The two characters of a letter's key are the small and the capital letter.
letter_law : ℕ → Bool
letter_law s =
    not (is_letter s)
    || ((bit_and s 0x80 == 0)
        && is_known s
        && (key_char true (key_index s) + 32 == key_char false (key_index s))
        && leb 97 (key_char false (key_index s))
        && leb (key_char false (key_index s)) 122)

letter_table : all_below 256 letter_law ≡ true
unfolding all_below letter_law is_letter is_known key_char key_index keymap
letter_table = refl

abbrev pub capital_if : Bool → ℕ → ℕ
capital_if true c = c - 32
capital_if false c = c

key_char-capital :
    (up : Bool) (s : ℕ)
    → s < 256
    → is_letter s ≡ true
    → key_char up (key_index s) ≡ capital_if up (key_char false (key_index s))
unfolding letter_law
key_char-capital true s h letter = ground (arith, all_below_sound 256 letter_law s letter_table h)
key_char-capital false s h letter = refl

key_char-visible :
    (up : Bool) (s : ℕ) → s < 256 → is_letter s ≡ true → (key_char up (key_index s) == 0) ≡ false
unfolding letter_law
key_char-visible true s h letter = ground (arith, all_below_sound 256 letter_law s letter_table h)
key_char-visible false s h letter = ground (arith, all_below_sound 256 letter_law s letter_table h)

press-letter :
    (k : Keys) (s : ℕ)
    → s < 256
    → is_letter s ≡ true
    → press k s ≡ (k, types (capital_if (k.shift || k.caps_lock) (key_char false (key_index s))))
unfolding press shifted
press-letter k s h letter =
    let up = k.shift || k.caps_lock in
    rw (press, letter, key_char-visible up s h letter)
      (ap (λ c. (k, types c)) (key_char-capital up s h letter))

decode-unprefixed :
    (k : Keys) (s : ℕ)
    → k.ext ≡ false
    → (s == 0xe0) ≡ false
    → (bit_and s 0x80 == 0) ≡ true
    → is_known s ≡ true
    → decode k s ≡ press k s
unfolding decode decode_code merge
decode-unprefixed k s e a b c = rw (a, e, decode_code, b, c) refl

-- A letter's make code, not after 0xe0, types that letter: a capital exactly while a shift key is
-- held or caps lock is on. No status changes.
pub decode-letter :
    (k : Keys) (scancode : ℕ)
    → scancode < 256
    → is_letter scancode ≡ true
    → k.ext ≡ false
    → (c : ℕ) × (97 ≤ c)
      × (c ≤ 122)
      × (decode k scancode ≡ (k, types (capital_if (k.shift || k.caps_lock) c)))
unfolding letter_law decode decode_code press shifted merge
decode-letter k s h letter e =
    let facts = all_below_sound 256 letter_law s letter_table h in
    (
      key_char false (key_index s),
      ground (arith, facts),
      ground (arith, facts),
      decode-unprefixed k s e (ground (arith, facts)) (ground (arith, facts))
            (ground (arith, facts))
          ∙ press-letter k s h letter,
    )

-- The keys that the handler takes for held.
pub data Held : Type 0 where
  ctrl_l ctrl_r shift_l shift_r alt_l alt_r : Held

abbrev pub make_code : Held → List ℕ
make_code ctrl_l = 0x1d ∷ []
make_code ctrl_r = 0xe0 ∷ 0x1d ∷ []
make_code shift_l = 0x2a ∷ []
make_code shift_r = 0x36 ∷ []
make_code alt_l = 0x38 ∷ []
make_code alt_r = 0xe0 ∷ 0x38 ∷ []

abbrev pub break_code : Held → List ℕ
break_code ctrl_l = 0x9d ∷ []
break_code ctrl_r = 0xe0 ∷ 0x9d ∷ []
break_code shift_l = 0xaa ∷ []
break_code shift_r = 0xb6 ∷ []
break_code alt_l = 0xb8 ∷ []
break_code alt_r = 0xe0 ∷ 0xb8 ∷ []

abbrev pub set_held : Held → Bool → Keys → Keys
set_held ctrl_l down k = record k { ctrl = down }
set_held ctrl_r down k = record k { ctrl = down }
set_held shift_l down k = record k { shift = down }
set_held shift_r down k = record k { shift = down }
set_held alt_l down k = record k { alt = down }
set_held alt_r down k = record k { alt = down }

-- The bytes of several interrupts: the keys at the end, and the characters that were typed.
abbrev pub typed : Action → List ℕ
typed quiet = []
typed unknown_key = []
typed (types c) = c ∷ []

unfoldable pub decode_all : Keys → List ℕ → Keys × List ℕ
decode_all k [] = (k, [])
decode_all k (b ∷ bs) =
    let d = decode k b in let rest = decode_all d.0 bs in (rest.0, typed d.1 ++ rest.1)

-- The make codes of ctrl, shift and alt set the key's status, their break codes clear it, on the
-- left and on the right; they type nothing and change nothing else.
pub decode-held :
    (k : Keys) (key : Held)
    → k.ext ≡ false
    → (decode_all k (make_code key) ≡ (set_held key true k, []))
      × (decode_all k (break_code key) ≡ (set_held key false k, []))
unfolding decode_all decode decode_code press shifted is_letter is_known key_char key_index keymap
    merge release press_control
decode-held k ctrl_l e = rw e (ground arith, ground arith)
decode-held k ctrl_r e = rw e (ground arith, ground arith)
decode-held k shift_l e = rw e (ground arith, ground arith)
decode-held k shift_r e = rw e (ground arith, ground arith)
decode-held k alt_l e = rw e (ground arith, ground arith)
decode-held k alt_r e = rw e (ground arith, ground arith)
