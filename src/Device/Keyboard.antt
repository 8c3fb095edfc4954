-- ===== src/Device/Keyboard.antt =====
-- device/keyboard.c: the keyboard's interrupt handler, from a scan code to the ring buffer. The
-- byte that `inb` reads is the handler's argument. A flag is an `int` that is 0 or 1, as a Bool.
pub mod Codes
pub mod Typing
mod Examples
use winux_os.Base.{
  ℕ, ◌+◌, Bool, true, false, not, ◌&&◌, ◌||◌, List, [], ◌∷◌, ◌==◌, leb, ltb, if◌then◌else◌, get_or,
  bit_and, bit_or, u8, Outcome, ok, ◌>>=◌,
}
use winux_os.Thread.{Threads}
use winux_os.Device.Queue.{IoQueue, ioq_init, ioq_putchar}

abbrev pub ctrl_l_make : ℕ
ctrl_l_make = 0x1d

abbrev pub ctrl_r_make : ℕ
ctrl_r_make = 0xe01d

abbrev pub shift_l_make : ℕ
shift_l_make = 0x2a

abbrev pub shift_r_make : ℕ
shift_r_make = 0x36

abbrev pub alt_l_make : ℕ
alt_l_make = 0x38

abbrev pub alt_r_make : ℕ
alt_r_make = 0xe038

abbrev pub caps_lock_make : ℕ
caps_lock_make = 0x3a

-- By make code: the characters without and with shift. An invisible character is 0.
unfoldable pub keymap : List (ℕ × ℕ)
keymap =
    (0, 0)
    ∷ (27, 27)
    ∷ (49, 33)
    ∷ (50, 64)
    ∷ (51, 35)
    ∷ (52, 36)
    ∷ (53, 37)
    ∷ (54, 94)
    ∷ (55, 38)
    ∷ (56, 42)
    ∷ (57, 40)
    ∷ (48, 41)
    ∷ (45, 95)
    ∷ (61, 43)
    ∷ (8, 8)
    ∷ (9, 9)
    ∷ (113, 81)
    ∷ (119, 87)
    ∷ (101, 69)
    ∷ (114, 82)
    ∷ (116, 84)
    ∷ (121, 89)
    ∷ (117, 85)
    ∷ (105, 73)
    ∷ (111, 79)
    ∷ (112, 80)
    ∷ (91, 123)
    ∷ (93, 125)
    ∷ (13, 13)
    ∷ (0, 0)
    ∷ (97, 65)
    ∷ (115, 83)
    ∷ (100, 68)
    ∷ (102, 70)
    ∷ (103, 71)
    ∷ (104, 72)
    ∷ (106, 74)
    ∷ (107, 75)
    ∷ (108, 76)
    ∷ (59, 58)
    ∷ (39, 34)
    ∷ (96, 126)
    ∷ (0, 0)
    ∷ (92, 124)
    ∷ (122, 90)
    ∷ (120, 88)
    ∷ (99, 67)
    ∷ (118, 86)
    ∷ (98, 66)
    ∷ (110, 78)
    ∷ (109, 77)
    ∷ (44, 60)
    ∷ (46, 62)
    ∷ (47, 63)
    ∷ (0, 0)
    ∷ (42, 42)
    ∷ (0, 0)
    ∷ (32, 32)
    ∷ (0, 0)
    ∷ []

-- ctrl_status, shift_status, alt_status, caps_lock_status and ext_scancode.
pub record Keys : Type 0 where
  pub ctrl : Bool
  pub shift : Bool
  pub alt : Bool
  pub caps_lock : Bool
  pub ext : Bool

-- What the handler does besides: nothing, a character for the buffer, or "unknown key".
pub data Action : Type 0 where
  quiet unknown_key : Action
  types : ℕ → Action

-- A break code clears the status of its key.
unfoldable pub release : Keys → ℕ → Keys
release k make_code =
    if (make_code == ctrl_l_make) || (make_code == ctrl_r_make)
    then record k { ctrl = false }
    else if (make_code == shift_l_make) || (make_code == shift_r_make)
    then record k { shift = false }
    else if (make_code == alt_l_make) || (make_code == alt_r_make)
    then record k { alt = false }
    else k

-- The make codes that the handler knows, and those of the letters among them.
unfoldable pub is_known : ℕ → Bool
is_known code = (ltb 0 code && ltb code 0x3b) || (code == alt_r_make) || (code == ctrl_r_make)

unfoldable pub is_letter : ℕ → Bool
is_letter code =
    (leb 0x10 code && leb code 0x19)
    || (leb 0x1e code && leb code 0x26)
    || (leb 0x2c code && leb code 0x32)

-- Caps lock counts for letters only.
unfoldable pub shifted : Keys → ℕ → Bool
unfolding is_letter
shifted k code = if is_letter code then k.shift || k.caps_lock else k.shift

unfoldable pub key_index : ℕ → ℕ
key_index code = u8 (bit_and code 0x00ff)

unfoldable pub key_char : Bool → ℕ → ℕ
unfolding keymap
key_char true index = (get_or keymap index (0, 0)).1
key_char false index = (get_or keymap index (0, 0)).0

-- A key without a character, the high byte of its code taken off.
unfoldable pub press_control : Keys → ℕ → Keys
press_control k code =
    if (code == ctrl_l_make) || (code == ctrl_r_make)
    then record k { ctrl = true }
    else if (code == shift_l_make) || (code == shift_r_make)
    then record k { shift = true }
    else if (code == alt_l_make) || (code == alt_r_make)
    then record k { alt = true }
    else if code == caps_lock_make
    then record k { caps_lock = not k.caps_lock }
    else k

unfoldable pub press : Keys → ℕ → Keys × Action
unfolding shifted key_index key_char press_control
press k code =
    let cur_char = key_char (shifted k code) (key_index code) in
    if cur_char == 0 then (press_control k (bit_and code 0x00ff), quiet) else (k, types cur_char)

-- `scancode` with the 0xe0 that came before it.
unfoldable pub merge : Bool → ℕ → ℕ
merge true scancode = bit_or 0xe000 scancode
merge false scancode = scancode

unfoldable pub decode_code : Keys → ℕ → Keys × Action
unfolding release is_known press
decode_code k code =
    if not (bit_and code 0x0080 == 0)
    then (release k (bit_and code 0xff7f), quiet)
    else if is_known code
    then press k code
    else (k, unknown_key)

unfoldable pub decode : Keys → ℕ → Keys × Action
unfolding decode_code merge
decode k scancode =
    if scancode == 0xe0
    then (record k { ext = true }, quiet)
    else decode_code (record k { ext = false }) (merge k.ext scancode)

abbrev pub send : Threads → IoQueue → Action → Outcome (Threads × IoQueue)
send s q quiet = ok (s, q)
send s q unknown_key = ok (s, q)
send s q (types c) = ioq_putchar s q c

unfoldable pub intr_keyboard_handler :
    Threads → IoQueue → Keys → ℕ → Outcome (Keys × (Threads × IoQueue))
unfolding decode
intr_keyboard_handler s q k scancode =
    let d = decode k scancode in send s q d.1 >>= λ sent. ok (d.0, sent)

-- `keyboard_init` also registers the handler for the vector 0x21.
abbrev pub keyboard_init : IoQueue → IoQueue
keyboard_init kdb_buf = ioq_init kdb_buf
