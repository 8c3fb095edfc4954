-- ===== src/Device/Clock.antt =====
-- device/time.c: the clock's programming and sleeping. `intr_time_handle` is `tick` of Thread.
pub mod Sleep
mod Examples
use winux_os.Base.{
  ℕ, zero, suc, ◌+◌, ◌-◌, ◌*◌, ◌/◌, ◌%◌, ◌^◌, Bool, true, false, Option, none, some, List, [], ◌∷◌,
  ltb, if◌then◌else◌, u8, u32,
}

-- The macros without parentheses, as they expand: the cast binds before the division.
unfoldable pub time_init : List (ℕ × ℕ)
time_init =
    (0x43, u8 (0 * 2 ^ 6 + 2 * 2 ^ 4 + 2 * 2 ^ 1))
    ∷ (0x40, u8 1193180 / 100)
    ∷ (0x40, u8 (1193180 / 100 / 2 ^ 8))
    ∷ []

-- The loop of `ticks_to_sleep`: `clock i` is what the test reads from `ticks` after `i` calls of
-- `thread_yield`. The result is the number of these calls.
unfoldable pub sleep_loop : ℕ → (ℕ → ℕ) → ℕ → ℕ → ℕ → Option ℕ
sleep_loop zero clock start_tick sleep_ticks i = none
sleep_loop (suc fuel) clock start_tick sleep_ticks i =
    let rest = sleep_loop fuel clock start_tick sleep_ticks (i + 1) in
    if ltb (u32 (clock i + 2 ^ 32 - start_tick)) sleep_ticks then rest else some i

-- `start` is the value of `ticks` at the call.
unfoldable pub ticks_to_sleep : ℕ → (ℕ → ℕ) → ℕ → ℕ → Option ℕ
unfolding sleep_loop
ticks_to_sleep fuel clock start sleep_ticks = sleep_loop fuel clock start sleep_ticks 0

abbrev pub ms_per_intr : ℕ
ms_per_intr = 1000 / 100

-- DIV_ROUND_UP on uint32_t.
unfoldable pub sleep_ticks_of : ℕ → ℕ
sleep_ticks_of m_seconds = u32 (m_seconds + ms_per_intr - 1) / ms_per_intr

unfoldable pub mtime_sleep : ℕ → (ℕ → ℕ) → ℕ → ℕ → Option ℕ
unfolding ticks_to_sleep sleep_ticks_of
mtime_sleep fuel clock start m_seconds = ticks_to_sleep fuel clock start (sleep_ticks_of m_seconds)
