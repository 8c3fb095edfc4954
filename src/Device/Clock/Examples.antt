-- ===== src/Device/Clock/Examples.antt =====
-- Sleeping 25 ms while the counter wraps.
use winux_os.Base.{ℕ, ◌+◌, ◌-◌, ◌^◌, ◌≡◌, some, u32, arith}
use winux_os.Device.Clock.{mtime_sleep}
use winux_os.Device.Clock.Sleep.{WakesAfter, mtime_sleep_lem}

-- One interrupt between two tests; the counter wraps at the second.
abbrev time : ℕ → ℕ
time i = 2 ^ 32 - 2 + i

wakes : WakesAfter time (2 ^ 32 - 2) 25 3
wakes = record {
  onward = λ i. omega arith;
  early = λ i h. omega arith;
  late = omega arith;
  soon = omega arith;
}

mtime_sleep_lem_example : mtime_sleep 10 (λ j. u32 (time j)) (u32 (2 ^ 32 - 2)) 25 ≡ some 3
mtime_sleep_lem_example =
    mtime_sleep_lem time (2 ^ 32 - 2) 25 3 10 (omega arith) wakes (omega arith)
