-- ===== src/Device/Clock/Sleep.antt =====
-- A sleeping thread goes on at the first test after its time, also where `ticks` has wrapped.
use winux_os.Base.{
  ℕ, zero, suc, ◌+◌, ◌-◌, ◌*◌, ◌^◌, ◌<◌, ◌≤◌, ◌≡◌, refl, ◌==◌, ltb, inl, inr, true, false, some,
  u32, arith, Bool-cases,
}
use winux_os.Device.Clock.{sleep_loop, ticks_to_sleep, sleep_ticks_of, mtime_sleep}

-- `time i` is the number of clock interrupts since the start at test `i`, which `ticks` counts
-- modulo 2^32; `start` is that number at the call, and test `m` is the first one at which the
-- thread has slept long enough.
pub record WakesAt (time : ℕ → ℕ) (start sleep m : ℕ) : Type 0 where
  pub onward : (i : ℕ) → start ≤ time i
  pub early : (i : ℕ) → i < m → time i < start + sleep
  pub late : start + sleep ≤ time m
  pub soon : time m < start + 2 ^ 32

module _ (time : ℕ → ℕ) (start sleep m : ℕ) (w : WakesAt time start sleep m)
    (small : sleep < 2 ^ 32) where
  elapsed : (t : ℕ) → start ≤ t → t < start + 2 ^ 32 → u32 (u32 t + 2 ^ 32 - u32 start) ≡ t - start
  elapsed t a b = omega arith

  loop_wakes :
      (fuel i : ℕ)
      → i ≤ m
      → m < i + fuel
      → sleep_loop fuel (λ j. u32 (time j)) (u32 start) sleep i ≡ some m
  unfolding sleep_loop
  loop_wakes zero i le h = absurd (omega arith)
  loop_wakes (suc fuel) i le h = elim (Bool-cases (i == m)) [
    | inl here ↦
        let e : i ≡ m = ground arith in
        let gone = elapsed (time m) (w.onward m) w.soon in
        let over : ltb (time m - start) sleep ≡ false = ground (arith, w.late) in
        rw (e, gone, over) refl
    | inr there ↦
        let before = w.early i (ground arith) in
        let gone = elapsed (time i) (w.onward i) (omega arith) in
        let under : ltb (time i - start) sleep ≡ true = ground (arith, w.onward i) in
        rw (gone, under) (loop_wakes fuel (i + 1) (ground arith) (omega arith))
  ]

  -- `ticks_to_sleep` ends, at that test and not before, for every number of ticks below 2^32,
  -- whether or not the counter wraps meanwhile.
  pub ticks_to_sleep_lem :
      (fuel : ℕ) → m < fuel → ticks_to_sleep fuel (λ j. u32 (time j)) (u32 start) sleep ≡ some m
  unfolding ticks_to_sleep
  ticks_to_sleep_lem fuel h = loop_wakes fuel 0 (omega arith) (omega arith)

-- The number of ticks for a sleep is enough for the milliseconds and less than one tick too long,
-- unless the addition wraps.
pub sleep_ticks_lem :
    (m_seconds : ℕ)
    → m_seconds ≤ 2 ^ 32 - 10
    → (m_seconds ≤ sleep_ticks_of m_seconds * 10) × (sleep_ticks_of m_seconds * 10 < m_seconds + 10)
unfolding sleep_ticks_of
sleep_ticks_lem ms h = (omega arith, omega arith)

-- A tick is 10 ms: test `m` is the first one at which the milliseconds have passed.
pub record WakesAfter (time : ℕ → ℕ) (start m_seconds m : ℕ) : Type 0 where
  pub onward : (i : ℕ) → start ≤ time i
  pub early : (i : ℕ) → i < m → (time i - start) * 10 < m_seconds
  pub late : m_seconds ≤ (time m - start) * 10
  pub soon : time m < start + 2 ^ 32

WakesAfter-WakesAt :
    (time : ℕ → ℕ) (start m_seconds m : ℕ)
    → m_seconds ≤ 2 ^ 32 - 10
    → WakesAfter time start m_seconds m
    → WakesAt time start (sleep_ticks_of m_seconds) m
WakesAfter-WakesAt time start ms m h w =
    let t = sleep_ticks_lem ms h in
    record {
      onward = w.onward;
      early = λ i p. omega (arith, t, w.early i p, w.onward i);
      late = omega (arith, t, w.late, w.onward m);
      soon = w.soon;
    }

-- For at most 2^32 - 10 milliseconds `mtime_sleep` ends at the first test of `ticks` at which that
-- many milliseconds have passed, 10 for each tick, and not before, also where the counter wraps
-- meanwhile, if that test comes within 2^32 ticks.
pub mtime_sleep_lem :
    (time : ℕ → ℕ) (start m_seconds m fuel : ℕ)
    → m_seconds ≤ 2 ^ 32 - 10
    → WakesAfter time start m_seconds m
    → m < fuel
    → mtime_sleep fuel (λ j. u32 (time j)) (u32 start) m_seconds ≡ some m
unfolding mtime_sleep
mtime_sleep_lem time start ms m fuel h w f =
    let t = sleep_ticks_lem ms h in
    ticks_to_sleep_lem time start (sleep_ticks_of ms) m (WakesAfter-WakesAt time start ms m h w)
      (omega (arith, t)) fuel f
