-- ===== src/Device/Ide/Wait.antt =====
-- device/ide.c: `busy_wait`, by the values of the status register that it reads one after another.
use winux_os.Base.{
  ℕ, zero, suc, ◌+◌, ◌<◌, ◌≤◌, ◌≡◌, refl, Bool, true, false, ◌==◌, if◌then◌else◌, has_bit, arith,
  Bool-cases, inl, inr,
}

-- BIT_STAT_BSY and BIT_STAT_DRQ.
abbrev pub is_busy : ℕ → Bool
is_busy status = has_bit status 7

abbrev pub has_data : ℕ → Bool
has_data status = has_bit status 3

-- Rounds of the loop from read `i` on: each reads the register, and once more when it is not busy.
unfoldable pub busy_from : ℕ → (ℕ → ℕ) → ℕ → Bool
busy_from zero status i = false
busy_from (suc rounds) status i =
    let rest = busy_from rounds status (i + 1) in
    if is_busy (status i) then rest else has_data (status (i + 1))

-- `time_limit` goes from 30000 down to 0 by tens, and the loop ends at 0: 2999 rounds.
unfoldable pub busy_wait : (ℕ → ℕ) → Bool
unfolding busy_from
busy_wait status = busy_from 2999 status 0

busy_from_ready :
    (rounds : ℕ) (status : ℕ → ℕ) (i n : ℕ)
    → i ≤ n
    → n < i + rounds
    → ((j : ℕ) → i ≤ j → j < n → is_busy (status j) ≡ true)
    → is_busy (status n) ≡ false
    → busy_from rounds status i ≡ has_data (status (n + 1))
unfolding busy_from
busy_from_ready zero status i n le h busy free = absurd (omega arith)
busy_from_ready (suc rounds) status i n le h busy free = elim (Bool-cases (i == n)) [
  | inl here ↦ let e : i ≡ n = ground arith in rw (e, free) refl
  | inr there ↦ rw (busy i (omega arith) (ground arith)) (
      busy_from_ready rounds status (i + 1) n (ground arith) (omega arith)
        (λ j p q. busy j (omega arith) q) free)
]

busy_from_never :
    (rounds : ℕ) (status : ℕ → ℕ) (i : ℕ)
    → ((j : ℕ) → is_busy (status j) ≡ true)
    → busy_from rounds status i ≡ false
unfolding busy_from
busy_from_never zero status i busy = refl
busy_from_never (suc rounds) status i busy =
    rw (busy i) (busy_from_never rounds status (i + 1) busy)

-- When the drive is busy at the reads before `n`, at most 2999 of them with this one, and not at
-- `n`, the result is whether it has data at the next read.
pub busy_wait-ready :
    (status : ℕ → ℕ) (n : ℕ)
    → n < 2999
    → ((j : ℕ) → j < n → is_busy (status j) ≡ true)
    → is_busy (status n) ≡ false
    → busy_wait status ≡ has_data (status (n + 1))
unfolding busy_wait
busy_wait-ready status n h busy free =
    busy_from_ready 2999 status 0 n (omega arith) (omega arith) (λ j p q. busy j q) free

-- A drive that stays busy gives false.
pub busy_wait-never :
    (status : ℕ → ℕ) → ((j : ℕ) → is_busy (status j) ≡ true) → busy_wait status ≡ false
unfolding busy_wait
busy_wait-never status busy = busy_from_never 2999 status 0 busy
