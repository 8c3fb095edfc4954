-- ===== src/Interrupt/Flag.antt =====
-- Sections with interrupts off.
use winux_os.Base.{ℕ, ◌≡◌, inl, inr, Bool-cases, arith}
use winux_os.Interrupt.{
  intr_off, intr_on, is_enabled, intr_get_status, intr_enable, intr_disable, intr_set_status,
}

-- `intr_disable` clears the interrupt flag and `intr_enable` sets it; both return the status before.
pub intr_change_lem :
    (eflags : ℕ)
    → (intr_get_status (intr_disable eflags).1 ≡ intr_off)
      × ((intr_disable eflags).0 ≡ intr_get_status eflags)
      × (intr_get_status (intr_enable eflags).1 ≡ intr_on)
      × ((intr_enable eflags).0 ≡ intr_get_status eflags)
unfolding intr_get_status intr_enable intr_disable
intr_change_lem eflags = ground arith

-- A section that starts with `intr_disable`, leaves EFLAGS as it was then, and ends with
-- `intr_set_status` of the old status gives EFLAGS back: sections can be nested.
pub set_status-disable :
    (eflags : ℕ) → (intr_set_status (intr_disable eflags).0 (intr_disable eflags).1).1 ≡ eflags
unfolding intr_set_status intr_get_status intr_enable intr_disable
set_status-disable eflags = elim (Bool-cases (is_enabled eflags)) [
  | inl on ↦ ground arith
  | inr off ↦ ground arith
]
