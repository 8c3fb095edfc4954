-- ===== src/Interrupt/Examples.antt =====
-- The descriptor table for entries at 0xc0001500, 16 bytes each.
use winux_os.Base.{ℕ, ◌+◌, ◌*◌, ltb, if◌then◌else◌}
use winux_os.Interrupt.{GateDesc}

abbrev entries : ℕ → ℕ
entries i = if ltb i 48 then 0xc0001500 + 16 * i else 0

abbrev old_idt : ℕ → GateDesc
old_idt v = record {
  func_offset_low_word = 0;
  selector = 0;
  dcount = 0;
  attribute = 0;
  func_offset_high_word = 0;
}
