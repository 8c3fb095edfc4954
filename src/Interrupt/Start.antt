-- ===== src/Interrupt/Start.antt =====
-- kernel/interrupt.c: `idt_init`, and the handlers that the drivers register after it.
use winux_os.Base.{ℕ, ◌+◌, ◌<◌, ◌≡◌, ◌⊎◌, true, ◌==◌, ◌||◌, if◌then◌else◌, List, ◌++◌, arith}
use Prim.Native.String.{String}
use winux_os.Interrupt.{
  GateDesc, idt_desc_cnt, idt_desc_init, exception_init, register_handler, pic_init,
}
use winux_os.Interrupt.Message.{name_exceptions}
use winux_os.Interrupt.Gates.{opens, pic_init_lem, register_handler-exception_init}

-- The tables, and the bytes that were sent to ports.
record Interrupts : Type 0 where
  idt : ℕ → GateDesc
  idt_table : ℕ → ℕ
  intr_name : ℕ → String
  sent : List (ℕ × ℕ)

-- `lidt` is the assembly behind it.
idt_init : (ℕ → ℕ) → ℕ → ℕ → Interrupts → Interrupts
idt_init intr_entry_table syscall_handler general_intr_handler s = record {
  idt = idt_desc_init intr_entry_table syscall_handler s.idt;
  sent = s.sent ++ pic_init;
  idt_table = exception_init general_intr_handler s.idt_table;
  intr_name = name_exceptions s.intr_name;
}

-- The registrations of `time_init`, of `keyboard_init` and of `ide_int` with two channels.
register_drivers : ℕ → ℕ → ℕ → (ℕ → ℕ) → ℕ → ℕ
unfolding register_handler
register_drivers clock keyboard disk table =
    register_handler
      (register_handler (register_handler (register_handler table 0x20 clock) 0x21 keyboard) 0x2e
        disk)
      0x2f disk

module _ (entry : ℕ → ℕ) (syscall general clock keyboard disk : ℕ) (s : Interrupts) where
  abbrev handlers : ℕ → ℕ
  handlers = register_drivers clock keyboard disk (idt_init entry syscall general s).idt_table

  -- Every other vector has the general handler.
  dispatch :
      (v : ℕ)
      → v < idt_desc_cnt
      → handlers v ≡ (
          if v == 0x20
          then clock
          else if v == 0x21
          then keyboard
          else if (v == 0x2e) || (v == 0x2f)
          then disk
          else general)
  unfolding register_drivers idt_init register_handler
  dispatch v h = ground (arith, register_handler-exception_init general 0x20 clock s.idt_table v h)

  -- Each line that `pic_init` opens, but the one of the slave, has a driver's handler.
  opens-handlers :
      (line : ℕ)
      → line < 8
      → (opens 0x21 line ≡ true
          → (line ≡ 2) ⊎ ((handlers (0x20 + line) ≡ clock) ⊎ (handlers (0x20 + line) ≡ keyboard)))
        × (opens 0xa1 line ≡ true → handlers (0x28 + line) ≡ disk)
  opens-handlers line h =
      let lines = pic_init_lem line h in
      let master = dispatch (0x20 + line) (omega arith) in
      let slave = dispatch (0x28 + line) (omega arith) in
      (λ e. ground (arith, lines, master, e), λ e. ground (arith, lines, slave, e))
