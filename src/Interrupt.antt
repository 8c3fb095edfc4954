-- ===== src/Interrupt.antt =====
-- kernel/interrupt.c: the interrupt flag of the processor and the interrupt descriptor table. A
-- function is its address. `sti` and `cli` set and clear bit 9 of EFLAGS, the processor's
-- documented behaviour.
pub mod Flag
pub mod Gates
pub mod Message
mod Start
mod Examples
use winux_os.Base.{
  ℕ, zero, suc, ◌+◌, ◌-◌, ◌*◌, ◌/◌, ◌%◌, ◌^◌, Bool, true, false, ◌==◌, ◌||◌, List, [], ◌∷◌,
  if◌then◌else◌, update, Outcome, ok, panic,
}

-- enum intr_status
pub data IntrStatus : Type 0 where
  intr_off intr_on : IntrStatus

-- `eflags & EFLAGS_IF`, which is bit 9.
abbrev pub is_enabled : ℕ → Bool
is_enabled eflags = eflags / 2 ^ 9 % 2 == 1

unfoldable pub intr_get_status : ℕ → IntrStatus
intr_get_status eflags = if is_enabled eflags then intr_on else intr_off

abbrev sti : ℕ → ℕ
sti eflags = if is_enabled eflags then eflags else eflags + 2 ^ 9

abbrev cli : ℕ → ℕ
cli eflags = if is_enabled eflags then eflags - 2 ^ 9 else eflags

-- The status before, and EFLAGS after.
abbrev enable_from : IntrStatus → ℕ → IntrStatus × ℕ
enable_from intr_on eflags = (intr_on, eflags)
enable_from intr_off eflags = (intr_off, sti eflags)

abbrev disable_from : IntrStatus → ℕ → IntrStatus × ℕ
disable_from intr_on eflags = (intr_on, cli eflags)
disable_from intr_off eflags = (intr_off, eflags)

unfoldable pub intr_enable : ℕ → IntrStatus × ℕ
unfolding intr_get_status
intr_enable eflags = enable_from (intr_get_status eflags) eflags

unfoldable pub intr_disable : ℕ → IntrStatus × ℕ
unfolding intr_get_status
intr_disable eflags = disable_from (intr_get_status eflags) eflags

unfoldable pub intr_set_status : IntrStatus → ℕ → IntrStatus × ℕ
unfolding intr_enable intr_disable
intr_set_status intr_on eflags = intr_enable eflags
intr_set_status intr_off eflags = intr_disable eflags

-- struct gate_desc
pub record GateDesc : Type 0 where
  pub func_offset_low_word : ℕ
  pub selector : ℕ
  pub dcount : ℕ
  pub attribute : ℕ
  pub func_offset_high_word : ℕ

abbrev pub idt_desc_cnt : ℕ
idt_desc_cnt = 0x81

abbrev pub selector_k_code : ℕ
selector_k_code = 8

-- IDT_DESC_ATTR_DPL0 and IDT_DESC_ATTR_DPL3
abbrev pub idt_desc_attr_dpl0 : ℕ
idt_desc_attr_dpl0 = 1 * 2 ^ 7 + 0 * 2 ^ 5 + 14

abbrev pub idt_desc_attr_dpl3 : ℕ
idt_desc_attr_dpl3 = 1 * 2 ^ 7 + 3 * 2 ^ 5 + 14

-- `fun & 0xffff` and `(fun & 0xffff0000) >> 16`
unfoldable pub make_idt_desc : ℕ → ℕ → GateDesc
make_idt_desc attr fun = record {
  func_offset_low_word = fun % 2 ^ 16;
  selector = selector_k_code;
  dcount = 0;
  attribute = attr;
  func_offset_high_word = fun / 2 ^ 16 % 2 ^ 16;
}

-- The entries from `i` on, `cnt` of them.
unfoldable pub fill_idt : (ℕ → ℕ) → ℕ → ℕ → (ℕ → GateDesc) → ℕ → GateDesc
unfolding make_idt_desc
fill_idt intr_entry_table i zero idt = idt
fill_idt intr_entry_table i (suc cnt) idt =
    fill_idt intr_entry_table (i + 1) cnt
      (update idt i (make_idt_desc idt_desc_attr_dpl0 (intr_entry_table i)))

-- `intr_entry_table[i]` is the word at that place behind the label of kernel/kernel.s.
unfoldable pub idt_desc_init : (ℕ → ℕ) → ℕ → (ℕ → GateDesc) → ℕ → GateDesc
unfolding fill_idt make_idt_desc
idt_desc_init intr_entry_table syscall_handler idt =
    update (fill_idt intr_entry_table 0 (idt_desc_cnt - 1) idt) 0x80
      (make_idt_desc idt_desc_attr_dpl3 syscall_handler)

-- The loop of `exception_init` over `idt_table`.
unfoldable pub fill_handlers : ℕ → ℕ → ℕ → (ℕ → ℕ) → ℕ → ℕ
fill_handlers general_intr_handler i zero idt_table = idt_table
fill_handlers general_intr_handler i (suc cnt) idt_table =
    fill_handlers general_intr_handler (i + 1) cnt (update idt_table i general_intr_handler)

unfoldable pub exception_init : ℕ → (ℕ → ℕ) → ℕ → ℕ
unfolding fill_handlers
exception_init general_intr_handler idt_table =
    fill_handlers general_intr_handler 0 idt_desc_cnt idt_table

unfoldable pub register_handler : (ℕ → ℕ) → ℕ → ℕ → ℕ → ℕ
register_handler idt_table vector_no function = update idt_table vector_no function

-- A spurious interrupt returns; any other shows its message (Interrupt/Message.antt) and stops in `while(1)`.
unfoldable pub general_intr_handler : ℕ → Outcome (Unit {0})
general_intr_handler vec_nr = if (vec_nr == 0x27) || (vec_nr == 0x2f) then ok tt else panic

-- The bytes that `pic_init` sends, each with its port.
unfoldable pub pic_init : List (ℕ × ℕ)
pic_init =
    (0x20, 0x11)
    ∷ (0x21, 0x20)
    ∷ (0x21, 0x04)
    ∷ (0x21, 0x01)
    ∷ (0xa0, 0x11)
    ∷ (0xa1, 0x28)
    ∷ (0xa1, 0x02)
    ∷ (0xa1, 0x01)
    ∷ (0x21, 0xf8)
    ∷ (0xa1, 0x3f)
    ∷ []
