-- ===== src/Interrupt/Gates.antt =====
-- The interrupt descriptor table after its initialisation.
use winux_os.Base.{
  ℕ, zero, suc, ◌+◌, ◌*◌, ◌/◌, ◌%◌, ◌^◌, ◌<◌, ◌≡◌, ◌∙◌, refl, Bool, true, false, not, ◌&&◌, ◌==◌,
  leb, ltb, List, [], ◌∷◌, if◌then◌else◌, update, has_bit, all_below, all_below_sound, same,
  Bool-cases, inl, inr, arith,
}
use winux_os.Interrupt.{
  GateDesc, idt_desc_cnt, selector_k_code, idt_desc_attr_dpl0, idt_desc_attr_dpl3, make_idt_desc,
  fill_idt, idt_desc_init, fill_handlers, exception_init, register_handler, pic_init,
}

-- The address that the processor jumps to through a gate.
abbrev pub gate_offset : GateDesc → ℕ
gate_offset g = g.func_offset_high_word * 2 ^ 16 + g.func_offset_low_word

-- The privilege level that `int` needs, bits 5 and 6 of the attribute.
abbrev pub gate_dpl : GateDesc → ℕ
gate_dpl g = g.attribute / 2 ^ 5 % 4

pub gate_offset-make : (attr fun : ℕ) → fun < 2 ^ 32 → gate_offset (make_idt_desc attr fun) ≡ fun
unfolding make_idt_desc
gate_offset-make attr fun h = omega arith

fill_idt_lem :
    (entry : ℕ → ℕ) (i cnt : ℕ) (idt : ℕ → GateDesc) (v : ℕ)
    → fill_idt entry i cnt idt v
      ≡ (if leb i v && ltb v (i + cnt) then make_idt_desc idt_desc_attr_dpl0 (entry v) else idt v)
unfolding fill_idt
fill_idt_lem entry i zero idt v = ground arith
fill_idt_lem entry i (suc cnt) idt v =
    let filled =
      fill_idt_lem entry (i + 1) cnt (update idt i (make_idt_desc idt_desc_attr_dpl0 (entry i)))
        v in
    elim (Bool-cases (i == v)) [
      | inl here ↦ let e : i ≡ v = ground arith in filled ∙ rw e (ground arith)
      | inr other ↦ filled ∙ ground arith
    ]

idt_filled :
    (entry : ℕ → ℕ) (idt : ℕ → GateDesc) (cnt v : ℕ)
    → fill_idt entry 0 cnt idt v ≡ (
        if ltb v cnt
        then make_idt_desc idt_desc_attr_dpl0 (entry v)
        else fill_idt entry 0 cnt idt v)
idt_filled entry idt cnt v = ground (arith, fill_idt_lem entry 0 cnt idt v)

abbrev IsGate : (ℕ → ℕ) → ℕ → (ℕ → GateDesc) → ℕ → Type 0
IsGate entry handler table v =
    (gate_offset (table v) ≡ (if v == 0x80 then handler else entry v))
    × (gate_dpl (table v) ≡ (if v == 0x80 then 3 else 0))
    × ((table v).selector ≡ selector_k_code)

gates_filled :
    (entry : ℕ → ℕ) (handler : ℕ) (filled : ℕ → GateDesc) (v : ℕ)
    → entry v < 2 ^ 32
    → handler < 2 ^ 32
    → filled v ≡ (if ltb v 0x80 then make_idt_desc idt_desc_attr_dpl0 (entry v) else filled v)
    → v < idt_desc_cnt
    → IsGate entry handler (update filled 0x80 (make_idt_desc idt_desc_attr_dpl3 handler)) v
unfolding make_idt_desc
gates_filled entry handler filled v he hh f h = elim (Bool-cases (0x80 == v)) [
  | inl call ↦ let last : v ≡ 0x80 = ground arith in rw last (omega arith, refl, refl)
  | inr other ↦
      let low : ltb v 0x80 ≡ true = ground arith in
      let apart : (v == 0x80) ≡ false = ground arith in
      let gate : filled v ≡ make_idt_desc idt_desc_attr_dpl0 (entry v) = f ∙ rw low refl in
      rw (other, apart, gate) (omega arith, refl, refl)
]

-- With 32-bit addresses, each vector below 0x80 leads to its entry of the table of kernel.s and is
-- for the kernel only; the vector 0x80 leads to the system call handler, and user code may call
-- it. Every gate enters the kernel's code segment.
pub idt_desc_init_lem :
    (entry : ℕ → ℕ) (handler : ℕ) (idt : ℕ → GateDesc) (v : ℕ)
    → ((i : ℕ) → entry i < 2 ^ 32)
    → handler < 2 ^ 32
    → v < idt_desc_cnt
    → (gate_offset (idt_desc_init entry handler idt v) ≡ (if v == 0x80 then handler else entry v))
      × (gate_dpl (idt_desc_init entry handler idt v) ≡ (if v == 0x80 then 3 else 0))
      × ((idt_desc_init entry handler idt v).selector ≡ selector_k_code)
unfolding idt_desc_init make_idt_desc
idt_desc_init_lem entry handler idt v he hh hv =
    gates_filled entry handler (fill_idt entry 0 0x80 idt) v (he v) hh (idt_filled entry idt 0x80 v)
      hv

fill_handlers_lem :
    (general i cnt : ℕ) (table : ℕ → ℕ) (v : ℕ)
    → fill_handlers general i cnt table v
      ≡ (if leb i v && ltb v (i + cnt) then general else table v)
unfolding fill_handlers
fill_handlers_lem general i zero table v = ground arith
fill_handlers_lem general i (suc cnt) table v =
    fill_handlers_lem general (i + 1) cnt (update table i general) v ∙ ground arith

handlers_filled :
    (general n f cnt : ℕ) (table : ℕ → ℕ) (v : ℕ)
    → v < cnt
    → update (fill_handlers general 0 cnt table) n f v ≡ (if n == v then f else general)
handlers_filled general n f cnt table v h = ground (arith, fill_handlers_lem general 0 cnt table v)

-- After `exception_init` and the registration of one handler, that vector has the handler and every
-- other vector has the general one.
pub register_handler-exception_init :
    (general vector_no function : ℕ) (table : ℕ → ℕ) (v : ℕ)
    → v < idt_desc_cnt
    → register_handler (exception_init general table) vector_no function v
      ≡ (if vector_no == v then function else general)
unfolding register_handler exception_init
register_handler-exception_init general n f table v h =
    handlers_filled general n f idt_desc_cnt table v h

-- The last byte sent to a port.
abbrev pub last_sent : ℕ → ℕ → List (ℕ × ℕ) → ℕ
last_sent port before [] = before
last_sent port before ((p, b) ∷ rest) = last_sent port (if p == port then b else before) rest

-- A line of an interrupt controller is open where its bit of the mask, the byte last sent to the
-- data port, is clear.
abbrev pub opens : ℕ → ℕ → Bool
opens port line = not (has_bit (last_sent port 0 pic_init) line)

-- `pic_init` opens the lines 0, 1 and 2 of the master (clock, keyboard, slave) and the lines 6 and
-- 7 of the slave (the two disk channels), and no other.
pub pic_init_lem :
    (line : ℕ) → line < 8 → (opens 0x21 line ≡ ltb line 3) × (opens 0xa1 line ≡ leb 6 line)
unfolding pic_init has_bit all_below
pic_init_lem line h =
    let table =
      all_below_sound 8 (λ l. same (opens 0x21 l) (ltb l 3) && same (opens 0xa1 l) (leb 6 l)) line
        refl h in
    (ground (arith, table), ground (arith, table))
