-- ===== src/Interrupt/Message.antt =====
-- kernel/interrupt.c: the names of the exceptions, and what `general_intr_handler` shows before it
-- stops.
use winux_os.Base.{
  ℕ, zero, suc, ◌+◌, ◌<◌, ◌≤◌, ◌≡◌, refl, ◌==◌, ◌||◌, if◌then◌else◌, update, List, [], ◌∷◌, ◌++◌,
  arith, inl, inr, Bool-cases, leb, ltb, ◌&&◌, ◌⊎◌, ◌∙◌,
}
use Prim.Native.String.{String}
use winux_os.Interrupt.{idt_desc_cnt}

-- What the handler does on the screen.
pub data Show : Type 0 where
  set_cursor put_char put_int : ℕ → Show
  put_str : String → Show

-- The first loop of `exception_init`.
unfoldable pub all_unknown : ℕ → ℕ → (ℕ → String) → (ℕ → String)
all_unknown zero i intr_name = intr_name
all_unknown (suc left) i intr_name = all_unknown left (i + 1) (update intr_name i "unknown")

-- The names that Intel gives the vectors; 15 is reserved.
unfoldable pub name_exceptions : (ℕ → String) → ℕ → String
unfolding all_unknown
name_exceptions before =
    let n₀ = all_unknown idt_desc_cnt 0 before in
    let n₁ = update n₀ 0 "#DE Divide Error" in
    let n₂ = update n₁ 1 "#DB Debug Exception" in
    let n₃ = update n₂ 2 "NMI Interrupt" in
    let n₄ = update n₃ 3 "#BP Breakpoint Exception" in
    let n₅ = update n₄ 4 "#OF Overflow Exception" in
    let n₆ = update n₅ 5 "#BR BOUND Range Exceeded Exception" in
    let n₇ = update n₆ 6 "#UD Invalid Opcode Exception" in
    let n₈ = update n₇ 7 "#NM Device Not Available Exception" in
    let n₉ = update n₈ 8 "#DF Double Fault Exception" in
    let m₀ = update n₉ 9 "Coprocessor Segment Overrun" in
    let m₁ = update m₀ 10 "#TS Invalid TSS Exception" in
    let m₂ = update m₁ 11 "#NP Segment Not Present" in
    let m₃ = update m₂ 12 "#SS Stack Fault Exception" in
    let m₄ = update m₃ 13 "#GP General Protection Exception" in
    let m₅ = update m₄ 14 "#PF Page-Fault Exception" in
    let m₆ = update m₅ 16 "#MF x87 FPU Floating-Point Error" in
    let m₇ = update m₆ 17 "#AC Alignment Check Exception" in
    let m₈ = update m₇ 18 "#MC Machine-Check Exception" in
    update m₈ 19 "#XF SIMD Floating-Point Exception"

-- `while (cursor_pos < 320) put_char(' ')`
abbrev pub blanks : ℕ → List Show
blanks zero = []
blanks (suc left) = put_char b' ' ∷ blanks left

-- What is shown for a vector, `cr2` being the address of a page fault; nothing for the two spurious
-- interrupts, which return.
unfoldable pub message : (ℕ → String) → ℕ → ℕ → List Show
message intr_name cr2 vec_nr =
    let fault =
      if vec_nr == 14
      then put_str "\n page_fault address is " ∷ put_int cr2 ∷ put_char b'\n' ∷ []
      else [] in
    if (vec_nr == 0x27) || (vec_nr == 0x2f)
    then []
    else set_cursor 0
      ∷ (blanks 320
          ++ (set_cursor 0
              ∷ put_str "---------exception message begin---------\n"
              ∷ set_cursor 88
              ∷ put_str (intr_name vec_nr)
              ∷ (fault ++ put_str "\n---------exception message end---------\n" ∷ [])))

all_unknown_lem :
    (left i v : ℕ) (intr_name : ℕ → String)
    → all_unknown left i intr_name v
      ≡ (if leb i v && ltb v (i + left) then "unknown" else intr_name v)
unfolding all_unknown
all_unknown_lem zero i v intr_name = elim (Bool-cases (leb i v && ltb v (i + 0))) [
  | inl inside ↦ absurd (ground (arith, inside))
  | inr outside ↦ rw outside refl
]
all_unknown_lem (suc left) i v intr_name =
    all_unknown_lem left (i + 1) v (update intr_name i "unknown") ∙ ground arith

-- The vectors without a name of their own, 15 and those from 20 on, are called unknown, whatever
-- the table held before.
pub name_exceptions-unknown :
    (before : ℕ → String) (v : ℕ)
    → (v ≡ 15) ⊎ (20 ≤ v)
    → v < idt_desc_cnt
    → name_exceptions before v ≡ "unknown"
unfolding name_exceptions
name_exceptions-unknown before v unnamed inside =
    ground (arith, all_unknown_lem idt_desc_cnt 0 v before)
