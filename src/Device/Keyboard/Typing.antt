-- ===== src/Device/Keyboard/Typing.antt =====
-- From the interrupts to the readers: the characters that are typed go to the ring buffer in order.
use winux_os.Base.{
  ℕ, ◌<◌, ◌≡◌, refl, ap, ◌∙◌, subst, sym, inl, inr, List, [], ◌∷◌, ◌++◌, append_assoc, append-nil,
  length, length-append, Outcome, ok, ◌>>=◌, arith,
}
use winux_os.Thread.{Threads}
use winux_os.Device.Queue.{IoQueue}
use winux_os.Device.Queue.Fifo.{IsIdle, contents, ioq_putchar_lem}
use winux_os.Device.Keyboard.{
  Keys, Action, quiet, unknown_key, types, decode, send, intr_keyboard_handler,
}
use winux_os.Device.Keyboard.Codes.{typed, decode_all}

-- The handler at each byte of a sequence of interrupts.
unfoldable pub handle_all : Threads → IoQueue → Keys → List ℕ → Outcome (Keys × (Threads × IoQueue))
unfolding intr_keyboard_handler
handle_all s q k [] = ok (k, (s, q))
handle_all s q k (b ∷ bs) =
    intr_keyboard_handler s q k b >>= λ (k', (s', q')). handle_all s' q' k' bs

send_lem :
    (s : Threads) (q : IoQueue) (a : Action)
    → IsIdle q
    → length (contents q ++ typed a) < 64
    → (q' : IoQueue) × (send s q a ≡ ok (s, q')) × (contents q' ≡ contents q ++ typed a) × IsIdle q'
send_lem s q quiet idle room = (q, refl, sym (append-nil _), idle)
send_lem s q unknown_key idle room = (q, refl, sym (append-nil _), idle)
send_lem s q (types c) idle room = elim (ioq_putchar_lem s q idle c) [
  | inl (full, blocks) ↦ absurd (omega (arith, length-append (contents q) (c ∷ [])))
  | inr done ↦ done
]

-- While the ring has room for them and is idle, the interrupts of a sequence of bytes append the
-- characters that the bytes type to the ring's contents, in order. No thread changes and no call
-- waits.
pub handle_all_lem :
    (s : Threads) (q : IoQueue) (k : Keys) (codes : List ℕ)
    → IsIdle q
    → length (contents q ++ (decode_all k codes).1) < 64
    → (q' : IoQueue) × (handle_all s q k codes ≡ ok ((decode_all k codes).0, (s, q')))
      × (contents q' ≡ contents q ++ (decode_all k codes).1)
      × IsIdle q'
unfolding handle_all decode_all intr_keyboard_handler
handle_all_lem s q k [] idle room = (q, refl, sym (append-nil _), idle)
handle_all_lem s q k (b ∷ bs) idle room =
    let now = typed (decode k b).1 in
    let later = (decode_all (decode k b).0 bs).1 in
    let assoc = append_assoc (contents q) now later in
    let (q₁, sent, has, idle₁) = send_lem s q (decode k b).1 idle (
      omega (
        arith,
        length-append (contents q) (now ++ later),
        length-append now later,
        length-append (contents q) now,
      )) in
    let whole : contents q₁ ++ later ≡ contents q ++ (now ++ later) =
      ap (λ cs. cs ++ later) has ∙ assoc in
    let (q₂, run, has₂, idle₂) =
      handle_all_lem s q₁ (decode k b).0 bs idle₁ (subst (λ cs. length cs < 64) (sym whole) room) in
    (q₂, rw (handle_all, sent) run, has₂ ∙ whole, idle₂)
