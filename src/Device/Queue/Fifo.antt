-- ===== src/Device/Queue/Fifo.antt =====
-- device/ioqueue.c against a queue as a list.
use winux_os.Base.{
  ℕ, zero, suc, ◌+◌, ◌-◌, ◌%◌, ◌<◌, ◌≡◌, ◌≢◌, ◌⊎◌, inl, inr, refl, ap, ap₂, ◌∙◌, true, false, ◌==◌,
  none, List, [], ◌∷◌, ◌++◌, length, Bytes, update, ok, blocked, arith, Bool-cases,
}
use winux_os.Thread.{Threads}
use winux_os.Thread.Sync.{lock_init, acquire_free, release_taken}
use winux_os.Device.Queue.{
  buffer_size, IoQueue, ioq_empty, ioq_full, ioq_wait, wakeup, take_char, put_char, ioq_getchar,
  ioq_putchar,
}

-- `n` characters of the ring from index `r` on.
unfoldable pub chars : Bytes → ℕ → ℕ → List ℕ
chars buffer r zero = []
chars buffer r (suc n) = buffer r ∷ chars buffer ((r + 1) % buffer_size) n

abbrev pub count : IoQueue → ℕ
count q = (q.widx + buffer_size - q.ridx) % buffer_size

-- The characters that wait, the next one first.
abbrev pub contents : IoQueue → List ℕ
contents q = chars q.buffer q.ridx (count q)

-- Nobody holds the lock or waits, and the indices are inside the ring.
pub record IsIdle (q : IoQueue) : Type 0 where
  pub free : q.lock ≡ lock_init
  pub no_producer : q.producer ≡ none
  pub no_consumer : q.consumer ≡ none
  pub read_inside : q.ridx < buffer_size
  pub write_inside : q.widx < buffer_size

chars-update :
    (buffer : Bytes) (c w n r : ℕ)
    → w ≡ (r + n) % 64
    → r < 64
    → n < 64
    → chars (update buffer w c) r (suc n) ≡ chars buffer r n ++ (c ∷ [])
unfolding chars
chars-update buffer c w zero r at hr hn = let here : (w == r) ≡ true = ground arith in rw here
chars-update buffer c w (suc n) r at hr hn =
    let other : (w == r) ≡ false = ground arith in
    let go = chars-update buffer c w n ((r + 1) % 64) (omega arith) (omega arith) (omega arith) in
    ap₂ (λ x xs. x ∷ xs) (rw other) go

-- A full ring holds 63 characters.
chars-length : (buffer : Bytes) (r n : ℕ) → length (chars buffer r n) ≡ n
unfolding chars
chars-length buffer r zero = refl
chars-length buffer r (suc n) = ap suc (chars-length buffer ((r + 1) % buffer_size) n)

module _ (s : Threads) (q : IoQueue) (idle : IsIdle q) where
  abbrev written : ℕ → IoQueue
  written c = record q {
    lock = lock_init;
    buffer = update q.buffer q.widx c;
    widx = (q.widx + 1) % buffer_size;
    consumer = none;
  }

  abbrev read : IoQueue
  read = record q { lock = lock_init; ridx = (q.ridx + 1) % buffer_size; producer = none }

  full_count : ioq_full q ≡ true → count q ≡ 63
  unfolding ioq_full
  full_count full = ground (arith, idle.read_inside, idle.write_inside)

  room_count : ioq_full q ≡ false → ((q.widx + 1) % 64 + 64 - q.ridx) % 64 ≡ suc (count q)
  unfolding ioq_full
  room_count room =
      let ne : (q.widx + 1) % 64 ≢ q.ridx = ground arith in
      omega (arith, idle.read_inside, idle.write_inside)

  empty_count : ioq_empty q ≡ true → count q ≡ 0
  unfolding ioq_empty
  empty_count empty = ground (arith, idle.read_inside, idle.write_inside)

  rest_count : ioq_empty q ≡ false → count q ≡ suc (count read)
  unfolding ioq_empty
  rest_count some_left =
      let ne : q.widx ≢ q.ridx = ground arith in omega (arith, idle.read_inside, idle.write_inside)

  write_at : q.widx ≡ (q.ridx + count q) % 64
  write_at = omega (arith, idle.read_inside, idle.write_inside)

  -- On an idle queue `ioq_putchar` appends the character to the queue's contents, changes no
  -- thread and leaves the queue idle, or, if the queue holds 63 characters, it would wait.
  pub ioq_putchar_lem :
      (c : ℕ)
      → ((length (contents q) ≡ 63) × (ioq_putchar s q c ≡ blocked))
        ⊎ ((q' : IoQueue) × (ioq_putchar s q c ≡ ok (s, q'))
            × (contents q' ≡ contents q ++ (c ∷ []))
            × IsIdle q')
  unfolding ioq_putchar ioq_full ioq_wait put_char wakeup
  ioq_putchar_lem c = elim (Bool-cases (ioq_full q)) [
    | inl full ↦ inl (
      chars-length q.buffer q.ridx (count q) ∙ full_count full,
      rw (ioq_putchar, full, idle.no_consumer),
    )
    | inr room ↦
        let more = room_count room in
        inr (
          written c,
          rw (ioq_putchar, room, idle.free, idle.no_consumer, acquire_free s, release_taken s),
          rw more (
              chars-update q.buffer c q.widx (count q) q.ridx write_at idle.read_inside
                (omega arith)),
          record {
            free = refl;
            no_producer = idle.no_producer;
            no_consumer = refl;
            read_inside = idle.read_inside;
            write_inside = omega arith;
          },
        )
  ]

  -- On an idle queue `ioq_getchar` returns the first character of the queue's contents and removes
  -- it, changes no thread and leaves the queue idle, or, if the queue is empty, it would wait.
  pub ioq_getchar_lem :
      ((contents q ≡ []) × (ioq_getchar s q ≡ blocked))
      ⊎ ((c : ℕ) × ((q' : IoQueue) × (ioq_getchar s q ≡ ok (c, (s, q')))
            × (contents q ≡ c ∷ contents q')
            × IsIdle q'))
  unfolding ioq_getchar ioq_empty ioq_wait take_char wakeup chars
  ioq_getchar_lem = elim (Bool-cases (ioq_empty q)) [
    | inl empty ↦
        inl (
          ap (chars q.buffer q.ridx) (empty_count empty),
          rw (ioq_getchar, empty, idle.no_consumer),
        )
    | inr some_left ↦ inr (
      q.buffer q.ridx,
      (
        read,
        rw (ioq_getchar, some_left, idle.free, idle.no_producer, acquire_free s, release_taken s),
        ap (chars q.buffer q.ridx) (rest_count some_left),
        record {
          free = refl;
          no_producer = refl;
          no_consumer = idle.no_consumer;
          read_inside = omega arith;
          write_inside = idle.write_inside;
        },
      ),
    )
  ]
