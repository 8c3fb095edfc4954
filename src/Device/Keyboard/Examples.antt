-- ===== src/Device/Keyboard/Examples.antt =====
-- Typing "Hi": the left shift is held for the first key only.
use winux_os.Base.{ℕ, ◌≡◌, refl, false, none, List, [], ◌∷◌, ◌++◌, ok, arith, ◌==◌, if◌then◌else◌}
use winux_os.Thread.{Threads, Status}
use winux_os.Thread.Sync.{lock_init}
use winux_os.Device.Queue.{IoQueue}
use winux_os.Device.Queue.Fifo.{chars, IsIdle, contents}
use winux_os.Device.Keyboard.{Keys, decode}
use winux_os.Device.Keyboard.Codes.{decode_all}
use winux_os.Device.Keyboard.Typing.{handle_all, handle_all_lem}

abbrev no_keys : Keys
no_keys = record { ctrl = false; shift = false; alt = false; caps_lock = false; ext = false }

abbrev threads : Threads
threads = record {
  current = 1;
  status = λ t. if t == 1 then Status.running else Status.blocked;
  ready_list = [];
  priority = λ t. 31;
  ticks = λ t. 31;
  elapsed_ticks = λ t. 0;
  idle_thread = 0;
}

abbrev empty_ring : IoQueue
empty_ring = record {
  lock = lock_init;
  producer = none;
  consumer = none;
  buffer = λ i. 0;
  ridx = 63;
  widx = 63;
}

empty_ring-IsIdle : IsIdle empty_ring
empty_ring-IsIdle = record {
  free = refl;
  no_producer = refl;
  no_consumer = refl;
  read_inside = omega arith;
  write_inside = omega arith;
}

-- Shift down, h, shift up, i.
abbrev hi_codes : List ℕ
hi_codes = 0x2a ∷ 0x23 ∷ 0xa3 ∷ 0xaa ∷ 0x17 ∷ 0x97 ∷ []

hi_typed : decode_all no_keys hi_codes ≡ (no_keys, 72 ∷ 105 ∷ [])
unfolding decode_all decode
hi_typed = refl

handle_all_lem_example :
    (q' : IoQueue) × (handle_all threads empty_ring no_keys hi_codes
      ≡ ok ((decode_all no_keys hi_codes).0, (threads, q')))
    × (contents q' ≡ contents empty_ring ++ (decode_all no_keys hi_codes).1)
    × IsIdle q'
unfolding chars decode_all decode
handle_all_lem_example =
    handle_all_lem threads empty_ring no_keys hi_codes empty_ring-IsIdle (omega arith)
