-- ===== src/Device/Queue/Examples.antt =====
-- The queue's theorems at a queue with two characters, the indices about to wrap.
use winux_os.Base.{◌+◌, refl, none, [], ◌==◌, if◌then◌else◌, arith}
use winux_os.Thread.{Threads, Status}
use winux_os.Thread.Sync.{lock_init}
use winux_os.Device.Queue.{IoQueue}
use winux_os.Device.Queue.Fifo.{IsIdle}

abbrev threads : Threads
threads = record {
  current = 1;
  status = λ t. if t == 1 then Status.running else Status.blocked;
  ready_list = [];
  priority = λ t. 31;
  ticks = λ t. 31;
  elapsed_ticks = λ t. 0;
  idle_thread = 0;
}

abbrev queue : IoQueue
queue = record {
  lock = lock_init;
  producer = none;
  consumer = none;
  buffer = λ i. 97 + i;
  ridx = 61;
  widx = 63;
}

queue-IsIdle : IsIdle queue
queue-IsIdle = record {
  free = refl;
  no_producer = refl;
  no_consumer = refl;
  read_inside = omega arith;
  write_inside = omega arith;
}
