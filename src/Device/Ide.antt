-- ===== src/Device/Ide.antt =====
-- device/ide.c: the commands that `ide_read` and `ide_write` send, and the data that they move.
-- A disk is its sectors. The controller is the environment: it carries out the command that the
-- registers hold and raises its interrupt; `answers` are the results of the successive calls of
-- `busy_wait`.
pub mod Commands
pub mod Transfer
pub mod Wait
pub mod Identify
mod Examples
use winux_os.Base.{
  ℕ, zero, suc, ◌+◌, ◌-◌, ◌*◌, ◌/◌, ◌%◌, ◌^◌, Bool, true, false, Option, none, some, List, [], ◌∷◌,
  ◌==◌, ltb, leb, if◌then◌else◌, ◌&&◌, Bytes, splice, u8, u32, Outcome, ok, panic, ◌>>=◌, ◌>>◌,
  assert,
}
use winux_os.Thread.{Threads}
use winux_os.Thread.Sync.{Semaphore, Lock, lock_acquire, lock_release, sema_up}

abbrev pub Disk : Type 0
Disk = ℕ → Bytes

abbrev pub sector_size : ℕ
sector_size = 512

-- The bytes from sector `lba` on.
abbrev pub sectors_from : Disk → ℕ → Bytes
sectors_from disk lba i = disk (lba + i / sector_size) (i % sector_size)

-- The disk after `count` sectors from `lba` on were overwritten.
abbrev pub overwrite : Disk → ℕ → Bytes → ℕ → Disk
overwrite disk lba buf count s i =
    if leb lba s && ltb s (lba + count) then buf ((s - lba) * sector_size + i) else disk s i

-- The task file of a channel.
pub record Registers : Type 0 where
  pub sect_cnt : ℕ
  pub lba_l : ℕ
  pub lba_m : ℕ
  pub lba_h : ℕ
  pub dev : ℕ

pub record Channel : Type 0 where
  pub lock : Lock
  pub expecting_intr : Bool
  pub disk_done : Semaphore
  pub registers : Registers

abbrev dev_bit : ℕ → ℕ
dev_bit dev_no = if dev_no == 1 then 0x10 else 0

-- `select_disk`: bits 7 and 5 are fixed, bit 6 asks for LBA.
pub select_disk : Registers → ℕ → Registers
select_disk r dev_no = record r { dev = 0xa0 + 0x40 + dev_bit dev_no }

-- `(lba >> 24) | MBS | LBA | DEV`, for an `lba` of 28 bits, cut to a byte by `outb`.
unfoldable pub select_sector : Registers → ℕ → ℕ → ℕ → Registers
select_sector r dev_no lba sec_cnt = record {
  sect_cnt = u8 sec_cnt;
  lba_l = u8 lba;
  lba_m = u8 (lba / 2 ^ 8);
  lba_h = u8 (lba / 2 ^ 16);
  dev = lba / 2 ^ 24 % 16 + 0xe0 + dev_bit dev_no;
}

-- What the controller reads from the registers (ATA: LBA28, a count of 0 means 256 sectors).
abbrev pub decoded_lba : Registers → ℕ
decoded_lba r = r.lba_l + 2 ^ 8 * r.lba_m + 2 ^ 16 * r.lba_h + 2 ^ 24 * (r.dev % 16)

abbrev pub decoded_count : Registers → ℕ
decoded_count r = if r.sect_cnt == 0 then 256 else r.sect_cnt

abbrev pub decoded_slave : Registers → Bool
decoded_slave r = r.dev / 16 % 2 == 1

-- `read_from_sector` and `write2sector` move this many bytes.
unfoldable pub size_byte : ℕ → ℕ
size_byte sec_cnt = if sec_cnt == 0 then 256 * 512 else sec_cnt * 512

abbrev pub cmd_out : Channel → Channel
cmd_out ch = record ch { expecting_intr = true }

-- The interrupt of a command that was sent.
unfoldable pub intr_hd_handler : Threads → Channel → Outcome (Threads × Channel)
intr_hd_handler s ch =
    if ch.expecting_intr
    then (do
      (s', sema) ← sema_up s ch.disk_done
      ok (s', record ch { expecting_intr = false; disk_done = sema }))
    else ok (s, ch)

-- `sema_down(&disk_done)` of a driver that is alone on its channel, with the interrupt that ends it.
unfoldable pub await_done : Threads → Channel → Outcome (Threads × Channel)
unfolding intr_hd_handler
await_done s ch = do
  (s', ch') ← intr_hd_handler s ch
  assert (ch'.disk_done.value - 1 == 0)
  ok (s', record ch' { disk_done = record ch'.disk_done { value = ch'.disk_done.value - 1 } })

unfoldable pub per_op : ℕ → ℕ
per_op left = if leb 256 left then 256 else left

-- The loop of `ide_read`: `left` is `sec_cnt - sec_cnt_done`, and one round per sector suffices.
unfoldable pub read_loop :
    ℕ → Threads → Channel → ℕ → Disk → (ℕ → Bool) → ℕ → ℕ → ℕ → Bytes → Outcome (Channel × Bytes)
unfolding select_sector per_op size_byte await_done
read_loop zero s ch dev_no disk answers lba left done buf = ok (ch, buf)
read_loop (suc fuel) s ch dev_no disk answers lba left done buf =
    if left == 0
    then ok (ch, buf)
    else (let n = per_op left in
        let r = select_sector ch.registers dev_no (u32 (lba + done)) n in
        await_done s (cmd_out (record ch { registers = r })) >>= λ (s', ch').
        if answers done
        then read_loop fuel s' ch' dev_no disk answers lba (left - n) (done + n)
            (splice buf (done * 512) (sectors_from disk (decoded_lba r)) (size_byte n))
        else panic)

pub ide_read : Threads → Channel → ℕ → Disk → (ℕ → Bool) → ℕ → Bytes → ℕ → Outcome (Channel × Bytes)
unfolding read_loop
ide_read s ch dev_no disk answers lba buf sec_cnt = do
  l ← lock_acquire s ch.lock
  let r = select_disk (select_sector ch.registers dev_no lba sec_cnt) dev_no
  (ch', buf') ←
      read_loop sec_cnt s (record ch { lock = l; registers = r }) dev_no disk answers lba sec_cnt 0
        buf
  (s', l') ← lock_release s ch'.lock
  ok (record ch' { lock = l' }, buf')

-- The loop of `ide_write` tests the drive before the data and waits for the interrupt after them.
unfoldable pub write_loop :
    ℕ → Threads → Channel → ℕ → Disk → (ℕ → Bool) → ℕ → ℕ → ℕ → Bytes → Outcome (Channel × Disk)
unfolding select_sector per_op size_byte await_done
write_loop zero s ch dev_no disk answers lba left done buf = ok (ch, disk)
write_loop (suc fuel) s ch dev_no disk answers lba left done buf =
    if left == 0
    then ok (ch, disk)
    else (let n = per_op left in
        let r = select_sector ch.registers dev_no (u32 (lba + done)) n in
        if answers done
        then (await_done s (cmd_out (record ch { registers = r })) >>= λ (s', ch').
            write_loop fuel s' ch' dev_no
              (overwrite disk (decoded_lba r) (λ i. buf (done * 512 + i)) (decoded_count r)) answers
              lba (left - n) (done + n) buf)
        else panic)

pub ide_write : Threads → Channel → ℕ → Disk → (ℕ → Bool) → ℕ → Bytes → ℕ → Outcome (Channel × Disk)
unfolding write_loop
ide_write s ch dev_no disk answers lba buf sec_cnt = do
  l ← lock_acquire s ch.lock
  let r = select_disk ch.registers dev_no
  (ch', disk') ←
      write_loop sec_cnt s (record ch { lock = l; registers = r }) dev_no disk answers lba sec_cnt 0
        buf
  (s', l') ← lock_release s ch'.lock
  ok (record ch' { lock = l' }, disk')
