-- ===== src/Device/Ide/Identify.antt =====
-- device/ide.c: `identify_disk`, which asks a drive for its description and never gives the
-- channel's lock back. `id_info` is the sector that the drive sends, `answer` the result of
-- `busy_wait`, `junk` what the local buffer held before.
pub mod Kept
use winux_os.Base.{
  ℕ, ◌+◌, ◌*◌, ◌/◌, ◌^◌, Bool, true, false, ltb, if◌then◌else◌, Bytes, u32, Outcome, ok, panic,
  ◌>>=◌, ◌>>◌, assert,
}
use winux_os.Str.{swap_pairs_bytes}
use winux_os.Thread.{Threads}
use winux_os.Thread.Sync.{lock_acquire}
use winux_os.Device.Ide.{Channel, select_disk, cmd_out, await_done}
use winux_os.Fs.Words.{word_at}

-- What is printed of a drive.
pub record DiskInfo : Type 0 where
  pub serial : Bytes
  pub module_name : Bytes
  pub sectors : ℕ
  pub capacity : ℕ

-- Words 10 to 19 are the serial number, 27 to 46 the model, 60 and 61 the number of sectors. The
-- buffer is cleared between the two texts, over the length of the first.
unfoldable pub describe : Bytes → Bytes → DiskInfo
unfolding swap_pairs_bytes word_at
describe id_info junk =
    let serial = swap_pairs_bytes (λ i. id_info (10 * 2 + i)) junk 20 in
    let cleared = λ (i : ℕ). if ltb i 20 then 0 else serial i in
    let sectors = word_at id_info 30 in
    record {
      serial = serial;
      module_name = swap_pairs_bytes (λ i. id_info (27 * 2 + i)) cleared 40;
      sectors = sectors;
      capacity = u32 (sectors * 512) / 1024 / 1024;
    }

unfoldable pub identify_disk :
    Threads → Channel → ℕ → Bytes → Bool → Bytes → Outcome (Threads × Channel × DiskInfo)
unfolding describe
identify_disk s ch dev_no id_info answer junk = do
  l ← lock_acquire s ch.lock
  let r = select_disk ch.registers dev_no
  (s', ch') ← await_done s (cmd_out (record ch { lock = l; registers = r }))
  assert answer
  ok (s', ch', describe id_info junk)
