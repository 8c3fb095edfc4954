-- ===== src/Device/Ide/Identify/Kept.antt =====
-- The texts of `identify_disk`, and the lock that it keeps.
use winux_os.Base.{
  ℕ, zero, suc, Bool, ◌+◌, ◌*◌, ◌<◌, ◌≡◌, ◌≢◌, ◌∙◌, refl, ap, true, false, update, Bytes, ok,
  blocked, arith,
}
use native.Mathlib.Nat.{zero-add}
use winux_os.Str.{swap_pairs_from}
use winux_os.Thread.{Threads}
use winux_os.Thread.Sync.{lock_init, taken_by, lock_acquire, acquire_free}
use winux_os.Device.Ide.{Disk, Channel, select_disk, ide_read}
use winux_os.Device.Ide.Commands.{IsIdle, await-idle}
use winux_os.Device.Ide.Identify.{DiskInfo, describe, identify_disk}

-- What lies before the pairs stays.
swap_pairs_before :
    (rounds : ℕ) (src buf : Bytes) (idx j : ℕ)
    → j < idx
    → swap_pairs_from rounds src buf idx j ≡ buf j
unfolding swap_pairs_from
swap_pairs_before zero src buf idx j h = ground arith
swap_pairs_before (suc rounds) src buf idx j h =
    swap_pairs_before rounds src _ (idx + 2) j (omega arith) ∙ ground arith

-- The bytes of pair `q` change places, and the zero comes behind the last pair.
pub swap_pairs_pair :
    (rounds : ℕ) (src buf : Bytes) (idx q : ℕ)
    → q < rounds
    → (swap_pairs_from rounds src buf idx (idx + 2 * q) ≡ src (idx + 2 * q + 1))
      × (swap_pairs_from rounds src buf idx (idx + 2 * q + 1) ≡ src (idx + 2 * q))
unfolding swap_pairs_from
swap_pairs_pair zero src buf idx q h = absurd (omega arith)
swap_pairs_pair (suc rounds) src buf idx zero h =
    let buf' = update (update buf (idx + 1) (src idx)) idx (src (idx + 1)) in
    let e : idx + 0 ≡ idx = omega arith in
    rw e (
      swap_pairs_before rounds src buf' (idx + 2) idx (omega arith) ∙ ground arith,
      swap_pairs_before rounds src buf' (idx + 2) (idx + 1) (omega arith) ∙ ground arith,
    )
swap_pairs_pair (suc rounds) src buf idx (suc q) h =
    let e : idx + 2 * suc q ≡ idx + 2 + 2 * q = omega arith in
    rw e (swap_pairs_pair rounds src _ (idx + 2) q (omega arith))

pub swap_pairs_end :
    (rounds : ℕ) (src buf : Bytes) (idx : ℕ)
    → swap_pairs_from rounds src buf idx (idx + 2 * rounds) ≡ 0
unfolding swap_pairs_from
swap_pairs_end zero src buf idx = ground arith
swap_pairs_end (suc rounds) src buf idx =
    let e : idx + 2 * suc rounds ≡ idx + 2 + 2 * rounds = omega arith in
    rw e (swap_pairs_end rounds src _ (idx + 2))

-- A text of `2 * n` bytes at `from` in the sector, as the drive stores it: the bytes of each word
-- exchanged, and a zero behind them.
pub record IsText (from n : ℕ) (id_info text : Bytes) : Type 0 where
  pub high : (q : ℕ) → q < n → text (2 * q) ≡ id_info (from + (2 * q + 1))
  pub low : (q : ℕ) → q < n → text (2 * q + 1) ≡ id_info (from + 2 * q)
  pub ends : text (2 * n) ≡ 0

swap_pairs-IsText :
    (from n : ℕ) (id_info buf : Bytes)
    → IsText from n id_info (swap_pairs_from n (λ i. id_info (from + i)) buf 0)
swap_pairs-IsText from n id_info buf =
    let src : Bytes = λ i. id_info (from + i) in
    record {
      high = λ q p. rw (zero-add (2 * q)) at (swap_pairs_pair n src buf 0 q p).0;
      low = λ q p. rw (zero-add (2 * q)) at (swap_pairs_pair n src buf 0 q p).1;
      ends = rw (zero-add (2 * n)) at (swap_pairs_end n src buf 0);
    }

waits_for :
    (s : Threads) (t dev : ℕ) (disk : Disk) (answers : ℕ → Bool) (lba : ℕ) (buf : Bytes) (count : ℕ)
    (ch : Channel)
    → ch.lock ≡ taken_by s.current
    → t ≢ s.current
    → ide_read (record s { current = t }) ch dev disk answers lba buf count ≡ blocked
unfolding ide_read lock_acquire
waits_for s t dev disk answers lba buf count ch taken ne = ground (arith, taken)

-- On a free idle channel with a drive that answers, `identify_disk` returns, has the serial number
-- and the model as the drive's words hold them, and leaves the lock taken by the running thread:
-- any other thread that reads from a disk of the channel would wait.
pub identify_disk_lem :
    (s : Threads) (ch : Channel) (dev_no : ℕ) (id_info junk : Bytes)
    → ch.lock ≡ lock_init
    → IsIdle ch
    → (ch' : Channel) × (info : DiskInfo) × (identify_disk s ch dev_no id_info true junk
        ≡ ok (s, ch', info))
      × IsText 20 10 id_info info.serial
      × IsText 54 20 id_info info.module_name
      × (ch'.lock ≡ taken_by s.current)
      × ((t dev : ℕ) (disk : Disk) (answers : ℕ → Bool) (lba : ℕ) (buf : Bytes) (count : ℕ)
          → t ≢ s.current
          → ide_read (record s { current = t }) ch' dev disk answers lba buf count ≡ blocked)
unfolding identify_disk
identify_disk_lem s ch dev_no id_info junk free idle =
    let r = select_disk ch.registers dev_no in
    let ch₁ : Channel = record ch { lock = taken_by s.current; registers = r } in
    let acquired : lock_acquire s ch.lock ≡ ok (taken_by s.current) =
      ap (lock_acquire s) free ∙ acquire_free s in
    (
      record ch₁ { expecting_intr = false },
      describe id_info junk,
      rw (acquired, await-idle s ch₁ (record { drained = idle.drained })) refl,
      swap_pairs-IsText 20 10 id_info junk,
      swap_pairs-IsText 54 20 id_info _,
      refl,
      λ t dev disk answers lba buf count ne.
          waits_for s t dev disk answers lba buf count (record ch₁ { expecting_intr = false }) refl
            ne,
    )
