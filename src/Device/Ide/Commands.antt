-- ===== src/Device/Ide/Commands.antt =====
-- device/ide.c: what the registers of a command mean, and waiting for the drive.
use winux_os.Base.{
  ℕ, ◌+◌, ◌-◌, ◌*◌, ◌^◌, ◌<◌, ◌≤◌, ◌≡◌, ◌≢◌, ap₂, Bool, false, ◌==◌, ltb, leb, if◌then◌else◌, ◌&&◌,
  Bytes, splice, ok, arith, Bool-cases, inl, inr,
}
use winux_os.Thread.{Threads}
use winux_os.Thread.Sync.{sema_init, sema_up}
use winux_os.Device.Ide.{
  Disk, sectors_from, Registers, Channel, select_sector, decoded_lba, decoded_count, decoded_slave,
  size_byte, per_op, cmd_out, await_done,
}

-- For a 28-bit address and one to 256 sectors the controller reads from the registers exactly the
-- address, the number of sectors and the drive that `select_sector` was given, and the driver
-- moves as many bytes.
pub select_sector_decodes :
    (r : Registers) (dev_no lba n : ℕ)
    → lba < 2 ^ 28
    → 0 < n
    → n ≤ 256
    → let r' = select_sector r dev_no lba n in
      (decoded_lba r' ≡ lba)
      × (decoded_count r' ≡ n)
      × (decoded_slave r' ≡ (dev_no == 1))
      × (size_byte n ≡ decoded_count r' * 512)
unfolding select_sector size_byte
select_sector_decodes r dev_no lba n small pos le = ground arith

-- The channel between two commands: nobody waits, no interrupt is expected.
pub record IsIdle (ch : Channel) : Type 0 where
  pub drained : ch.disk_done ≡ sema_init 0

pub await-idle :
    (s : Threads) (ch : Channel)
    → IsIdle ch
    → await_done s (cmd_out ch) ≡ ok (s, record ch { expecting_intr = false })
unfolding await_done sema_up
await-idle s ch idle = ground (arith, idle.drained)

pub per_op_lem :
    (left : ℕ) → left ≢ 0 → (0 < per_op left) × (per_op left ≤ 256) × (per_op left ≤ left)
unfolding per_op
per_op_lem left h = ground arith

-- The sectors from `lba + done` on are those from `lba` on, `done` sectors later.
sectors_shift :
    (disk : Disk) (lba done l i : ℕ)
    → l ≡ lba + done
    → done * 512 ≤ i
    → sectors_from disk l (i - done * 512) ≡ sectors_from disk lba i
sectors_shift disk lba done l i e h = ap₂ disk (omega arith) (omega arith)

unfoldable pub in_sectors : ℕ → ℕ → ℕ → Bool
in_sectors from count i = leb (from * 512) i && ltb i ((from + count) * 512)

-- What one command moves, and what the later ones do.
pub splice_step :
    (disk : Disk) (lba done n left l size : ℕ) (buf : Bytes) (i : ℕ)
    → n ≤ left
    → l ≡ lba + done
    → size ≡ n * 512
    → (if in_sectors (done + n) (left - n) i
        then sectors_from disk lba i
        else splice buf (done * 512) (sectors_from disk l) size i)
      ≡ (if in_sectors done left i then sectors_from disk lba i else buf i)
unfolding in_sectors
splice_step disk lba done n left l size buf i le e z = elim (Bool-cases (leb (done * 512) i)) [
  | inl later ↦ ground (arith, sectors_shift disk lba done l i e)
  | inr before ↦ ground arith
]
