-- ===== src/Device/Ide/Transfer.antt =====
-- What a transfer of any number of sectors does.
use winux_os.Base.{
  ℕ, zero, suc, ◌+◌, ◌-◌, ◌*◌, ◌^◌, ◌≤◌, ◌≡◌, refl, ap, ◌∙◌, Bool, true, false, ◌==◌, ltb, leb,
  if◌then◌else◌, ◌&&◌, Bytes, splice, u32, ok, arith, Bool-cases, inl, inr,
}
use winux_os.Thread.{Threads}
use winux_os.Thread.Sync.{
  lock_init, taken_by, acquire_free, release_taken, lock_acquire, lock_release,
}
use winux_os.Device.Ide.{
  Disk, select_disk, sectors_from, overwrite, Channel, select_sector, decoded_lba, decoded_count,
  size_byte, per_op, read_loop, ide_read, write_loop, ide_write,
}
use winux_os.Device.Ide.Commands.{
  select_sector_decodes, IsIdle, await-idle, per_op_lem, in_sectors, splice_step,
}

module _ (dev_no : ℕ) (disk : Disk) (answers : ℕ → Bool) (up : (k : ℕ) → answers k ≡ true)
    (lba i : ℕ) where
  read_loop-sectors :
      (fuel : ℕ) (s : Threads) (ch : Channel) (left done : ℕ) (buf : Bytes)
      → left ≤ fuel
      → lba + done + left ≤ 2 ^ 28
      → IsIdle ch
      → (ch' : Channel) × (buf' : Bytes) × (read_loop fuel s ch dev_no disk answers lba left done
            buf
          ≡ ok (ch', buf'))
        × (ch'.lock ≡ ch.lock)
        × IsIdle ch'
        × (buf' i ≡ (if in_sectors done left i then sectors_from disk lba i else buf i))
  unfolding read_loop in_sectors
  read_loop-sectors zero s ch left done buf enough small idle =
      (ch, buf, refl, refl, idle, ground arith)
  read_loop-sectors (suc fuel) s ch left done buf enough small idle =
      elim (Bool-cases (left == 0)) [
        | inl none_left ↦ (ch, buf, rw none_left, refl, idle, ground arith)
        | inr some_left ↦
            let n = per_op left in
            let (pos, le, part) = per_op_lem left (ground arith) in
            let at : u32 (lba + done) ≡ lba + done = omega arith in
            let r = select_sector ch.registers dev_no (u32 (lba + done)) n in
            let (l, c, d, z) =
              select_sector_decodes ch.registers dev_no (u32 (lba + done)) n (omega arith) pos le in
            let ch₁ : Channel = record ch { registers = r; expecting_intr = false } in
            let idle₁ : IsIdle ch₁ = record { drained = idle.drained } in
            let (ch', buf', e, k, idle', t) =
              read_loop-sectors fuel s ch₁ (left - n) (done + n)
                (splice buf (done * 512) (sectors_from disk (decoded_lba r)) (size_byte n))
                (omega arith) (omega arith) idle₁ in
            (
              ch',
              buf',
              rw
                  (
                    some_left,
                    await-idle s (record ch { registers = r }) (record { drained = idle.drained }),
                    up done,
                  )
                  e,
              k,
              idle',
              t
                  ∙ splice_step disk lba done n left (decoded_lba r) (size_byte n) buf i part
                      (l ∙ at) (ground arith),
            )
      ]

  -- On a free idle channel with a drive that always answers, `ide_read` of sectors that end at or
  -- before 2^28 returns, fills the buffer with those sectors of the disk in order, changes no byte
  -- after them, and leaves the lock free and the channel idle.
  pub ide_read-sectors :
      (s : Threads) (ch : Channel) (buf : Bytes) (count : ℕ)
      → lba + count ≤ 2 ^ 28
      → ch.lock ≡ lock_init
      → IsIdle ch
      → (ch' : Channel) × (buf' : Bytes) × (ide_read s ch dev_no disk answers lba buf count
          ≡ ok (ch', buf'))
        × (ch'.lock ≡ lock_init)
        × IsIdle ch'
        × (buf' i ≡ (if ltb i (count * 512) then sectors_from disk lba i else buf i))
  unfolding ide_read in_sectors
  ide_read-sectors s ch buf count small unlocked idle =
      let r = select_disk (select_sector ch.registers dev_no lba count) dev_no in
      let (ch', buf', e, k, idle', t) =
        read_loop-sectors count s (record ch { lock = taken_by s.current; registers = r }) count 0
          buf (omega arith) (omega arith) (record { drained = idle.drained }) in
      let acquired : lock_acquire s ch.lock ≡ ok (taken_by s.current) =
        ap (lock_acquire s) unlocked ∙ acquire_free s in
      let released : lock_release s ch'.lock ≡ ok (s, lock_init) =
        ap (lock_release s) k ∙ release_taken s in
      (
        record ch' { lock = lock_init },
        buf',
        rw (acquired, e, released),
        refl,
        record { drained = idle'.drained },
        ground (arith, t),
      )

in_range : ℕ → ℕ → ℕ → Bool
in_range from count x = leb from x && ltb x (from + count)

-- One command overwrites `n` sectors, the later ones the rest.
overwrite_step :
    (disk : Disk) (buf : Bytes) (lba done n left l c x i : ℕ)
    → n ≤ left
    → l ≡ lba + done
    → c ≡ n
    → (if in_range (lba + (done + n)) (left - n) x
        then buf ((x - lba) * 512 + i)
        else overwrite disk l (λ j. buf (done * 512 + j)) c x i)
      ≡ (if in_range (lba + done) left x then buf ((x - lba) * 512 + i) else disk x i)
unfolding in_range
overwrite_step disk buf lba done n left l c x i le e z = elim (Bool-cases (leb (lba + done) x)) [
  | inl later ↦
      let at : lba + done ≤ x = ground arith in
      let f : done * 512 + ((x - l) * 512 + i) ≡ (x - lba) * 512 + i = omega arith in
      ground (arith, ap buf f)
  | inr before ↦ ground arith
]

module _ (dev_no : ℕ) (answers : ℕ → Bool) (up : (k : ℕ) → answers k ≡ true) (lba x i : ℕ)
    (buf : Bytes) where
  write_loop-sectors :
      (fuel : ℕ) (s : Threads) (ch : Channel) (disk : Disk) (left done : ℕ)
      → left ≤ fuel
      → lba + done + left ≤ 2 ^ 28
      → IsIdle ch
      → (ch' : Channel) × (disk' : Disk) × (write_loop fuel s ch dev_no disk answers lba left done
            buf
          ≡ ok (ch', disk'))
        × (ch'.lock ≡ ch.lock)
        × IsIdle ch'
        × (disk' x i
            ≡ (if in_range (lba + done) left x then buf ((x - lba) * 512 + i) else disk x i))
  unfolding write_loop in_range
  write_loop-sectors zero s ch disk left done enough small idle =
      (ch, disk, refl, refl, idle, ground arith)
  write_loop-sectors (suc fuel) s ch disk left done enough small idle =
      elim (Bool-cases (left == 0)) [
        | inl none_left ↦ (ch, disk, rw none_left, refl, idle, ground arith)
        | inr some_left ↦
            let n = per_op left in
            let (pos, le, part) = per_op_lem left (ground arith) in
            let at : u32 (lba + done) ≡ lba + done = omega arith in
            let r = select_sector ch.registers dev_no (u32 (lba + done)) n in
            let (l, c, d, z) =
              select_sector_decodes ch.registers dev_no (u32 (lba + done)) n (omega arith) pos le in
            let ch₁ : Channel = record ch { registers = r; expecting_intr = false } in
            let (ch', disk', e, k, idle', t) =
              write_loop-sectors fuel s ch₁
                (overwrite disk (decoded_lba r) (λ j. buf (done * 512 + j)) (decoded_count r))
                (left - n) (done + n) (omega arith) (omega arith)
                (record { drained = idle.drained }) in
            (
              ch',
              disk',
              rw
                  (
                    some_left,
                    up done,
                    await-idle s (record ch { registers = r }) (record { drained = idle.drained }),
                  )
                  e,
              k,
              idle',
              t
                  ∙ overwrite_step disk buf lba done n left (decoded_lba r) (decoded_count r) x i
                      part (l ∙ at) c,
            )
      ]

  -- On a free idle channel with a drive that always answers, `ide_write` of sectors that end at or
  -- before 2^28 returns, puts the buffer on exactly those sectors of the disk, and leaves the lock
  -- free and the channel idle.
  pub ide_write-sectors :
      (s : Threads) (ch : Channel) (disk : Disk) (count : ℕ)
      → lba + count ≤ 2 ^ 28
      → ch.lock ≡ lock_init
      → IsIdle ch
      → (ch' : Channel) × (disk' : Disk) × (ide_write s ch dev_no disk answers lba buf count
          ≡ ok (ch', disk'))
        × (ch'.lock ≡ lock_init)
        × IsIdle ch'
        × (disk' x i ≡ overwrite disk lba buf count x i)
  unfolding ide_write in_range
  ide_write-sectors s ch disk count small unlocked idle =
      let r = select_disk ch.registers dev_no in
      let (ch', disk', e, k, idle', t) =
        write_loop-sectors count s (record ch { lock = taken_by s.current; registers = r }) disk
          count 0 (omega arith) (omega arith) (record { drained = idle.drained }) in
      let acquired : lock_acquire s ch.lock ≡ ok (taken_by s.current) =
        ap (lock_acquire s) unlocked ∙ acquire_free s in
      let released : lock_release s ch'.lock ≡ ok (s, lock_init) =
        ap (lock_release s) k ∙ release_taken s in
      (
        record ch' { lock = lock_init },
        disk',
        rw (acquired, e, released),
        refl,
        record { drained = idle'.drained },
        ground (arith, t),
      )
