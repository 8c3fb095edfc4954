-- ===== src/Device/Ide/Examples.antt =====
-- The drivers' theorems at one transfer and at one character.
use winux_os.Base.{
  ℕ, Bool, blocked, ◌≢◌, ◌*◌, ◌≡◌, refl, true, false, [], ◌==◌, ltb, if◌then◌else◌, ok, arith,
  Bytes,
}
use winux_os.Thread.{Threads, Status}
use winux_os.Thread.Sync.{lock_init, taken_by, sema_init}
use winux_os.Device.Ide.{Disk, sectors_from, overwrite, Registers, Channel, ide_read, ide_write}
use winux_os.Device.Ide.Identify.{DiskInfo, identify_disk}
use winux_os.Device.Ide.Identify.Kept.{IsText, identify_disk_lem}
use winux_os.Device.Ide.Transfer.{ide_read-sectors, ide_write-sectors}
use winux_os.Device.Ide.Commands.{IsIdle}

abbrev registers : Registers
registers = record { sect_cnt = 0; lba_l = 0; lba_m = 0; lba_h = 0; dev = 0 }

abbrev channel : Channel
channel = record {
  lock = lock_init;
  expecting_intr = false;
  disk_done = sema_init 0;
  registers = registers;
}

channel-IsIdle : IsIdle channel
channel-IsIdle = record { drained = refl }

abbrev threads : Threads
threads = record {
  current = 1;
  status = λ t. if t == 1 then Status.running else Status.blocked;
  ready_list = [];
  priority = λ t. 31;
  ticks = λ t. 31;
  elapsed_ticks = λ t. 0;
  idle_thread = 0;
}

abbrev disk : Disk
disk lba i = lba

ide_read-sectors_example :
    (ch' : Channel) × (buf' : Bytes) × (ide_read threads channel 1 disk
        (λ _. true)
        2049
        (λ _. 9)
        300
      ≡ ok (ch', buf'))
    × (ch'.lock ≡ lock_init)
    × IsIdle ch'
    × (buf' 1000 ≡ (if ltb 1000 (300 * 512) then sectors_from disk 2049 1000 else 9))
ide_read-sectors_example =
    ide_read-sectors 1 disk (λ _. true) (λ k. refl) 2049 1000 threads channel (λ _. 9) 300
      (omega arith) refl channel-IsIdle

ide_write-sectors_example :
    (ch' : Channel) × (disk' : Disk) × (ide_write threads channel 1 disk
        (λ _. true)
        2049
        (λ _. 9)
        300
      ≡ ok (ch', disk'))
    × (ch'.lock ≡ lock_init)
    × IsIdle ch'
    × (disk' 2050 7 ≡ overwrite disk 2049 (λ _. 9) 300 2050 7)
ide_write-sectors_example =
    ide_write-sectors 1 (λ _. true) (λ k. refl) 2049 2050 7 (λ _. 9) threads channel disk 300
      (omega arith) refl channel-IsIdle

identify_disk_lem_example :
    (ch' : Channel) × (info : DiskInfo) × (identify_disk threads channel 1 (λ i. i) true (λ i. 9)
      ≡ ok (threads, ch', info))
    × IsText 20 10 (λ i. i) info.serial
    × IsText 54 20 (λ i. i) info.module_name
    × (ch'.lock ≡ taken_by 1)
    × ((t dev : ℕ) (other : Disk) (answers : ℕ → Bool) (lba : ℕ) (buf : Bytes) (count : ℕ)
        → t ≢ 1
        → ide_read (record threads { current = t }) ch' dev other answers lba buf count ≡ blocked)
identify_disk_lem_example =
    identify_disk_lem threads channel 1 (λ i. i) (λ i. 9) refl channel-IsIdle
