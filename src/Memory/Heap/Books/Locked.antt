-- ===== src/Memory/Heap/Books/Locked.antt =====
-- Under the lock of the kernel's pool: giving back a page, and the lock itself.
use winux_os.Base.{ℕ, ◌+◌, ◌*◌, ◌/◌, ◌≡◌, refl, false, arith, ok}
use winux_os.Bitmap
use winux_os.Bitmap.{Bitmap}
use winux_os.Thread.Sync.{lock_init, taken_by, lock_acquire, lock_release}
use winux_os.Memory.{page_size, kernel, Memory, acquire, release, sub32, get_pte_ptr}
use winux_os.Memory.Alloc.{pfree, page_table_pte_remove, mfree_page}

set_zero : (m : Bitmap) (k : ℕ) → (m' : Bitmap) × (Bitmap.set m k 0 ≡ ok m')
unfolding Bitmap.set
set_zero m k = (_, refl)

-- Giving pages back always succeeds in a kernel thread, and leaves the lock alone.
pub mfree_page-kernel :
    (m : Memory) (a : ℕ)
    → m.is_process ≡ false
    → (m' : Memory) × (mfree_page m kernel a 1 ≡ ok m')
      × (m'.is_process ≡ false)
      × (m'.kernel_pool.lock ≡ m.kernel_pool.lock)
      × (m'.threads ≡ m.threads)
unfolding mfree_page pfree page_table_pte_remove
mfree_page-kernel m a thread =
    let p = m.words (get_pte_ptr a) / page_size * page_size in
    let (b, e) =
      set_zero m.kernel_pool.pool_bitmap (sub32 p m.kernel_pool.phy_address_start / page_size) in
    let (v, e') =
      set_zero m.kernel_vaddr.vaddr_bitmap (0 + sub32 a m.kernel_vaddr.vaddr_start / page_size) in
    (
      record (page_table_pte_remove
          (record m { kernel_pool = record m.kernel_pool { pool_bitmap = b } }) a) {
            kernel_vaddr = record m.kernel_vaddr { vaddr_bitmap = v };
          },
      ground (arith, e, e'),
      thread,
      refl,
      refl,
    )

abbrev pub locked : Memory → Memory
locked m = record m { kernel_pool = record m.kernel_pool { lock = taken_by m.threads.current } }

pub acquire_lem : (m : Memory) → m.kernel_pool.lock ≡ lock_init → acquire m kernel ≡ ok (locked m)
unfolding acquire lock_acquire
acquire_lem m h = ground arith

pub release_lem :
    (m : Memory)
    → m.kernel_pool.lock ≡ taken_by m.threads.current
    → release m kernel ≡ ok (record m { kernel_pool = record m.kernel_pool { lock = lock_init } })
unfolding release lock_release
release_lem m h = ground arith
