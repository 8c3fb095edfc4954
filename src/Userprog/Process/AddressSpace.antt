-- ===== src/Userprog/Process/AddressSpace.antt =====
-- The page directory of a new process, and its virtual addresses.
use winux_os.Base.{ℕ, ◌+◌, ◌*◌, ◌<◌, ◌≤◌, ◌≡◌, refl, false, ◌==◌, arith}
use winux_os.Memory.{Memory, page_size, get_pte_ptr}
use winux_os.Userprog.Process.{user_vaddr_start, bitmap_pg_cnt}

-- The directory's own page is mapped by a word outside the directory.
pte_outside :
    (dir a : ℕ) → dir + 4096 ≤ 0xffc00000 → a < dir + 4096 → (get_pte_ptr dir == a) ≡ false
unfolding get_pte_ptr
pte_outside dir a h l = ground arith

-- The bitmap of a process has a bit for every page from 0x8048000 up to the kernel, and for 72
-- pages of the kernel.
pub user_pages :
    user_vaddr_start + bitmap_pg_cnt * page_size * 8 * page_size ≡ 0xc0000000 + 72 * page_size
user_pages = refl
