-- ===== src/Fs/Files/Slots.antt =====
-- fs/file.c and fs/fs.c: the slots of the file table and of a task's descriptor table.
use winux_os.Base.{
  ℕ, zero, suc, ◌+◌, ◌<◌, ◌≤◌, ◌≡◌, inl, inr, Bool, true, false, Option, none, some, ok, arith,
  ◌==◌, Bool-cases, ◌≢◌,
}
use winux_os.Fs.{FileSystem}
use winux_os.Fs.Files.{
  is_none, find_slot, get_free_slot_in_global, pcb_fd_install, fd_local2global, max_file_open,
  max_files_open_per_proc,
}

-- What a search of the entries from `idx` to `end` finds: the first free one.
abbrev pub IsFirst : (ℕ → Bool) → ℕ → ℕ → Option ℕ → Type 0
IsFirst free idx end none = (i : ℕ) → idx ≤ i → i < end → free i ≡ false
IsFirst free idx end (some k) =
    (idx ≤ k) × (k < end) × (free k ≡ true) × ((i : ℕ) → idx ≤ i → i < k → free i ≡ false)

-- An entry in use is passed.
in_use :
    (free : ℕ → Bool) (idx i : ℕ)
    → free idx ≡ false
    → idx ≤ i
    → (idx + 1 ≤ i → free i ≡ false)
    → free i ≡ false
in_use free idx i used le later = elim (Bool-cases (idx == i)) [
  | inl here ↦ ground arith
  | inr there ↦ later (ground arith)
]

IsFirst-later :
    (free : ℕ → Bool) (idx end : ℕ) (o : Option ℕ)
    → free idx ≡ false
    → IsFirst free (idx + 1) end o
    → IsFirst free idx end o
IsFirst-later free idx end none used rest = λ i lo hi. in_use free idx i used lo (λ p. rest i p hi)
IsFirst-later free idx end (some k) used rest = (
  omega (arith, rest.0),
  rest.1,
  rest.2,
  λ i lo hi. in_use free idx i used lo (λ p. rest.3 i p hi),
)

find_slot-IsFirst :
    (free : ℕ → Bool) (left idx end : ℕ)
    → idx + left ≡ end
    → IsFirst free idx end (find_slot free left idx)
unfolding find_slot
find_slot-IsFirst free zero idx end e = λ i lo hi. absurd (omega arith)
find_slot-IsFirst free (suc left) idx end e = elim (Bool-cases (free idx)) [
  | inl found ↦ rw found ((omega arith, omega arith, found, λ i lo hi. absurd (omega arith)))
  | inr used ↦ rw used (
      IsFirst-later free idx end (find_slot free left (idx + 1)) used
        (find_slot-IsFirst free left (idx + 1) end (omega arith)))
]

-- `get_free_slot_in_global` returns the first of the entries 3 to 31 of the file table whose
-- `fd_inode` is NULL, or -1 if none of them is.
pub get_free_slot_lem :
    (fs : FileSystem)
    → IsFirst (λ i. is_none (fs.file_table i).fd_inode) 3 max_file_open (get_free_slot_in_global fs)
unfolding get_free_slot_in_global
get_free_slot_lem fs =
    find_slot-IsFirst (λ i. is_none (fs.file_table i).fd_inode) 29 3 32 (omega arith)

-- A descriptor that `pcb_fd_install` returned for an index below 32 is one of 3 to 7 and was
-- free, `fd_local2global` leads from it back to the index, and every other descriptor keeps its
-- entry.
pub fd_local2global-install :
    (fs : FileSystem) (g fd : ℕ) (fs' : FileSystem)
    → g < max_file_open
    → pcb_fd_install fs g ≡ (some fd, fs')
    → (3 ≤ fd)
      × (fd < max_files_open_per_proc)
      × (fs.fd_table fd ≡ none)
      × (fd_local2global fs' fd ≡ ok g)
      × ((k : ℕ) → k ≢ fd → fs'.fd_table k ≡ fs.fd_table k)
unfolding pcb_fd_install fd_local2global
fd_local2global-install fs g fd fs' small e =
    ground (arith, find_slot-IsFirst (λ i. is_none (fs.fd_table i)) 5 3 8 (omega arith))
