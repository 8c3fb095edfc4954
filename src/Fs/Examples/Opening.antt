-- ===== src/Fs/Examples/Opening.antt =====
-- Opening "/file1" in a file system whose directory does not have it.
use winux_os.Base.{
  ◌+◌, has_bit, ◌≡◌, inl, refl, ◌==◌, if◌then◌else◌, [], ◌∷◌, some, ok, Bytes, arith, get_or,
}
use winux_os.Bitmap.{scan, set, Bitmap}
use winux_os.Str.{strlen, strlen_from, strcmp, strcmp_from, memcpy, memcpy_from}
use winux_os.Fs.{FileSystem}
use winux_os.Fs.InodeTable.{inode_locate}
use winux_os.Fs.Words.{word_at}
use winux_os.Fs.Files.{take_bit, find_slot, get_free_slot_in_global}
use winux_os.Fs.Directory.{entry_bytes, f_type_at, find_unknown, search_file}
use winux_os.Fs.Open.{sys_open}
use winux_os.Fs.Open.Missing.{IsMissing}
use winux_os.Fs.Open.Create.{sys_open-create}
use winux_os.Fs.Examples.State.{fs}

abbrev path : Bytes
path i = get_or (b'/' ∷ b'f' ∷ b'i' ∷ b'l' ∷ b'e' ∷ b'1' ∷ []) i 0

-- The root directory's inode is taken.
abbrev one_taken : Bitmap
one_taken = record { btmp_bytes_len = 512; bits = λ i. if i == 0 then 1 else 0 }

abbrev fs₀ : FileSystem
fs₀ = record fs { inode_bitmap = one_taken }

abbrev two_taken : Bitmap
two_taken = record {
  btmp_bytes_len = 512;
  bits = λ i. if 0 == i then 3 else if i == 0 then 1 else 0;
}

path_len : strlen 10 path ≡ some 6
unfolding strlen strlen_from
path_len = refl

name_len : strlen 10 (λ i. path (i + 1)) ≡ some 5
unfolding strlen strlen_from
name_len = refl

-- All entries are empty.
path-IsMissing : IsMissing 10 (λ _. 0) fs₀ (λ i. path (i + 1))
unfolding strcmp strcmp_from
path-IsMissing i j inside there h = inl refl

inode_1 : take_bit one_taken ≡ ok (some 1, two_taken)
unfolding take_bit scan set
inode_1 = refl

sys_open-create_example :
    (fs' fs'' : FileSystem) × (sys_open 10 (λ _. 0) fs₀ path 4 ≡ ok (some 3, fs'))
    × (fs'.fd_table 3 ≡ some 3)
    × ((fs'.file_table 3).fd_inode ≡ some 22)
    × ((fs'.inodes 22).i_no ≡ 1)
    × ((fs'.inodes 22).i_size ≡ 0)
    × (fs'.open_inodes ≡ 22 ∷ [])
    × (fs'.inode_bitmap ≡ two_taken)
    × (search_file 10 (λ _. 0) fs' path ≡ ok (some 1, fs''))
unfolding has_bit memcpy
sys_open-create_example =
    sys_open-create 10 (λ _. 0) fs₀ path 6 5 1 0 4 3 3 two_taken refl path_len refl (omega arith)
      (omega arith) (λ n. refl) path-IsMissing name_len refl inode_1 (omega arith)
      (unfold get_free_slot_in_global find_slot in refl) (unfold find_slot in refl) (omega arith)
      (omega arith) (unfold find_unknown f_type_at word_at in refl)
      (unfold inode_locate in omega arith) (omega arith) (λ j h. absurd (omega arith))
      (unfold strcmp strcmp_from entry_bytes memcpy_from in refl)
