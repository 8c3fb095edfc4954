-- ===== src/Fs/Examples/Content.antt =====
-- Writing a file and looking up a name.
use winux_os.Base.{
  ℕ, ◌+◌, ◌<◌, ◌≤◌, ◌≡◌, inl, refl, ◌==◌, if◌then◌else◌, true, some, ok, panic, Bytes, arith,
}
use winux_os.Fs.{FileSystem}
use winux_os.Str.{strlen, strlen_from, strcmp, strcmp_from}
use winux_os.Fs.Words.{word_at}
use winux_os.Fs.Directory.{
  DirEntry, find_unknown, f_type_at, entry_bytes, sync_dir_entry, search_file,
}
use winux_os.Fs.Directory.Lookup.{search_file-sync_dir_entry}
use winux_os.Fs.Write.{Cursor, write_chunks, file_write}
use winux_os.Fs.Write.Chunks.{IsAppended, write_chunks-IsAppended}
use winux_os.Fs.Write.Limit.{file_write_limit}
use winux_os.Fs.Examples.State.{fs}

abbrev cursor : Cursor
cursor = record { disk = λ lba i. 0; i_size = 1000; fd_pos = 999 }

apart : (i j : ℕ) → 1 ≤ i → i < 4 → 1 ≤ j → j < 4 → 3000 + i ≡ 3000 + j → i ≡ j
apart i j a b c d e = omega arith

write_chunks-IsAppended_example :
    IsAppended
      (λ k. 3000 + k)
      1
      4
      apart
      cursor
      (write_chunks 700 cursor (λ k. 3000 + k) (λ i. 65) 700 true)
      (λ i. 65)
      700
write_chunks-IsAppended_example =
    write_chunks-IsAppended (λ k. 3000 + k) 1 4 apart 700 700 cursor (λ i. 65) true (omega arith)
      (omega arith) (inl refl) (omega arith) (omega arith)

file_write_limit_example : file_write (λ _. 0) fs 4 (λ i. 65) 70680 ≡ panic
file_write_limit_example =
    file_write_limit (λ _. 0) fs 4 8 (λ i. 65) 70680 refl refl refl (omega arith) refl

abbrev entry : DirEntry
entry = record { filename = λ i. if i == 0 then 97 else 0; i_no = 7; f_type = 1 }

-- "/a"
abbrev path : Bytes
path i = if i == 0 then 47 else if i == 1 then 97 else 0

search_file-sync_dir_entry_example :
    (fs' : FileSystem) × (sync_dir_entry fs entry ≡ ok (true, fs'))
    × ((fs'' : FileSystem) × (search_file 10 (λ _. 0) fs' path ≡ ok (some 7, fs'')))
search_file-sync_dir_entry_example =
    search_file-sync_dir_entry 10 (λ _. 0) fs entry 0 refl (omega arith)
      (unfold find_unknown f_type_at word_at in refl) path 2 (unfold strlen strlen_from in refl)
      refl (omega arith) (omega arith) refl refl (omega arith) (λ j h. absurd (omega arith))
      (unfold strcmp strcmp_from entry_bytes in refl)
