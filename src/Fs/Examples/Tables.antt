-- ===== src/Fs/Examples/Tables.antt =====
-- Opening files.
use winux_os.Base.{◌≡◌, refl, ◌==◌, if◌then◌else◌, none, some, ok}
use winux_os.Fs.{FileSystem, alloc}
use winux_os.Fs.InodeTable.{
  inode_open, read_inode, decode_inode, inode_locate, find_open, load_inode,
}
use winux_os.Fs.Words.{word_at}
use winux_os.Fs.Files.{get_free_slot_in_global, find_slot, claim, pcb_fd_install, file_open}
use winux_os.Fs.Files.Deny.{file_open_exclusive}
use winux_os.Fs.Examples.State.{fs, state_after}

empty-i_no : (read_inode fs.disk fs.sb 0).i_no ≡ 0
unfolding read_inode decode_inode word_at inode_locate
empty-i_no = refl

abbrev opened : FileSystem
opened = state_after (inode_open fs 0)

abbrev installed : FileSystem
installed = record fs { fd_table = λ i. if 3 == i then some 5 else none }

abbrev written : FileSystem
written = state_after (file_open fs 0 1)

first_writer : file_open fs 0 1 ≡ ok (some 3, written)
unfolding file_open get_free_slot_in_global find_slot inode_open find_open load_inode alloc claim
    inode_locate pcb_fd_install decode_inode word_at
first_writer = refl

file_open_exclusive_example : (fs'' : FileSystem) × (file_open written 0 2 ≡ ok (none, fs''))
file_open_exclusive_example =
    file_open_exclusive fs 0 1 2 3 written empty-i_no refl refl first_writer
