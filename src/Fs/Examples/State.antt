-- ===== src/Fs/Examples/State.antt =====
-- A mounted file system with an empty disk.
use winux_os.Base.{ℕ, ◌==◌, if◌then◌else◌, true, false, none, some, [], Outcome, ok, panic, blocked}
use winux_os.Fs.{SuperBlock, Inode, Partition, FileSystem}

abbrev pub part : Partition
part = record { start_lba = 2048; sec_cnt = 100000 }

abbrev pub sb : SuperBlock
sb = record {
  magic = 0x19980320;
  sec_cnt = 100000;
  inode_cnt = 4096;
  part_lba_base = 2048;
  block_bitmap_lba = 2050;
  block_bitmap_sects = 25;
  inode_bitmap_lba = 2075;
  inode_bitmap_sects = 1;
  inode_table_lba = 2076;
  inode_table_sects = 608;
  data_start_lba = 2684;
  root_inode_no = 0;
  dir_entry_size = 24;
}

-- The root directory's inode is object 9, a file's inode object 8.
abbrev pub inodes : ℕ → Inode
inodes r =
    if r == 9
    then record {
      i_no = 0;
      i_size = 48;
      i_open_cnts = 1;
      write_deny = false;
      i_sectors = λ k. if k == 0 then 2684 else 0;
    }
    else record {
      i_no = 7;
      i_size = 1000;
      i_open_cnts = 1;
      write_deny = false;
      i_sectors = λ k. if k == 0 then 3000 else if k == 1 then 3005 else 0;
    }

abbrev pub fs : FileSystem
fs = record {
  disk = λ lba i. 0;
  disk_sects = 200000;
  sb = sb;
  block_bitmap = record { btmp_bytes_len = 12800; bits = λ i. 0 };
  inode_bitmap = record { btmp_bytes_len = 512; bits = λ i. 0 };
  inodes = inodes;
  open_inodes = [];
  next_ref = 20;
  grants = λ i. true;
  root_dir = 9;
  file_table = λ i. record { fd_pos = 0; fd_flag = 1; fd_inode = if i == 4 then some 8 else none };
  fd_table = λ i. none;
}

-- What a call leaves.
abbrev pub state_after : {A : Type 0} → Outcome (A × FileSystem) → FileSystem
state_after (ok (a, fs')) = fs'
state_after panic = fs
state_after blocked = fs
