-- ===== src/Fs/Boot/Examples.antt =====
-- The first start on a disk of zeros with one partition, "hdb1".
use winux_os.Base.{
  ℕ, ◌≡◌, refl, true, false, ◌==◌, if◌then◌else◌, List, [], ◌∷◌, none, ok, Bytes, get_or, Outcome,
  panic, blocked,
}
use winux_os.Device.Ide.{Disk}
use winux_os.Fs.{Partition, SuperBlock, File, FileSystem}
use winux_os.Fs.Format.{new_super_block}
use winux_os.Fs.Search.{Drive}
use winux_os.Fs.Boot.{Listed, default_part, part_name}

abbrev zeros : Disk
zeros lba i = 0

abbrev hdb1 : Listed
hdb1 = record {
  name = default_part;
  channel_no = 0;
  part = record { start_lba = 63; sec_cnt = 20000 };
}

abbrev drives : ℕ → Drive
drives n = record {
  disk = zeros;
  parts = λ k. if k == 0 then hdb1.part else record { start_lba = 0; sec_cnt = 0 };
}

-- Nothing is mounted, and the file table is not cleared.
abbrev before : FileSystem
before = record {
  disk = zeros;
  disk_sects = 30000;
  sb = new_super_block hdb1.part;
  block_bitmap = record { btmp_bytes_len = 0; bits = λ i. 0 };
  inode_bitmap = record { btmp_bytes_len = 0; bits = λ i. 0 };
  inodes =
      λ r. record { i_no = 0; i_size = 0; i_open_cnts = 0; write_deny = false; i_sectors = λ k. 0 };
  open_inodes = [];
  next_ref = 0;
  grants = λ n. true;
  root_dir = 0;
  file_table = λ k. record { fd_pos = 7; fd_flag = 7; fd_inode = none };
  fd_table = λ k. none;
}

-- The first logical partition of the second drive is "hdb5".
abbrev five : Outcome Bytes → List ℕ
five (ok s) = s 0 ∷ s 1 ∷ s 2 ∷ s 3 ∷ s 4 ∷ []
five panic = []
five blocked = []

fifth_name :
    five (part_name (λ i. get_or (b'h' ∷ b'd' ∷ b'b' ∷ []) i 0) 5)
    ≡ b'h' ∷ b'd' ∷ b'b' ∷ b'5' ∷ 0 ∷ []
unfolding part_name
fifth_name = refl
