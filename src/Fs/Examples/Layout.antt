-- ===== src/Fs/Examples/Layout.antt =====
-- Formatting, mounting and the inode table.
use winux_os.Base.{◌≡◌, false, arith}
use winux_os.Fs.Format.{new_super_block, block_bitmap_bit_len}
use winux_os.Fs.Format.Layout.{IsDivided, new_super_block-IsDivided}
use winux_os.Fs.InodeTable.{inode_sync, read_inode}
use winux_os.Fs.InodeTable.RoundTrip.{IsStorable, read-sync}
use winux_os.Fs.Examples.State.{part, sb, inodes}

new_super_block-IsDivided_example :
    IsDivided part (new_super_block part) (block_bitmap_bit_len part)
new_super_block-IsDivided_example = new_super_block-IsDivided part (omega arith) (omega arith)

inode-IsStorable : IsStorable (inodes 8)
inode-IsStorable = record { number = omega arith; size = omega arith; sectors = λ k. ground arith }

read-sync_example :
    let r = read_inode (inode_sync (λ lba i. 3) sb (inodes 8)) sb 7 in
    (r.i_no ≡ 7)
    × (r.i_size ≡ 1000)
    × (r.i_open_cnts ≡ 0)
    × (r.write_deny ≡ false)
    × (r.i_sectors 1 ≡ 3005)
read-sync_example =
    read-sync (λ lba i. 3) sb (inodes 8) 1 (omega arith) inode-IsStorable (omega arith)
