-- ===== src/Ospfs/Resize/Leak.antt =====
-- `remove_block` works on the pointer behind the last block.
use cs111fall.Prelude.{ℕ, ◌+◌, ◌<◌, ◌≡◌, arith, ne→==, ◌≢◌, lt→ltb}
use cs111fall.Ospfs.Disk.{Disk, ospfs_size2nblocks, oi_size, oi_direct, os_firstinob}
use cs111fall.Ospfs.Alloc.{free_block}
use cs111fall.Ospfs.Index.Slot.{direct_indices}
use cs111fall.Ospfs.Resize.{release, shrink, remove_block}

-- For a file of 1 to 9 blocks whose next direct pointer is null, on a disk whose superblock names a
-- first inode block, `remove_block` changes the size and no other word: the last block stays marked
-- in the bitmap and its pointer stays in the inode.
pub remove_block-direct :
    (oi : ℕ) (d : Disk)
    → 0 < ospfs_size2nblocks (d (oi_size oi))
    → ospfs_size2nblocks (d (oi_size oi)) < 10
    → d (oi_direct oi + ospfs_size2nblocks (d (oi_size oi))) ≡ 0
    → 0 < os_firstinob d
    → (a : ℕ) → oi_size oi ≢ a
    → (remove_block oi d).1 a ≡ d a
unfolding remove_block release shrink free_block
remove_block-direct oi d some_blocks few null first a ne =
    let n = ospfs_size2nblocks (d (oi_size oi)) in
    let i = direct_indices n few in
    rw (ne→== n 0 (omega arith), i.0, i.1, null, lt→ltb 0 (os_firstinob d) first)
      (ground (arith, null))
