-- ===== src/Ospfs/Index/Slot.antt =====
-- The index functions name the same pointer as the look-up in `ospfs_inode_blockno`.
use cs111fall.Prelude.{ℕ, ◌-◌, ◌/◌, ◌%◌, ◌^◌, ◌≤◌, ◌<◌, ◌≡◌, ◌≢◌, arith, if◌then◌else◌}
use cs111fall.Prelude.Int.{pos, negsuc, int_eq, offset}
use cs111fall.Ospfs.Disk.{
  Disk, blksize, ospfs_block, oi_size, oi_ftype, oi_direct, oi_indirect, oi_indirect2,
  ftype_symlink,
}
use cs111fall.Ospfs.Index.{ospfs_inode_blockno, indir2_index, indir_index, direct_index}

module _ (n : ℕ) where
  pub direct_indices :
      n < 10 → (indir2_index n ≡ negsuc 0) × (indir_index n ≡ negsuc 0) × (direct_index n ≡ pos n)
  unfolding indir2_index indir_index direct_index
  direct_indices h = ground arith

  pub indirect_indices :
      10 ≤ n
      → n < 266
      → (indir2_index n ≡ negsuc 0) × (indir_index n ≡ pos 0) × (direct_index n ≡ pos (n - 10))
  unfolding indir2_index indir_index direct_index
  indirect_indices h k = ground arith

  pub indirect2_indices :
      266 ≤ n
      → n < 2 ^ 31
      → (indir2_index n ≡ pos 0)
        × (indir_index n ≡ pos ((n - 266) / 256))
        × (direct_index n ≡ pos ((n - 266) % 256))
  unfolding indir2_index indir_index direct_index
  indirect2_indices h k = ground arith

-- The address of the pointer to file block `b`, by the index functions of `change_size`.
unfoldable pub slot : ℕ → ℕ → Disk → ℕ
slot oi b d =
    if int_eq (indir2_index b) (negsuc 0)
    then (if int_eq (indir_index b) (negsuc 0)
        then offset (oi_direct oi) (direct_index b)
        else offset (ospfs_block (d (oi_indirect oi))) (direct_index b))
    else offset (ospfs_block (d (offset (ospfs_block (d (oi_indirect2 oi))) (indir_index b))))
        (direct_index b)

-- For an offset within a file that is no symbolic link, `ospfs_inode_blockno` reads the pointer that
-- `indir2_index`, `indir_index` and `direct_index` name for the offset's block.
pub ospfs_inode_blockno-slot :
    (oi off : ℕ) (d : Disk)
    → off < 2 ^ 32
    → off < d (oi_size oi)
    → d (oi_ftype oi) ≢ ftype_symlink
    → ospfs_inode_blockno oi off d ≡ d (slot oi (off / blksize) d)
unfolding ospfs_inode_blockno slot
ospfs_inode_blockno-slot oi off d w h f = ground (
  arith,
  direct_indices (off / blksize),
  indirect_indices (off / blksize),
  indirect2_indices (off / blksize),
)
