-- ===== src/Ospfs/Index.antt =====
-- lab3/ospfsmod.c: which block holds a file's byte (`ospfs_inode_blockno`, `ospfs_inode_data`), and
-- the index functions of `change_size`.
pub mod Slot
use cs111fall.Prelude.{ℕ, ◌+◌, ◌-◌, ◌*◌, ◌/◌, ◌%◌, Bool, ◌&&◌, ◌||◌, ltb, leb, ◌==◌, if◌then◌else◌}
use cs111fall.Prelude.Int.{ℤ, pos, negsuc, int_eq, offset}
use cs111fall.Ospfs.Disk.{
  Disk, blksize, ndirect, nindirect, add32, sub32, ospfs_block, oi_size, oi_ftype, oi_direct,
  oi_indirect, oi_indirect2, ftype_symlink,
}

unfoldable pub ospfs_inode_blockno : ℕ → ℕ → Disk → ℕ
ospfs_inode_blockno oi off d =
    let blockno = off / blksize in
    let blockoff = blockno - (ndirect + nindirect) in
    let indirect2_block = ospfs_block (d (oi_indirect2 oi)) in
    if leb (d (oi_size oi)) off || d (oi_ftype oi) == ftype_symlink
    then 0
    else if leb (ndirect + nindirect) blockno
    then d (ospfs_block (d (indirect2_block + blockoff / nindirect)) + blockoff % nindirect)
    else if leb ndirect blockno
    then d (ospfs_block (d (oi_indirect oi)) + (blockno - ndirect))
    else d (oi_direct oi + blockno)

-- The byte address in `ospfs_data` of the file's byte `off`.
unfoldable pub ospfs_inode_data : ℕ → ℕ → Disk → ℕ
unfolding ospfs_inode_blockno
ospfs_inode_data oi off d = ospfs_block (ospfs_inode_blockno oi off d) * 4 + off % blksize

unfoldable pub indir2_index : ℕ → ℤ
indir2_index b = if ltb (ndirect + nindirect) (add32 b 1) then pos 0 else negsuc 0

unfoldable pub indir_index : ℕ → ℤ
indir_index b =
    if leb (add32 b 1) ndirect
    then negsuc 0
    else if ltb ndirect (add32 b 1) && leb (add32 b 1) (ndirect + nindirect)
    then pos 0
    else pos (sub32 (sub32 b ndirect) nindirect / nindirect)

unfoldable pub direct_index : ℕ → ℤ
direct_index b =
    if leb (add32 b 1) ndirect
    then pos b
    else if ltb ndirect (add32 b 1) && leb (add32 b 1) (ndirect + nindirect)
    then pos (sub32 b ndirect)
    else pos (sub32 b ndirect % nindirect)
