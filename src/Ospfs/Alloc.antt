-- ===== src/Ospfs/Alloc.antt =====
-- lab3/ospfsmod.c, free-block bitmap operations: `allocate_block` and `free_block`.
pub mod First
pub mod Count
use cs111fall.Prelude.{ℕ, zero, suc, ◌+◌, ◌-◌, Bool, true, false, ltb, if◌then◌else◌}
use cs111fall.Ospfs.Disk.{Disk, freemap_blk, ospfs_block, os_nblocks, os_firstinob}
use cs111fall.Ospfs.Bitvector.{bitvector_set, bitvector_clear, bitvector_test}

-- A set bit of the bitmap at block 2 marks a free block.
unfoldable pub is_free : Disk → ℕ → Bool
is_free d b = bitvector_test (ospfs_block freemap_blk) b d

-- The loop of `allocate_block` from block `i`, with `rounds` blocks to go.
unfoldable pub allocate_from : ℕ → ℕ → Disk → ℕ × Disk
unfolding is_free
allocate_from zero i d = (0, d)
allocate_from (suc rounds) i d =
    let rest = allocate_from rounds (i + 1) d in
    if bitvector_test (ospfs_block freemap_blk) i d
    then (i, bitvector_clear (ospfs_block freemap_blk) i d)
    else rest

unfoldable pub allocate_block : Disk → ℕ × Disk
unfolding allocate_from
allocate_block d = allocate_from (os_nblocks d - 2) 2 d

unfoldable pub free_block : ℕ → Disk → Disk
unfolding is_free
free_block blockno d =
    if ltb blockno (os_firstinob d)
    then d
    else if bitvector_test (ospfs_block freemap_blk) blockno d
    then d
    else bitvector_set (ospfs_block freemap_blk) blockno d
