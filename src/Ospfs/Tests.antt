-- ===== src/Ospfs/Tests.antt =====
-- A small disk: 64 blocks, one block of inodes at block 3, data from block 4 on, an empty root
-- directory; and the theorems of the file system at it.
use cs111fall.Ospfs.Alloc.Count.{Counted, allocate_block-free_blocks}
use cs111fall.Ospfs.Resize.Attach.{Attached, add_block-Attached}
use cs111fall.Prelude.{ℕ, zero, suc, ◌≤◌, ◌≡◌, refl, Bool, true, arith, ◌==◌, if◌then◌else◌}
use cs111fall.Ospfs.Disk.{Disk, ospfs_block, os_nblocks, os_firstinob, ospfs_size2nblocks}
use cs111fall.Ospfs.Bitvector.{bitvector_test}
use cs111fall.Ospfs.Alloc.{is_free, allocate_block}
use cs111fall.Ospfs.Alloc.First.{FirstFree, allocate_block-FirstFree}
use cs111fall.Ospfs.Index.{ospfs_inode_blockno}
use cs111fall.Ospfs.Resize.{add_block, remove_block, change_size}
use cs111fall.Ospfs.Resize.Sound.{Layout, IsInode, IsSound}
use cs111fall.Ospfs.Resize.Sized.{Sized}
use cs111fall.Ospfs.Resize.Change.{Changed, change_size-Changed}
use cs111fall.Ospfs.Resize.Leak.{remove_block-direct}

-- The root directory's inode.
abbrev pub root : ℕ
root = 784

-- The root directory has one block, block 4, and 1000 bytes.
abbrev pub one_block : Disk
one_block a =
    if a == 257
    then 64
    else if a == 258
    then 16
    else if a == 259
    then 3
    else if a == 512
    then 0xffffffe0
    else if a == 513
    then 0xffffffff
    else if a == 784
    then 1000
    else if a == 788
    then 4
    else 0

abbrev pub small : Layout
small = record {
  first = 3;
  data_blk = 4;
  nblocks = 64;
  after_super = omega arith;
  map_fits = omega arith;
  ordered = omega arith;
  small = omega arith;
}

pub root-IsInode : IsInode small root
root-IsInode = record { from = omega arith; to = omega arith }

abbrev only_null : ℕ → Bool
only_null p = p == 0

one_block_marks : (b : ℕ) → is_free one_block b ≡ true → 4 ≤ b
unfolding is_free bitvector_test ospfs_block
one_block_marks zero f = cc
one_block_marks (suc zero) f = cc
one_block_marks (suc (suc zero)) f = cc
one_block_marks (suc (suc (suc zero))) f = cc
one_block_marks (suc (suc (suc (suc b)))) f = omega arith

one_block-IsSound : IsSound small root only_null one_block
unfolding os_nblocks os_firstinob ospfs_block
one_block-IsSound = record {
  nblocks = refl;
  firstinob = refl;
  boot = λ a h. ground arith;
  marks = λ b h f. one_block_marks b f;
  direct = λ k h. ground arith;
  indirect = refl;
  indirect2 = refl;
  under = λ k h. ground arith;
  null = refl;
  pointers = λ p t. ground arith;
  words = λ p k t h. ground arith;
}

pub one_block-Sized : Sized small root 1000 one_block
one_block-Sized = record { tables = only_null; sound = one_block-IsSound; size_is = refl }

-- Growing the directory to three blocks.
change_size-Changed_example : Changed small root 1000 3000 (change_size 65802 root 3000 one_block)
change_size-Changed_example =
    change_size-Changed root-IsInode 65802 3000 1000 one_block-Sized (omega arith) (omega arith)
      (omega arith)

-- The pointer to block 4 stays in the inode.
remove_block-direct_example : (remove_block root one_block).1 788 ≡ 4
unfolding ospfs_size2nblocks os_firstinob
remove_block-direct_example =
    remove_block-direct root one_block (omega arith) (omega arith) refl (omega arith) 788
      (omega arith)

allocate_block-FirstFree_example :
    FirstFree one_block 2 (os_nblocks one_block) (allocate_block one_block)
allocate_block-FirstFree_example = allocate_block-FirstFree one_block

-- The block that the map and the index functions give for byte 999.
blockno_test : ospfs_inode_blockno root 999 one_block ≡ 4
unfolding ospfs_inode_blockno
blockno_test = refl

allocate_block-free_blocks_example : Counted one_block (allocate_block one_block)
allocate_block-free_blocks_example = allocate_block-free_blocks one_block

add_block-Attached_example : Attached small.nblocks root 1 one_block (add_block root one_block)
unfolding ospfs_size2nblocks
add_block-Attached_example =
    add_block-Attached root-IsInode one_block-IsSound (omega arith) (omega arith)
