-- ===== src/Ospfs/Disk.antt =====
-- lab3/ospfs.h and the accessors at the top of lab3/ospfsmod.c: the disk as an array of 32-bit
-- words, and where the superblock, the blocks and the inodes lie in it.
use cs111fall.Prelude.{ℕ, ◌+◌, ◌-◌, ◌*◌, ◌/◌, ◌%◌, ◌^◌, Option, none, some, ltb, leb, if◌then◌else◌}

-- `ospfs_data`, read as little-endian words: address `a` is the word at bytes 4 a to 4 a + 3.
abbrev pub Disk : Type 0
Disk = ℕ → ℕ

abbrev pub blksize : ℕ
blksize = 1024

abbrev pub blkbitsize : ℕ
blkbitsize = blksize * 8

abbrev pub freemap_blk : ℕ
freemap_blk = 2

abbrev pub ndirect : ℕ
ndirect = 10

abbrev pub nindirect : ℕ
nindirect = blksize / 4

abbrev pub maxfileblks : ℕ
maxfileblks = ndirect + nindirect + nindirect * nindirect

-- uint32_t addition and subtraction.
abbrev pub add32 : ℕ → ℕ → ℕ
add32 a b = (a + b) % 2 ^ 32

abbrev pub sub32 : ℕ → ℕ → ℕ
sub32 a b = (a + 2 ^ 32 - b) % 2 ^ 32

-- `&ospfs_data[blockno * OSPFS_BLKSIZE]`, as a word address; the product is a uint32_t.
unfoldable pub ospfs_block : ℕ → ℕ
ospfs_block blockno = blockno * blksize % 2 ^ 32 / 4

-- The superblock's fields; it is block 1.
unfoldable pub os_nblocks : Disk → ℕ
os_nblocks d = d (blksize / 4 + 1)

unfoldable pub os_ninodes : Disk → ℕ
os_ninodes d = d (blksize / 4 + 2)

unfoldable pub os_firstinob : Disk → ℕ
os_firstinob d = d (blksize / 4 + 3)

-- The number of blocks that `size` bytes take.
unfoldable pub ospfs_size2nblocks : ℕ → ℕ
ospfs_size2nblocks size = sub32 (add32 size blksize) 1 / blksize

-- A pointer to an inode is the word address of its first field; `none` is the null pointer.
unfoldable pub ospfs_inode : Disk → ℕ → Option ℕ
unfolding ospfs_block os_ninodes os_firstinob
ospfs_inode d ino =
    if leb (os_ninodes d) ino then none else some (ospfs_block (os_firstinob d) + ino * 16)

-- `struct ospfs_inode`: the addresses of its fields.
abbrev pub oi_size : ℕ → ℕ
oi_size oi = oi

abbrev pub oi_ftype : ℕ → ℕ
oi_ftype oi = oi + 1

abbrev pub oi_nlink : ℕ → ℕ
oi_nlink oi = oi + 2

abbrev pub oi_mode : ℕ → ℕ
oi_mode oi = oi + 3

abbrev pub oi_direct : ℕ → ℕ
oi_direct oi = oi + 4

abbrev pub oi_indirect : ℕ → ℕ
oi_indirect oi = oi + 14

abbrev pub oi_indirect2 : ℕ → ℕ
oi_indirect2 oi = oi + 15

abbrev pub ftype_reg : ℕ
ftype_reg = 0

abbrev pub ftype_dir : ℕ
ftype_dir = 1

abbrev pub ftype_symlink : ℕ
ftype_symlink = 2

-- `memset(ospfs_block(blkno), 0, OSPFS_BLKSIZE)`.
unfoldable pub zero_out_block : ℕ → Disk → Disk
unfolding ospfs_block
zero_out_block blkno d a =
    if ltb a (ospfs_block blkno)
    then d a
    else if ltb a (ospfs_block blkno + blksize / 4)
    then 0
    else d a
