-- ===== src/Format/Image.antt =====
-- lab3/ospfsformat.c: the beginning of an image (opendisk) and its end (finishfs).
pub mod Bitmap
pub mod Finish
pub mod Fill
pub mod Open
use Prim.Native.Nat.{bit_and}
use cs111fall.Prelude.{
  ℕ, zero, suc, ◌+◌, ◌-◌, ◌*◌, ◌/◌, ◌%◌, ◌^◌, Bool, true, false, some, ◌==◌, if◌then◌else◌, update,
}
use cs111fall.Prelude.Bits.{complement}
use cs111fall.Ospfs.Disk.{blksize, blkbitsize, freemap_blk}
use cs111fall.Format.Blocks.{Words, block_super, block_bits, block_inodes}
use cs111fall.Format.Cache.{Fs, Super, M, pure, with_block, ◌>>=◌, ◌>>◌}

-- `OSPFS_BLKINODES`.
abbrev pub blkinodes : ℕ
blkinodes = blksize / 64

-- `OSPFS_MAGIC`.
abbrev pub magic : ℕ
magic = 0x013101AE

-- `memset(&b->u.b, 0xFF, OSPFS_BLKSIZE)`.
abbrev pub all_ones : Words → Words
all_ones u w = 2 ^ 32 - 1

-- The two loops of `opendisk` from round `i` on.
unfoldable pub open_bits : (rounds i : ℕ) → M (Unit {0})
open_bits zero i = pure tt
open_bits (suc n) i = do with_block (freemap_blk + i) false block_bits all_ones; open_bits n (suc i)

unfoldable pub open_inodes : (first rounds i : ℕ) → M (Unit {0})
open_inodes first zero i = pure tt
open_inodes first (suc n) i = do
  with_block (first + i) true block_inodes (λ u. u)
  open_inodes first n (suc i)

-- The number of pieces of `size` that `n` takes.
abbrev pub pieces : (n size : ℕ) → ℕ
pieces n size = (n + size - 1) / size

abbrev pub super_of : (nblocks ninodes nbitblock : ℕ) → Super
super_of nblocks ninodes nbitblock = record {
  os_magic = magic;
  os_nblocks = nblocks;
  os_ninodes = ninodes;
  os_firstinob = freemap_blk + nbitblock;
}

-- The variables that `opendisk` sets at its end.
unfoldable pub open_end : M (Unit {0})
open_end s = some (
  tt,
  record s {
    nextb = freemap_blk + s.nbitblock + pieces s.ninodes blkinodes;
    nextinode = 0;
    super = super_of s.nblocks s.ninodes s.nbitblock;
  },
)

-- The image is truncated, and all its bytes are 0.
unfoldable pub opendisk : M (Unit {0})
unfolding open_bits open_inodes open_end
opendisk s =
    let nbits = pieces s.nblocks blkbitsize in
    (do
      open_bits nbits 0
      open_inodes (freemap_blk + nbits) (pieces s.ninodes blkinodes) 0
      open_end)
      (record s { image = λ b w. 0; nbitblock = nbits })

-- `u[i / 32] &= ~(1 << (i % 32))`.
unfoldable pub clear_bit : ℕ → Words → Words
clear_bit i u = update u (i / 32) (bit_and (u (i / 32)) (complement 32 (2 ^ (i % 32))))

-- The bits of one block from `i` on.
unfoldable pub clear_bits : (rounds i : ℕ) → Words → Words
unfolding clear_bit
clear_bits zero i u = u
clear_bits (suc n) i u = clear_bits n (suc i) (clear_bit i u)

-- The loop of `finishfs` over the blocks that are used, from block `i` on.
unfoldable pub mark_used : (rounds i : ℕ) → M (Unit {0})
mark_used zero i = pure tt
mark_used (suc n) i = do
  with_block (freemap_blk + i / blkbitsize) false block_bits (clear_bit (i % blkbitsize))
  mark_used n (suc i)

-- The bits of the bitmap past the end of the disk.
unfoldable pub mark_past_end : M (Unit {0})
mark_past_end s =
    let first = s.nblocks % blkbitsize in
    if s.nblocks == s.nbitblock * blkbitsize
    then some (tt, s)
    else with_block (freemap_blk + s.nbitblock - 1) false block_bits
        (clear_bits (blkbitsize - first) first) s

-- `memmove(&b->u, &super, sizeof(struct ospfs_super))`.
abbrev pub put_super : Super → Words → Words
put_super p u w =
    if w == 0
    then p.os_magic
    else if w == 1
    then p.os_nblocks
    else if w == 2
    then p.os_ninodes
    else if w == 3
    then p.os_firstinob
    else u w

unfoldable pub write_super : M (Unit {0})
write_super s = with_block 1 true block_super (put_super s.super) s

unfoldable pub finishfs : M (Unit {0})
unfolding mark_used mark_past_end write_super
finishfs s = (do mark_used s.nextb 0; mark_past_end; write_super) s
