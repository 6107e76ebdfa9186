-- ===== src/Format/Blocks.antt =====
-- lab3/ospfsformat.c: a block of the cache as 32-bit words, and the swaps to little-endian words, for a
-- machine that is little-endian itself.
use cs111fall.Prelude.{
  ℕ, ◌+◌, ◌*◌, ◌/◌, ◌%◌, ◌^◌, ◌<◌, ◌≡◌, fun_ext, Bool, ◌&&◌, true, false, not, arith, ltb, ◌==◌,
  if◌then◌else◌,
}

-- The words of a block, 256 of them.
abbrev pub Words : Type 0
Words = ℕ → ℕ

pub data BlockType : Type 0 where
  block_super block_dir block_file block_bits block_inodes : BlockType

abbrev pub same_type : BlockType → BlockType → Bool
same_type block_super block_super = true
same_type block_dir block_dir = true
same_type block_file block_file = true
same_type block_bits block_bits = true
same_type block_inodes block_inodes = true
same_type _ _ = false

-- The four bytes of `y`, from the low one on, as the word that they are in memory.
unfoldable pub swizzle : ℕ → ℕ
swizzle y =
    y % 256 + 256 * (y / 256 % 256) + 65536 * (y / 65536 % 256) + 16777216 * (y / 16777216 % 256)

pub swizzle_lem : (y : ℕ) → y < 2 ^ 32 → swizzle y ≡ y
unfolding swizzle
swizzle_lem y h = omega arith

-- An inode whose `oi_nlink` is 0 stays as it is; its 16 words are all fields that are swapped.
unfoldable pub swizzleinode : Words → ℕ → ℕ
swizzleinode u w = if u (w / 16 * 16 + 2) == 0 then u w else swizzle (u w)

-- An entry without a name stays as it is; its first word is `od_ino`, the next begins its name.
unfoldable pub swizzledirentry : Words → ℕ → ℕ
swizzledirentry u w = if w % 32 == 0 && not (u (w + 1) % 256 == 0) then swizzle (u w) else u w

unfoldable pub swizzleblock : BlockType → Words → Words
unfolding swizzleinode swizzledirentry
swizzleblock block_super u w = if ltb w 4 then swizzle (u w) else u w
swizzleblock block_dir u w = swizzledirentry u w
swizzleblock block_file u w = u w
swizzleblock block_bits u w = swizzle (u w)
swizzleblock block_inodes u w = swizzleinode u w

-- Words of 32 bits.
abbrev pub AreWords : Words → Type 0
AreWords u = (w : ℕ) → u w < 2 ^ 32

-- On a little-endian machine the swaps change nothing.
pub swizzleblock_lem : (type : BlockType) (u : Words) → AreWords u → swizzleblock type u ≡ u
unfolding swizzleblock
swizzleblock_lem block_super u h = fun_ext λ w. ground (arith, swizzle_lem (u w) (h w))
swizzleblock_lem block_dir u h = fun_ext λ w. ground (arith, swizzle_lem (u w) (h w))
swizzleblock_lem block_file u h = fun_ext λ w. ground arith
swizzleblock_lem block_bits u h = fun_ext λ w. swizzle_lem (u w) (h w)
swizzleblock_lem block_inodes u h = fun_ext λ w. ground (arith, swizzle_lem (u w) (h w))
