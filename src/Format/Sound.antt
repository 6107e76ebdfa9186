-- ===== src/Format/Sound.antt =====
-- An image of lab3/ospfsformat.c with an empty root directory is a sound disk for lab3/ospfsmod.c.
use cs111fall.Prelude.{
  ℕ, ◌+◌, ◌/◌, ◌%◌, ◌<◌, ◌≤◌, ◌≡◌, refl, Bool, true, ◌&&◌, inl, arith, ltb, leb, ◌==◌,
}
use cs111fall.Ospfs.Disk.{Disk, ospfs_block, os_nblocks, os_firstinob}
use cs111fall.Ospfs.Bitvector.{bitvector_test}
use cs111fall.Ospfs.Alloc.{is_free}
use cs111fall.Ospfs.Resize.Sound.{Layout, IsSound}
use cs111fall.Ospfs.Resize.Sized.{Sized}
use cs111fall.Format.Blocks.{Words}
use cs111fall.Format.Image.{pieces, super_of, put_super}
use cs111fall.Format.Program.{are_sizes}
use cs111fall.Format.Root.{reserved, rooted}

-- The image as the disk of lab3/ospfsmod.c.
abbrev pub disk_of : (ℕ → Words) → Disk
disk_of image a = image (a / 256) (a % 256)

abbrev pub only_null : ℕ → Bool
only_null p = p == 0

-- The sizes that `main` accepts.
module _ (nblocks ninodes : ℕ) (sizes : are_sizes nblocks ninodes ≡ true) where
  pub sizes-bounds :
      (2 ≤ ninodes)
      × (nblocks ≤ 8192)
      × (5 ≤ nblocks)
      × (pieces nblocks 8192 ≡ 1)
      × (3 + pieces ninodes 16 ≤ nblocks)
      × (1 ≤ pieces ninodes 16)
  sizes-bounds = ground arith

  -- The image that `main` makes: the disk's layout.
  abbrev pub new_layout : Layout
  new_layout = record {
    first = 3;
    data_blk = 3 + pieces ninodes 16;
    nblocks = nblocks;
    after_super = omega arith;
    map_fits = omega (arith, sizes-bounds);
    ordered = omega arith;
    small = omega (arith, sizes-bounds);
  }

  -- What the image has to be for the module: the superblock, the marks and the root's inode.
  module _ (image : ℕ → Words) (boot : image 0 ≡ (λ w. 0))
      (super_is : image 1 ≡ put_super (super_of nblocks ninodes 1) (λ w. 0))
      (root_is : image 3 ≡ rooted (reserved (λ w. 0)))
      (marks : (b : ℕ)
        → b < 8192
        → bitvector_test 0 b (image 2) ≡ (leb (3 + pieces ninodes 16) b && ltb b nblocks)) where
    pub is_free-image :
        (b : ℕ)
        → b < 8192
        → is_free (disk_of image) b ≡ (leb (3 + pieces ninodes 16) b && ltb b nblocks)
    unfolding is_free bitvector_test ospfs_block
    is_free-image b l =
        let block : (512 + b / 32) / 256 ≡ 2 = omega arith in
        let word : (512 + b / 32) % 256 ≡ 0 + b / 32 = omega arith in rw (block, word) (marks b l)

    boot_word : (a : ℕ) → a < 256 → disk_of image a ≡ 0
    boot_word a l = let e : a / 256 ≡ 0 = omega arith in rw (e, boot) refl

    root_word : (k : ℕ) → 20 ≤ k → k < 32 → disk_of image (768 + k) ≡ 0
    root_word k p q =
        let block : (768 + k) / 256 ≡ 3 = omega arith in
        let word : (768 + k) % 256 ≡ k = omega arith in rw (block, word, root_is) (ground arith)

    new-IsSound : IsSound new_layout 784 only_null (disk_of image)
    unfolding os_nblocks os_firstinob ospfs_block
    new-IsSound = record {
      nblocks = rw super_is refl;
      firstinob = rw super_is refl;
      boot = boot_word;
      marks = λ b l f. ground (arith, is_free-image b (omega (arith, sizes-bounds)));
      direct = λ k l. inl (
          let e : 788 + k ≡ 768 + (20 + k) = omega arith in
          rw e (root_word (20 + k) (omega arith) (omega arith)));
      indirect = rw (root_word 30 (omega arith) (omega arith)) refl;
      indirect2 = rw (root_word 31 (omega arith) (omega arith)) refl;
      under = λ k l.
          let e : 0 + k ≡ k = omega arith in
          rw (root_word 31 (omega arith) (omega arith), e) (rw (boot_word k l) refl);
      null = refl;
      pointers = λ p t. inl (ground arith);
      words = λ p k t l.
          let n : p ≡ 0 = ground arith in
          let e : 0 + k ≡ k = omega arith in inl (rw (n, e) (boot_word k l));
    }

    pub new-Sized : Sized new_layout 784 0 (disk_of image)
    new-Sized = record { tables = only_null; sound = new-IsSound; size_is = rw root_is refl }
