-- ===== src/Ospfs/Resize/Sound.antt =====
-- What the disk and one inode satisfy while blocks are added to the file and taken from it, and
-- that each elementary write of lab3/ospfsmod.c keeps it.
pub mod Write
use cs111fall.Prelude.{
  ℕ, ◌+◌, ◌-◌, ◌*◌, ◌/◌, ◌^◌, ◌≤◌, ◌<◌, ◌≡◌, refl, ◌≢◌, ◌⊎◌, inl, inr, Bool, true, false, ◌||◌,
  arith, ltb, ◌==◌, if◌then◌else◌, update,
}
use cs111fall.Ospfs.Disk.{
  Disk, ospfs_block, os_nblocks, os_firstinob, zero_out_block, oi_size, oi_direct, oi_indirect,
  oi_indirect2,
}
use cs111fall.Ospfs.Alloc.{is_free, free_block}
use cs111fall.Ospfs.Alloc.First.{
  Takes, is_free-Takes, Takes_frame, is_free-free_block, free_block_frame,
}

-- The parts of the disk: the bitmap from block 2, the inodes from `first`, the data from `data_blk`.
pub record Layout : Type 0 where
  pub first : ℕ
  pub data_blk : ℕ
  pub nblocks : ℕ
  pub after_super : 3 ≤ first
  pub map_fits : nblocks ≤ (first - 2) * 8192
  pub ordered : first ≤ data_blk
  pub small : nblocks < 2 ^ 22

-- The inode lies among the inode blocks.
pub record IsInode (l : Layout) (oi : ℕ) : Type 0 where
  pub from : l.first * 256 ≤ oi
  pub to : oi + 16 ≤ l.data_blk * 256

-- A block pointer is null or names a data block.
abbrev pub IsPtr : Layout → ℕ → Type 0
IsPtr l p = (p ≡ 0) ⊎ ((l.data_blk ≤ p) × (p < l.nblocks))

-- A sound disk here is one whose superblock and boot block are in order, where all block pointers of the inode and
-- of its tables are null or name data blocks, and only data blocks are marked as free; that blocks in use are
-- marked, and belong to one place only, is not part of it. `tables` are the blocks that are read as arrays of
-- block pointers.
pub record IsSound (l : Layout) (oi : ℕ) (tables : ℕ → Bool) (d : Disk) : Type 0 where
  pub nblocks : os_nblocks d ≡ l.nblocks
  pub firstinob : os_firstinob d ≡ l.first
  pub boot : (a : ℕ) → a < 256 → d a ≡ 0
  pub marks : (b : ℕ) → b < l.nblocks → is_free d b ≡ true → l.data_blk ≤ b
  pub direct : (k : ℕ) → k < 10 → IsPtr l (d (oi_direct oi + k))
  pub indirect : tables (d (oi_indirect oi)) ≡ true
  pub indirect2 : tables (d (oi_indirect2 oi)) ≡ true
  pub under : (k : ℕ) → k < 256 → tables (d (ospfs_block (d (oi_indirect2 oi)) + k)) ≡ true
  pub null : tables 0 ≡ true
  pub pointers : (p : ℕ) → tables p ≡ true → IsPtr l p
  pub words : (p k : ℕ) → tables p ≡ true → k < 256 → IsPtr l (d (ospfs_block p + k))

pub ospfs_block_lem : (p : ℕ) → p < 2 ^ 22 → ospfs_block p ≡ p * 256
unfolding ospfs_block
ospfs_block_lem p h = omega arith

module _ {l : Layout} {oi : ℕ} (at : IsInode l oi) where
  -- A word of a block that a pointer names: in the boot block if the pointer is null, else in the data.
  pub IsPtr-word :
      (p k : ℕ)
      → IsPtr l p
      → k < 256
      → (ospfs_block p ≡ p * 256)
        × (((p ≡ 0) × (ospfs_block p + k < 256)) ⊎ (l.data_blk * 256 ≤ ospfs_block p + k))
  IsPtr-word p k h q = ground (arith, ospfs_block_lem p, l.small)

  module _ {tables : ℕ → Bool} {d : Disk} (s : IsSound l oi tables d) where
    -- A change within the bitmap that frees no block below the data blocks.
    map_change :
        (d' : Disk)
        → ((a : ℕ) → a < 512 → d' a ≡ d a)
        → ((a : ℕ) → l.first * 256 ≤ a → d' a ≡ d a)
        → ((b : ℕ) → b < l.nblocks → is_free d' b ≡ true → l.data_blk ≤ b)
        → IsSound l oi tables d'
    unfolding os_nblocks os_firstinob
    map_change d' below above marks = record {
      nblocks = ground (arith, below 257, s.nblocks);
      firstinob = ground (arith, below 259, s.firstinob);
      boot = λ a h. ground (arith, below a, s.boot a h);
      marks = marks;
      direct = λ k h. ground (arith, above (oi_direct oi + k), s.direct k h, at.from);
      indirect = ground (arith, above (oi_indirect oi), s.indirect, at.from);
      indirect2 = ground (arith, above (oi_indirect2 oi), s.indirect2, at.from);
      under = λ k h. ground (
        arith,
        above (oi_indirect2 oi),
        at.from,
        same (d (oi_indirect2 oi)) k s.indirect2 h,
        s.under k h,
      );
      null = s.null;
      pointers = s.pointers;
      words = λ p k t h. ground (arith, same p k t h, s.words p k t h);
    }
      where
        same :
            (p k : ℕ) → tables p ≡ true → k < 256 → d' (ospfs_block p + k) ≡ d (ospfs_block p + k)
        same p k t h = ground (
          arith,
          IsPtr-word p k (s.pointers p t) h,
          below (ospfs_block p + k),
          above (ospfs_block p + k),
          l.ordered,
        )

    -- An allocation keeps the invariant, and the block lies in the data area.
    pub take_keeps :
        {b : ℕ} {d' : Disk}
        → Takes d 2 l.nblocks b d'
        → IsSound l oi tables d' × (l.data_blk ≤ b) × (d' (oi_size oi) ≡ d (oi_size oi))
    unfolding ospfs_block
    take_keeps {b} {d'} t = (
      map_change d' (λ a h. Takes_frame t a (omega arith))
          (λ a h. Takes_frame t a (omega (arith, l.map_fits, l.after_super, t.upper)))
          (λ j h f. ground (arith, is_free-Takes t j, s.marks j h)),
      s.marks b t.upper t.was_free,
      Takes_frame t oi (omega (arith, at.from, l.map_fits, l.after_super, t.upper)),
    )

    -- So does giving back what a pointer names.
    pub free_keeps :
        (b : ℕ)
        → IsPtr l b
        → IsSound l oi tables (free_block b d) × (free_block b d (oi_size oi) ≡ d (oi_size oi))
    unfolding ospfs_block
    free_keeps b h = (
      map_change (free_block b d) (λ a q. free_block_frame b a d (omega arith))
          (λ a q. free_block_frame b a d (omega (arith, l.map_fits, l.after_super)))
          (λ j q f.
            ground (arith, is_free-free_block b j d, s.marks j q, s.firstinob, l.after_super)),
      free_block_frame b oi d (omega (arith, at.from, l.map_fits, l.after_super)),
    )
