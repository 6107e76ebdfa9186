-- ===== src/Ospfs/Resize/Sized.antt =====
-- A sound disk together with the size of the file, and a block that was allocated and erased.
use cs111fall.Prelude.{ℕ, ◌+◌, ◌<◌, ◌≡◌, ◌≢◌, inr, Bool, true, arith, ◌∙◌}
use cs111fall.Ospfs.Disk.{Disk, ospfs_block, zero_out_block, oi_size}
use cs111fall.Ospfs.Alloc.{allocate_block}
use cs111fall.Ospfs.Alloc.First.{Takes, FirstFree, allocate_block-FirstFree}
use cs111fall.Ospfs.Resize.Sound.{Layout, IsInode, IsPtr, IsSound, take_keeps}
use cs111fall.Ospfs.Resize.Sound.Write.{also, zero_keeps, zero_erased}

-- The disk is sound and the file's size field is `size`.
pub record Sized (l : Layout) (oi size : ℕ) (d : Disk) : Type 0 where
  pub tables : ℕ → Bool
  pub sound : IsSound l oi tables d
  pub size_is : d (oi_size oi) ≡ size

-- A block that was allocated and erased is a table of null pointers.
pub record Erased (l : Layout) (oi size : ℕ) (tables : ℕ → Bool) (b : ℕ) (d : Disk) : Type 0 where
  pub sound : IsSound l oi (also b tables) d
  pub size_is : d (oi_size oi) ≡ size
  pub erased : (k : ℕ) → k < 256 → d (ospfs_block b + k) ≡ 0
  pub ne_null : b ≢ 0
  pub is_table : also b tables b ≡ true
  pub pointer : IsPtr l b

module _ {l : Layout} {oi : ℕ} (at : IsInode l oi) {tables : ℕ → Bool} where
  pub take : {d : Disk} → IsSound l oi tables d → FirstFree d 2 l.nblocks (allocate_block d)
  take {d} s = rw s.nblocks at (allocate_block-FirstFree d)

  pub erase :
      {size b : ℕ} {d d' : Disk}
      → IsSound l oi tables d
      → d (oi_size oi) ≡ size
      → Takes d 2 l.nblocks b d'
      → Erased l oi size tables b (zero_out_block b d')
  erase {b} s e t =
      let (s', lower, same) = take_keeps at s t in
      let kept = zero_keeps at s' b lower t.upper in
      record {
        sound = kept.0;
        size_is = kept.1 ∙ same ∙ e;
        erased = zero_erased at s' b lower t.upper;
        ne_null = omega (arith, t.lower);
        is_table = ground arith;
        pointer = inr (lower, t.upper);
      }
