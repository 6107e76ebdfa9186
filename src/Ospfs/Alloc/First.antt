-- ===== src/Ospfs/Alloc/First.antt =====
-- `allocate_block` takes the first free block, and `free_block` gives a block back.
use native.Mathlib.Decide.{dec_lt}
use cs111fall.Prelude.{
  ℕ, zero, suc, ◌+◌, ◌-◌, ◌≤◌, ◌<◌, ◌≡◌, refl, ◌≢◌, ◌⊎◌, inl, inr, true, false, arith, ◌==◌,
  if◌then◌else◌, Bool-cases, leb, ◌&&◌, ◌/◌,
}
use cs111fall.Ospfs.Disk.{Disk, freemap_blk, ospfs_block, os_nblocks, os_firstinob}
use cs111fall.Ospfs.Bitvector.{bitvector_clear, test-clear, test-set, clear_frame, set_frame}
use cs111fall.Ospfs.Alloc.{is_free, allocate_from, allocate_block, free_block}

abbrev pub NoneFree : Disk → ℕ → ℕ → Type 0
NoneFree d lo hi = (j : ℕ) → lo ≤ j → j < hi → is_free d j ≡ false

-- The block `b` is the first free one from `lo` on, and `d'` is `d` with its bit cleared.
pub record Takes (d : Disk) (lo hi b : ℕ) (d' : Disk) : Type 0 where
  pub lower : lo ≤ b
  pub upper : b < hi
  pub was_free : is_free d b ≡ true
  pub first : NoneFree d lo b
  pub disk : d' ≡ bitvector_clear (ospfs_block freemap_blk) b d

abbrev pub FirstFree : Disk → ℕ → ℕ → ℕ × Disk → Type 0
FirstFree d lo hi (b, d') = ((b ≡ 0) × (d' ≡ d) × NoneFree d lo hi) ⊎ Takes d lo hi b d'

FirstFree-next :
    (d : Disk) (lo hi : ℕ) (r : ℕ × Disk)
    → is_free d lo ≡ false
    → FirstFree d (lo + 1) hi r
    → FirstFree d lo hi r
FirstFree-next d lo hi r busy (inl (z, same, none)) = inl (z, same, λ j p q. ground (arith, none j))
FirstFree-next d lo hi r busy (inr t) = inr (record {
  lower = omega (arith, t.lower);
  upper = t.upper;
  was_free = t.was_free;
  first = λ j p q. ground (arith, t.first j);
  disk = t.disk;
})

allocate_from-FirstFree :
    (rounds i hi : ℕ) (d : Disk)
    → hi ≤ i + rounds
    → i + rounds ≤ hi
    → FirstFree d i hi (allocate_from rounds i d)
unfolding allocate_from
allocate_from-FirstFree zero i hi d h k = inl (refl, refl, λ j p q. absurd (omega arith))
allocate_from-FirstFree (suc n) i hi d h k = elim (Bool-cases (is_free d i)) [
  | inl free ↦ rw free (
      inr (record {
        lower = omega arith;
        upper = omega arith;
        was_free = free;
        first = λ j p q. absurd (omega arith);
        disk = refl;
      }))
  | inr busy ↦ rw busy (
      FirstFree-next d i hi _ busy
        (allocate_from-FirstFree n (i + 1) hi d (omega arith) (omega arith)))
]

-- Either no block from 2 to `os_nblocks - 1` is free, the result is 0 and the disk is unchanged; or
-- the result is the first free block in that range, and only its bit of the bitmap is cleared.
pub allocate_block-FirstFree : (d : Disk) → FirstFree d 2 (os_nblocks d) (allocate_block d)
unfolding allocate_block
allocate_block-FirstFree d = elim (dec_lt (os_nblocks d) 2) [
  | yes small ↦
      let e : os_nblocks d - 2 ≡ 0 = omega arith in
      rw e (inl (refl, refl, λ j p q. absurd (omega arith)))
  | no large ↦
      allocate_from-FirstFree (os_nblocks d - 2) 2 (os_nblocks d) d (omega arith) (omega arith)
]

module _ {d d' : Disk} {lo hi b : ℕ} (t : Takes d lo hi b d') where
  -- After an allocation exactly the block that was taken has changed its mark.
  pub is_free-Takes : (j : ℕ) → is_free d' j ≡ (if b == j then false else is_free d j)
  unfolding is_free
  is_free-Takes j = rw t.disk (test-clear (ospfs_block freemap_blk) b j d)

  pub Takes_frame : (a : ℕ) → ospfs_block freemap_blk + b / 32 ≢ a → d' a ≡ d a
  Takes_frame a h = rw t.disk (clear_frame (ospfs_block freemap_blk) b a d h)

  pub Takes-nblocks : os_nblocks d' ≡ os_nblocks d
  unfolding os_nblocks ospfs_block
  Takes-nblocks = Takes_frame 257 (omega arith)

  pub Takes-firstinob : os_firstinob d' ≡ os_firstinob d
  unfolding os_firstinob ospfs_block
  Takes-firstinob = Takes_frame 259 (omega arith)

-- A block from `os_firstinob` on becomes free, the marks of the others stay; a block below is kept.
pub is_free-free_block :
    (b j : ℕ) (d : Disk)
    → is_free (free_block b d) j
      ≡ (if leb (os_firstinob d) b && (b == j) then true else is_free d j)
unfolding is_free free_block
is_free-free_block b j d = ground (arith, test-set (ospfs_block freemap_blk) b j d)

pub free_block_frame :
    (b a : ℕ) (d : Disk) → ospfs_block freemap_blk + b / 32 ≢ a → free_block b d a ≡ d a
unfolding free_block
free_block_frame b a d h = ground (arith, set_frame (ospfs_block freemap_blk) b a d h)

-- Freeing the block that an allocation returned, if it lies from `os_firstinob` on, restores every
-- mark of the bitmap.
pub free_block-allocate_block :
    (d : Disk) (j : ℕ)
    → (allocate_block d).0 ≢ 0
    → os_firstinob d ≤ (allocate_block d).0
    → is_free (free_block (allocate_block d).0 (allocate_block d).1) j ≡ is_free d j
free_block-allocate_block d j ne above = elim (allocate_block-FirstFree d) [
  | inl (z, same, none) ↦ absurd (ne z)
  | inr t ↦ ground (
    arith,
    is_free-free_block (allocate_block d).0 j (allocate_block d).1,
    is_free-Takes t j,
    Takes-firstinob t,
    t.was_free,
  )
]
