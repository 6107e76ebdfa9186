-- ===== src/Ospfs/Resize/Change.antt =====
-- `change_size` ends with the requested size, or with the old one when the disk is full.
use cs111fall.Prelude.{
  ℕ, zero, suc, ◌+◌, ◌*◌, ◌/◌, ◌≤◌, ◌<◌, ◌≡◌, refl, ◌⊎◌, inl, inr, Option, none, some, arith, ltb,
  update, Bool-cases, ltb→lt,
}
use cs111fall.Ospfs.Disk.{Disk, blksize, add32, sub32, ospfs_size2nblocks, oi_size}
use cs111fall.Ospfs.Resize.{
  Status, success, enospc, eio, Loop, ended, returned, out_of_fuel, add_block, remove_block,
  shrink_back, after_add, grow_loop, after_remove, shrink_loop, then_shrink, set_size, change_size,
}
use cs111fall.Ospfs.Resize.Sized.{Sized}
use cs111fall.Ospfs.Resize.Sound.{Layout, IsInode}
use cs111fall.Ospfs.Resize.Sound.Write.{size_keeps}
use cs111fall.Ospfs.Resize.Add.{add_block-Added}
use cs111fall.Ospfs.Resize.Remove.{remove_block-Removed}

-- One block less than the largest file: the sizes for which every pointer of the file has a slot.
abbrev pub size_limit : ℕ
size_limit = 65801 * 1024

-- Taking blocks off a size below the limit may wrap around once there is none left.
abbrev IsSmall : ℕ → Type 0
IsSmall size = (size ≤ size_limit) ⊎ (ospfs_size2nblocks size ≡ 0)

blocks_lem : (size : ℕ) → size ≤ size_limit + 1024 → ospfs_size2nblocks size ≡ (size + 1023) / 1024
unfolding ospfs_size2nblocks
blocks_lem size h = omega arith

blocks_add :
    (size new : ℕ)
    → size ≤ size_limit
    → new ≤ size_limit
    → ospfs_size2nblocks size < ospfs_size2nblocks new
    → (add32 size blksize ≤ size_limit)
      × (ospfs_size2nblocks (add32 size blksize) ≡ ospfs_size2nblocks size + 1)
      × (ospfs_size2nblocks size < 65802)
unfolding ospfs_size2nblocks
blocks_add size new h k lt = omega arith

blocks_sub :
    (size : ℕ)
    → IsSmall size
    → 0 < ospfs_size2nblocks size
    → IsSmall (sub32 size blksize)
      × (ospfs_size2nblocks (sub32 size blksize) + 1 ≡ ospfs_size2nblocks size)
      × (ospfs_size2nblocks size < 65802)
unfolding ospfs_size2nblocks
blocks_sub size h k = ground arith

-- A sound disk with some small size, of at least `n` blocks.
abbrev Reduced : Layout → ℕ → Disk → Type 0
Reduced l oi d = (size : ℕ) × Sized l oi size d

abbrev ShrunkBack : Layout → ℕ → Option Disk → Type 0
ShrunkBack l oi none = ⊥
ShrunkBack l oi (some d) = Reduced l oi d

-- How the growing loop ends: with a small size of at least the blocks that are wanted, or with
-- -ENOSPC and the old size.
abbrev Grown : Layout → (oi old_size new_size : ℕ) → Loop → Type 0
Grown l oi old_size new_size (ended d) =
    (size : ℕ) × Sized l oi size d
    × IsSmall size
    × (ospfs_size2nblocks new_size ≤ ospfs_size2nblocks size)
    × (ospfs_size2nblocks size ≤ 65801)
Grown l oi old_size new_size (returned r d) =
    (r ≡ enospc)
    × Sized l oi old_size d
    × (ospfs_size2nblocks old_size < ospfs_size2nblocks new_size)
Grown l oi old_size new_size out_of_fuel = ⊥

-- How the shrinking loop ends: by its test.
abbrev Shrunk : Layout → (oi : ℕ) → Loop → Type 0
Shrunk l oi (ended d) = Reduced l oi d
Shrunk l oi (returned r d) = ⊥
Shrunk l oi out_of_fuel = ⊥

module _ {l : Layout} {oi : ℕ} (at : IsInode l oi) where
  shrink_back-Reduced :
      (fuel old_size : ℕ) {size : ℕ} (d : Disk)
      → Sized l oi size d
      → IsSmall size
      → ospfs_size2nblocks size < fuel
      → ShrunkBack l oi (shrink_back fuel oi old_size d)
  unfolding shrink_back
  shrink_back-Reduced zero old_size d s small f = absurd (omega arith)
  shrink_back-Reduced (suc fuel) old_size {size} d s small f =
      rw s.size_is
        (elim (Bool-cases (ltb (ospfs_size2nblocks old_size) (ospfs_size2nblocks size))) [
          | inl more ↦
              let (small', fewer, fits) = blocks_sub size small (ground arith) in
              let (r, s') = remove_block-Removed at s.sound s.size_is (ground arith) fits in
              rw more
                (shrink_back-Reduced fuel old_size (remove_block oi d).1 s' small' (omega arith))
          | inr done ↦ rw done (size, s)
        ])

  after_add-Grown :
      (back : ℕ) {size : ℕ} (old_size new_size : ℕ) (r : Status × Disk) (next : Disk → Loop)
      → ((r.0 ≡ success) × Sized l oi (add32 size blksize) r.1)
        ⊎ ((r.0 ≡ enospc) × Sized l oi size r.1)
      → IsSmall size
      → ospfs_size2nblocks size < back
      → ospfs_size2nblocks old_size < ospfs_size2nblocks new_size
      → (Sized l oi (add32 size blksize) r.1 → Grown l oi old_size new_size (next r.1))
      → Grown l oi old_size new_size (after_add back oi old_size r next)
  unfolding after_add
  after_add-Grown back old_size new_size (success, d) next (inl (e, s)) small f lt k = k s
  after_add-Grown back old_size new_size (success, d) next (inr (e, s)) small f lt k = cc
  after_add-Grown back old_size new_size (eio, d) next (inl (e, s)) small f lt k = cc
  after_add-Grown back old_size new_size (eio, d) next (inr (e, s)) small f lt k = cc
  after_add-Grown back old_size new_size (enospc, d) next (inl (e, s)) small f lt k = cc
  after_add-Grown back old_size new_size (enospc, d) next (inr (e, s)) small f lt k =
      go (shrink_back back oi old_size d) (shrink_back-Reduced back old_size d s small f)
    where
      go :
          (o : Option Disk)
          → ShrunkBack l oi o
          → Grown l oi old_size new_size (elim o [
            | none ↦ out_of_fuel
            | some d ↦ returned enospc (update d (oi_size oi) old_size)
          ])
      go none h = absurd h
      go (some d') (z, s') = (
        refl,
        record {
          tables = s'.tables;
          sound = size_keeps at s'.sound old_size;
          size_is = ground arith;
        },
        lt,
      )

  grow_loop-Grown :
      (fuel back old_size new_size size : ℕ) (d : Disk)
      → Sized l oi size d
      → size ≤ size_limit
      → new_size ≤ size_limit
      → 65801 < back
      → 65801 < fuel + ospfs_size2nblocks size
      → ospfs_size2nblocks old_size ≤ ospfs_size2nblocks size
      → Grown l oi old_size new_size (grow_loop fuel back oi old_size new_size d)
  unfolding grow_loop
  grow_loop-Grown zero back old_size new_size size d s h k b f o =
      absurd (omega (arith, blocks_lem size))
  grow_loop-Grown (suc fuel) back old_size new_size size d s h k b f o =
      rw s.size_is
        (elim (Bool-cases (ltb (ospfs_size2nblocks size) (ospfs_size2nblocks new_size))) [
          | inl more ↦
              let (fits, one, few) = blocks_add size new_size h k (ltb→lt _ _ more) in
              rw more (
                after_add-Grown back old_size new_size (add_block oi d)
                  (grow_loop fuel back oi old_size new_size)
                  (add_block-Added at s.sound s.size_is few) (inl h) (omega arith)
                  (omega (arith, ltb→lt _ _ more))
                  (λ s'.
                    grow_loop-Grown fuel back old_size new_size (add32 size blksize)
                      (add_block oi d).1 s' fits k b (omega arith) (omega arith)))
          | inr done ↦ rw done (size, s, inl h, ground arith, omega (arith, blocks_lem size))
        ])

  shrink_loop-Shrunk :
      (fuel new_size size : ℕ) (d : Disk)
      → Sized l oi size d
      → IsSmall size
      → ospfs_size2nblocks size < fuel
      → Shrunk l oi (shrink_loop fuel oi new_size d)
  unfolding shrink_loop after_remove
  shrink_loop-Shrunk zero new_size size d s small f = absurd (omega arith)
  shrink_loop-Shrunk (suc fuel) new_size size d s small f =
      rw s.size_is
        (elim (Bool-cases (ltb (ospfs_size2nblocks new_size) (ospfs_size2nblocks size))) [
          | inl more ↦
              let (small', fewer, fits) = blocks_sub size small (ground arith) in
              let (r, s') = remove_block-Removed at s.sound s.size_is (ground arith) fits in
              rw (more, r)
                (shrink_loop-Shrunk fuel new_size (sub32 size blksize) (remove_block oi d).1 s'
                  small' (omega arith))
          | inr done ↦ rw done (size, s)
        ])

-- What `change_size` returns: success with the new size, or -ENOSPC with the old one, and the
-- latter only if the file was to get more blocks.
abbrev pub Changed : Layout → (oi old_size new_size : ℕ) → Option (Status × Disk) → Type 0
Changed l oi old_size new_size none = ⊥
Changed l oi old_size new_size (some (r, d)) =
    ((r ≡ success) × Sized l oi new_size d)
    ⊎ ((r ≡ enospc)
        × Sized l oi old_size d
        × (ospfs_size2nblocks old_size < ospfs_size2nblocks new_size))

module _ {l : Layout} {oi : ℕ} (at : IsInode l oi) where
  set_size-Changed :
      (old_size new_size : ℕ) (loop : Loop)
      → Shrunk l oi loop
      → Changed l oi old_size new_size (set_size oi new_size loop)
  unfolding set_size
  set_size-Changed old_size new_size (ended d) (z, s) = inl (
    refl,
    record { tables = s.tables; sound = size_keeps at s.sound new_size; size_is = ground arith },
  )
  set_size-Changed old_size new_size (returned r d) h = absurd h
  set_size-Changed old_size new_size out_of_fuel h = absurd h

  finish :
      (fuel old_size new_size : ℕ) (loop : Loop)
      → 65801 < fuel
      → Grown l oi old_size new_size loop
      → Changed l oi old_size new_size (set_size oi new_size (then_shrink fuel oi new_size loop))
  unfolding then_shrink
  finish fuel old_size new_size (ended d) f (size, s, small, enough, few) =
      set_size-Changed old_size new_size (shrink_loop fuel oi new_size d)
        (shrink_loop-Shrunk at fuel new_size size d s small (omega arith))
  finish fuel old_size new_size (returned r d) f (e, s, more) = unfold set_size in inr (e, s, more)
  finish fuel old_size new_size out_of_fuel f h = absurd h

  -- On a disk whose superblock and boot block are in order, where all block pointers of the inode and of its
  -- tables are null or name data blocks and only data blocks are marked as free, with the old and the new size
  -- at most 65801 blocks and more fuel than that: `change_size` ends. It returns 0 with the requested size in
  -- the inode, or -ENOSPC with the old size, the latter only if the new size has more blocks; and the disk is
  -- such a disk again.
  pub change_size-Changed :
      (fuel new_size old_size : ℕ) {d : Disk}
      → Sized l oi old_size d
      → old_size ≤ size_limit
      → new_size ≤ size_limit
      → 65801 < fuel
      → Changed l oi old_size new_size (change_size fuel oi new_size d)
  unfolding change_size
  change_size-Changed fuel new_size old_size {d} s h k f = rw s.size_is (
      finish fuel old_size new_size (grow_loop fuel fuel oi old_size new_size d) f (
        grow_loop-Grown at fuel fuel old_size new_size old_size d s h k f (omega arith)
          (omega arith)))
