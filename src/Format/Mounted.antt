-- ===== src/Format/Mounted.antt =====
-- An image that lab3/ospfsformat.c has made, in the hands of lab3/ospfsmod.c: its allocator.
use cs111fall.Prelude.{
  ℕ, ◌+◌, ◌<◌, ◌≤◌, ◌≡◌, ap, sym, ◌∙◌, true, inl, inr, Option, none, some, [], arith,
}
use cs111fall.Ospfs.Disk.{Disk, os_nblocks}
use cs111fall.Ospfs.Alloc.{allocate_block}
use cs111fall.Ospfs.Alloc.First.{FirstFree, allocate_block-FirstFree}
use cs111fall.Ospfs.Dir.Entry.{Name}
use cs111fall.Format.Cache.{Fs}
use cs111fall.Format.Image.{pieces}
use cs111fall.Format.Image.Open.{IsUnused}
use cs111fall.Format.Program.{are_sizes, main, tree, no_more, Options}
use cs111fall.Format.Sound.{disk_of}
use cs111fall.Format.Empty.{IsNew, main-Sized}

-- The state that a run ends in.
abbrev ended_in : Fs → Option (Unit {0} × Fs) → Fs
ended_in s none = s
ended_in s (some (u, s')) = s'

module _ (nblocks ninodes : ℕ) (sizes : are_sizes nblocks ninodes ≡ true) (s : Fs) (o : Options)
    (h : IsUnused s) (path : Name) (s' : Fs)
    (run : main (some nblocks) (some ninodes) (tree path no_more) (record o { links = [] }) s
      ≡ some (tt, s')) where
  new : IsNew nblocks ninodes sizes s'
  new =
      let made = main-Sized nblocks ninodes sizes s o h path in
      let same : made.0 ≡ s' = ap (ended_in s) (sym made.1 ∙ run) in rw (← same) made.2

  abbrev first_data : ℕ
  first_data = 3 + pieces ninodes 16

  blocks : os_nblocks (disk_of s'.image) ≡ nblocks
  blocks = new.0.sound.nblocks

  -- There is room after the inodes.
  bounds : (3 + pieces ninodes 16 < nblocks) × (nblocks ≤ 8192)
  bounds = ground (arith, sizes)

  -- On the image that `main` has made of an empty directory, from its first state and with a host that reads and
  -- writes the image, the first block that `allocate_block` of the file system gives out is the one after the
  -- inode blocks.
  pub main-allocate_block : (allocate_block (disk_of s'.image)).0 ≡ 3 + pieces ninodes 16
  main-allocate_block =
      by_case (allocate_block (disk_of s'.image)) (allocate_block-FirstFree (disk_of s'.image))
    where
      by_case :
          (r : ℕ × Disk)
          → FirstFree (disk_of s'.image) 2 (os_nblocks (disk_of s'.image)) r
          → r.0 ≡ 3 + pieces ninodes 16
      by_case (b, d') (inl (z, same, nothing)) =
          let free = new.1 first_data (omega (arith, bounds)) in
          let busy = nothing first_data (omega arith) (omega (arith, blocks, bounds)) in
          ground arith
      by_case (b, d') (inr t) =
          let upper = t.upper in
          let marked = new.1 b (omega (arith, blocks, bounds, upper)) in
          let was_free = t.was_free in
          let free = new.1 first_data (omega (arith, bounds)) in
          let busy = t.first first_data (omega arith) in ground arith
