-- ===== src/Format/Empty.antt =====
-- The image of an empty directory that lab3/ospfsformat.c makes, as lab3/ospfsmod.c finds it.
use cs111fall.Prelude.{
  ℕ, ◌+◌, ◌/◌, ◌%◌, ◌<◌, ◌≤◌, ◌≡◌, ◌≢◌, refl, ap, sym, ◌∙◌, true, ◌&&◌, inr, some, [], arith, ltb,
  leb,
}
use cs111fall.Ospfs.Bitvector.{bitvector_test}
use cs111fall.Ospfs.Disk.{
  Disk, os_nblocks, os_ninodes, os_firstinob, oi_size, oi_ftype, oi_nlink, oi_mode, oi_direct,
}
use cs111fall.Ospfs.Alloc.{is_free}
use cs111fall.Ospfs.Dir.Entry.{Name}
use cs111fall.Ospfs.Resize.Sized.{Sized}
use cs111fall.Format.Blocks.{Words}
use cs111fall.Format.Cache.{Fs, ◌>>◌, >>=-some}
use cs111fall.Format.Cache.View.{view}
use cs111fall.Format.Cache.Write.{Wrote, IsIdle}
use cs111fall.Format.Cache.Flush.{flushdisk, flushdisk-view}
use cs111fall.Format.Image.{pieces, super_of, put_super, opendisk, finishfs}
use cs111fall.Format.Image.Bitmap.{marked}
use cs111fall.Format.Image.Finish.{Finished, IsSuper, finishfs-Finished}
use cs111fall.Format.Image.Open.{IsUnused, Opened, opendisk-Opened}
use cs111fall.Format.Program.{are_sizes, reserve_inode, format, main, tree, no_more, Options}
use cs111fall.Format.Sound.{disk_of, sizes-bounds, new_layout, is_free-image, new-Sized}
use cs111fall.Format.Root.{
  next_inode, reserved, rooted, reserve_inode-Wrote, root_part, root_part-Wrote,
}

-- The sizes that `main` accepts.
module _ (nblocks ninodes : ℕ) (sizes : are_sizes nblocks ninodes ≡ true) where
  bounds :
      (2 ≤ ninodes)
      × (nblocks ≤ 8192)
      × (5 ≤ nblocks)
      × (pieces nblocks 8192 ≡ 1)
      × (3 + pieces ninodes 16 ≤ nblocks)
      × (1 ≤ pieces ninodes 16)
  bounds = sizes-bounds nblocks ninodes sizes

  super_of-IsSuper : IsSuper (super_of nblocks ninodes 1)
  super_of-IsSuper = omega (arith, bounds)

  -- The four words of the superblock, and the root's inode: the type of a directory, one link, mode 0777 and no
  -- block.
  abbrev pub IsLabelled : Disk → Type 0
  IsLabelled d =
      (d 256 ≡ 0x013101AE)
      × (os_nblocks d ≡ nblocks)
      × (os_ninodes d ≡ ninodes)
      × (os_firstinob d ≡ 3)
      × (d (oi_size 784) ≡ 0)
      × (d (oi_ftype 784) ≡ 1)
      × (d (oi_nlink 784) ≡ 1)
      × (d (oi_mode 784) ≡ 511)
      × ((k : ℕ) → k < 12 → d (oi_direct 784 + k) ≡ 0)

  -- A new image: its superblock, its root directory, which is empty, the pointers, and the blocks that are
  -- marked as free.
  abbrev pub IsNew : Fs → Type 0
  IsNew s =
      Sized (new_layout nblocks ninodes sizes) 784 0 (disk_of s.image)
      × ((b : ℕ)
          → b < 8192
          → is_free (disk_of s.image) b ≡ (leb (3 + pieces ninodes 16) b && ltb b nblocks))
      × IsLabelled (disk_of s.image)

  -- The steps of `format` for an empty directory; the states are those after each step.
  module _ (s0 s1 : Fs) (o : Opened s0 s1) (n0 : s0.nblocks ≡ nblocks)
      (i0 : s0.ninodes ≡ ninodes) where
    blocks1 : s1.nblocks ≡ nblocks
    blocks1 = o.nblocks_is ∙ n0

    inodes1 : s1.ninodes ≡ ninodes
    inodes1 = o.ninodes_is ∙ i0

    bits1 : s1.nbitblock ≡ 1
    bits1 = o.nbitblock_is ∙ ap (λ (n : ℕ). pieces n 8192) n0 ∙ bounds.3

    super1 : s1.super ≡ super_of nblocks ninodes 1
    super1 = o.super_is ∙ rw (n0, i0, bits1) refl

    nextb1 : s1.nextb ≡ 3 + pieces ninodes 16
    nextb1 = o.nextb_is ∙ rw (bits1, i0) refl

    module _ (s2 : Fs) (w2 : Wrote (next_inode s1 1) 3 (reserved (view s1 3)) s2) where
      idle2 : IsIdle s2
      idle2 = record { cache_is = w2.cache_is; idle = λ j. w2.busy_is j ∙ o.idle.idle j }

      blocks2 : s2.nblocks ≡ nblocks
      blocks2 = ap (λ (x : Fs). x.nblocks) w2.same ∙ blocks1

      inodes2 : s2.ninodes ≡ ninodes
      inodes2 = ap (λ (x : Fs). x.ninodes) w2.same ∙ inodes1

      super2 : s2.super ≡ super_of nblocks ninodes 1
      super2 = ap (λ (x : Fs). x.super) w2.same ∙ super1

      next2 : s2.nextinode ≡ 1
      next2 = ap (λ (x : Fs). x.nextinode) w2.same

      module _ (s3 : Fs) (w3 : Wrote (next_inode s2 2) 3 (rooted (view s2 3)) s3) where
        idle3 : IsIdle s3
        idle3 = record { cache_is = w3.cache_is; idle = λ j. w3.busy_is j ∙ idle2.idle j }

        kept {ℓ} :
            {A : Type ℓ} (field : Fs → A)
            → field s3
              ≡ field (record (next_inode s2 2) { image = s3.image; cache = s3.cache; t = s3.t })
        kept field = ap field w3.same

        nblocks3 : s3.nblocks ≡ nblocks
        nblocks3 = kept (λ x. x.nblocks) ∙ blocks2

        nbitblock3 : s3.nbitblock ≡ 1
        nbitblock3 = kept (λ x. x.nbitblock) ∙ ap (λ (x : Fs). x.nbitblock) w2.same ∙ bits1

        nextb3 : s3.nextb ≡ 3 + pieces ninodes 16
        nextb3 = kept (λ x. x.nextb) ∙ ap (λ (x : Fs). x.nextb) w2.same ∙ nextb1

        super3 : s3.super ≡ super_of nblocks ninodes 1
        super3 = kept (λ x. x.super) ∙ super2

        root3 : view s3 3 ≡ rooted (reserved (λ w. 0))
        root3 =
            w3.view_is
            ∙ ap rooted
                (w2.view_is ∙ ap reserved (o.zeros 3 (omega arith) (inr (omega (arith, bits1)))))

        marks3 : (b : ℕ) → b < 8192 → marked s3 b ≡ true
        unfolding view
        marks3 b l =
            ap (bitvector_test 0 (b % 8192)) (
              w3.view_other (2 + b / 8192) (omega arith) (omega arith)
              ∙ w2.view_other (2 + b / 8192) (omega arith) (omega arith))
            ∙ o.marks b (omega (arith, bits1))

        module _ (s4 : Fs) (f : Finished s3 s4) (image : ℕ → Words)
            (flushed : (b : ℕ) → b ≢ 0 → image b ≡ view s4 b) (boot4 : image 0 ≡ s4.image 0) where
          image_boot : image 0 ≡ (λ w. 0)
          image_boot = boot4 ∙ f.boot ∙ w3.boot ∙ w2.boot ∙ o.boot

          image_super : image 1 ≡ put_super (super_of nblocks ninodes 1) (λ w. 0)
          image_super = flushed 1 (omega arith) ∙ f.super_is ∙ rw super3 refl

          image_root : image 3 ≡ rooted (reserved (λ w. 0))
          image_root = flushed 3 (omega arith) ∙ f.outside 3 (omega (arith, nbitblock3)) ∙ root3

          image_marks :
              (b : ℕ)
              → b < 8192
              → bitvector_test 0 b (image 2) ≡ (leb (3 + pieces ninodes 16) b && ltb b nblocks)
          image_marks b l =
              let low : b % 8192 ≡ b = omega arith in
              let block : b / 8192 ≡ 0 = omega arith in
              let m = f.marks b (omega (arith, nbitblock3)) in
              let all = marks3 b l in
              ap (bitvector_test 0 b) (flushed 2 (omega arith))
              ∙ rw (low, block) at m
              ∙ rw (rw (low, block) at all) (rw (nextb3, nblocks3) (ground arith))

          image-Sized : Sized (new_layout nblocks ninodes sizes) 784 0 (disk_of image)
          image-Sized =
              new-Sized nblocks ninodes sizes image image_boot image_super image_root image_marks

          image-is_free :
              (b : ℕ)
              → b < 8192
              → is_free (disk_of image) b ≡ (leb (3 + pieces ninodes 16) b && ltb b nblocks)
          image-is_free =
              is_free-image nblocks ninodes sizes image image_boot image_super image_root
                image_marks

          image-IsLabelled : IsLabelled (disk_of image)
          unfolding os_nblocks os_ninodes os_firstinob
          image-IsLabelled =
              rw (image_super, image_root)
                (refl, refl, refl, refl, refl, refl, refl, refl, λ k h. ground (arith, image_root))

        finish_steps : (s' : Fs) × ((do finishfs; flushdisk) s3 ≡ some (tt, s')) × IsNew s'
        finish_steps =
            let (s4, run, f) =
              finishfs-Finished s3 (omega (arith, nblocks3, nbitblock3, bounds))
                (nbitblock3 ∙ sym bounds.3 ∙ ap (λ (n : ℕ). pieces n 8192) (sym nblocks3))
                (rw super3 super_of-IsSuper) idle3 (omega (arith, nblocks3, nextb3, bounds)) in
            let (image, rest, flushed, boot) = flushdisk-view s4 f.idle.cache_is in
            (
              record s4 { image = image },
              >>=-some finishfs (λ _. flushdisk) s3 run ∙ rest,
              (
                image-Sized s4 f image flushed boot,
                image-is_free s4 f image flushed boot,
                image-IsLabelled s4 f image flushed boot,
              ),
            )

      root_steps :
          (path : Name)
          → (s' : Fs) × (root_part path (do finishfs; flushdisk) s2 ≡ some (tt, s')) × IsNew s'
      root_steps path =
          let (s3, run, w3) =
            root_part-Wrote s2 idle2 (omega (arith, inodes2, bounds))
              (ap (λ x. x.os_firstinob) super2) (omega (arith, blocks2, bounds)) path next2 in
          let (s', rest, new) = finish_steps s3 w3 in (s', run (do finishfs; flushdisk) ∙ rest, new)

    reserve_steps :
        (path : Name)
        → (s' : Fs) × ((do reserve_inode; root_part path (do finishfs; flushdisk)) s1
            ≡ some (tt, s'))
          × IsNew s'
    reserve_steps path =
        let (s2, run, w2) =
          reserve_inode-Wrote s1 o.idle (omega (arith, inodes1, bounds))
            (ap (λ x. x.os_firstinob) super1) (omega (arith, blocks1, bounds)) o.nextinode_is in
        let (s', rest, new) = root_steps s2 w2 path in
        (
          s',
          >>=-some reserve_inode (λ _. root_part path (do finishfs; flushdisk)) s1 run ∙ rest,
          new,
        )

  -- The program's variables when `format` is called.
  module _ (s : Fs) (o : Options) (h : IsUnused s) where
    abbrev begun : Fs
    begun = record s { nblocks = nblocks; ninodes = ninodes; link_contents = o.contents }

    begun-IsUnused : IsUnused begun
    begun-IsUnused = record {
      no_block = h.no_block;
      not_used = h.not_used;
      not_busy = h.not_busy;
      zeros = h.zeros;
      reads = h.reads;
      writes = h.writes;
    }

    -- With a number of blocks and inodes that `main` accepts and an empty directory, from the program's first
    -- state and with a host that reads and writes the image: the program succeeds. The image has in its
    -- superblock the magic number, the two numbers and first inode block 3; its root directory, inode 1, has the
    -- type of a directory, one link, mode 0777, size 0 and no block; of the first 8192 blocks those are marked
    -- as free that lie on the disk after the inodes; and it is in order for `change_size` of the root.
    pub main-Sized :
        (path : Name)
        → (s' : Fs) × (main
              (some nblocks)
              (some ninodes)
              (tree path no_more)
              (record o { links = [] })
              s
            ≡ some (tt, s'))
          × IsNew s'
    unfolding main format root_part
    main-Sized path =
        let (s1, run, opened) = opendisk-Opened begun begun-IsUnused (omega (arith, bounds)) in
        let (s', rest, new) = reserve_steps begun s1 opened refl refl path in
        (
          s',
          rw sizes (
              >>=-some opendisk (λ _. do reserve_inode; root_part path (do finishfs; flushdisk))
                begun run
              ∙ rest),
          new,
        )
