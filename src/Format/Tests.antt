-- ===== src/Format/Tests.antt =====
-- Images that lab3/ospfsformat.c makes.
use cs111fall.Ospfs.Alloc.{allocate_block}
use cs111fall.Format.Mounted.{main-allocate_block}
use cs111fall.Format.Sound.{disk_of}
use cs111fall.Prelude.{
  ℕ, ◌+◌, ◌*◌, ◌/◌, ◌%◌, ◌≡◌, ◌≢◌, refl, true, false, Option, none, some, [], ◌∷◌, arith, update,
}
use cs111fall.Ospfs.Disk.{Disk, ospfs_block}
use cs111fall.Ospfs.Index.{ospfs_inode_blockno, ospfs_inode_data}
use cs111fall.Format.Blocks.{Words, block_super}
use cs111fall.Format.Cache.{abort, pure, Fs, Block}
use cs111fall.Format.Files.{HostFile, got}
use cs111fall.Ospfs.Dir.Entry.{find_direntry, first_entry, is_named, od_ino, strlen_is, memcmp_is}
use cs111fall.Ospfs.Alloc.{is_free}
use cs111fall.Format.Sound.{disk_of}
use cs111fall.Ospfs.Bitvector.{bitvector_test}
use cs111fall.Ospfs.Store.{store}
use cs111fall.Format.Blocks.{block_bits, swizzleblock, swizzle}
use cs111fall.Format.Cache.{getblk, with_block}
use cs111fall.Format.Cache.View.{view, IsCache}
use cs111fall.Format.Cache.Get.{Got, getblk-Got}
use cs111fall.Format.Cache.Write.{IsIdle}
use cs111fall.Format.Cache.Flush.{flushdisk, flushdisk-view}
use cs111fall.Format.Image.{super_of, finishfs, clear_bits}
use cs111fall.Format.Image.Finish.{Finished, finishfs-Finished}
use cs111fall.Format.Image.Open.{IsUnused}
use cs111fall.Format.Inodes.{Ptr}
use cs111fall.Format.Files.{copy_from, writefile}
use cs111fall.Format.Fuel.{copy_from-fuel}
use cs111fall.Format.Empty.{IsNew, main-Sized}
use cs111fall.Format.Program.{file, no_more, entry, tree, main}

abbrev root_inode : Ptr
root_inode = record { slot = 0; off = 16 }

abbrev pub empty_block : Block
empty_block = record { bno = 0; type = block_super; busy = 0; used = 0; u = λ w. 0 }

abbrev pub start : Fs
start = record {
  image = λ b w. 0;
  reads = λ b. true;
  writes = λ b. true;
  cache = λ i. empty_block;
  t = 1;
  nblocks = 0;
  ninodes = 0;
  nbitblock = 0;
  nextb = 0;
  nextinode = 0;
  link_contents = false;
  hardlinks = [];
  super = record { os_magic = 0; os_nblocks = 0; os_ninodes = 0; os_firstinob = 0 };
}

-- A file of two bytes.
abbrev pub hi : HostFile
hi = record { host_ino = 0; mode = 420; digest = none; answers = got (b'h' ∷ b'i' ∷ []) ∷ [] }

abbrev made : Option (Unit {0} × Fs)
made =
    main (some 16) (some 5) (tree (b'd' ∷ []) (entry (file (b'a' ∷ []) hi) no_more))
      (record { contents = false; links = [] }) start

abbrev made_disk : Option (Unit {0} × Fs) → Disk
made_disk none a = 0
made_disk (some (u, s)) a = s.image (a / 256) (a % 256)

-- The superblock and the root directory of the image.
made_magic : made_disk made 256 ≡ 0x013101AE
unfolding main with_block writefile swizzleblock swizzle
made_magic = refl

made_blocks : made_disk made 257 ≡ 16
unfolding main with_block writefile swizzleblock swizzle
made_blocks = refl

made_root_size : made_disk made 784 ≡ 1024
unfolding main with_block writefile swizzleblock swizzle
made_root_size = refl

-- The file's entry has block 4, its inode is number 2, its contents have block 5.
made_entry : find_direntry 784 (b'a' ∷ []) (made_disk made) ≡ some 4096
unfolding main with_block writefile swizzleblock swizzle find_direntry first_entry is_named od_ino
    ospfs_inode_data ospfs_block store strlen_is memcmp_is
made_entry = refl

made_file_size : made_disk made 800 ≡ 2
unfolding main with_block writefile swizzleblock swizzle
made_file_size = refl

made_file_block : ospfs_inode_blockno 800 0 (made_disk made) ≡ 5
unfolding main with_block writefile swizzleblock swizzle ospfs_inode_blockno store
made_file_block = refl

made_file_word : made_disk made 1280 ≡ b'h' + 256 * b'i'
unfolding main with_block writefile swizzleblock swizzle store
made_file_word = refl

-- Of 16 blocks the first six are in use.
made_used : is_free (made_disk made) 5 ≡ false
unfolding main with_block writefile swizzleblock swizzle is_free bitvector_test ospfs_block
    clear_bits
made_used = refl

made_free : is_free (made_disk made) 6 ≡ true
unfolding main with_block writefile swizzleblock swizzle is_free bitvector_test ospfs_block
    clear_bits
made_free = refl

-- A cache that holds block 5 with other words than the image has.
abbrev pub five : Block
five = record { bno = 5; type = block_bits; busy = 0; used = 1; u = λ w. 7 }

abbrev pub ready : Fs
ready = record start {
  cache = update start.cache 3 five;
  nblocks = 16;
  ninodes = 5;
  nbitblock = 1;
  nextb = 4;
  super = super_of 16 5 1;
}

pub ready-IsCache : IsCache ready
ready-IsCache = record {
  distinct = λ i j p q e z. ground arith;
  unused = λ i p e. ground arith;
  null_unused = λ i p e. ground arith;
  entry_words = λ i p w. ground arith;
  image_words = λ b w. omega arith;
  reads = λ b. refl;
  writes = λ b. refl;
}

pub ready-IsIdle : IsIdle ready
ready-IsIdle = record { cache_is = ready-IsCache; idle = λ j. ground arith }

pub start-IsUnused : IsUnused start
start-IsUnused = record {
  no_block = λ j. refl;
  not_used = λ j. refl;
  not_busy = λ j. refl;
  zeros = λ j w. refl;
  reads = λ b. refl;
  writes = λ b. refl;
}

main-Sized_example :
    (s' : Fs) × (main
        (some 16)
        (some 5)
        (tree (b'd' ∷ []) no_more)
        (record { contents = false; links = [] })
        start
      ≡ some (tt, s'))
    × IsNew 16 5 refl s'
main-Sized_example =
    main-Sized 16 5 refl start (record { contents = false; links = [] }) start-IsUnused (b'd' ∷ [])

-- An image of an empty directory.
abbrev new_image :
    (s' : Fs) × (main
        (some 16)
        (some 5)
        (tree (b'd' ∷ []) no_more)
        (record { contents = false; links = [] })
        start
      ≡ some (tt, s'))
    × IsNew 16 5 refl s'
new_image =
    main-Sized 16 5 refl start (record { contents = false; links = [] }) start-IsUnused (b'd' ∷ [])

getblk-Got_example :
    (i : ℕ) × (s' : Fs) × (getblk 5 false block_bits ready ≡ some (i, s')) × Got ready 5 false i s'
getblk-Got_example =
    getblk-Got ready ready-IsCache 5 (omega arith) (omega arith) (λ i p e. ready-IsIdle.idle i) 0
      (omega arith) refl false block_bits

flushdisk-view_example :
    (image : ℕ → Words) × (flushdisk ready ≡ some (tt, record ready { image = image }))
    × ((b : ℕ) → b ≢ 0 → image b ≡ view ready b)
    × (image 0 ≡ ready.image 0)
flushdisk-view_example = flushdisk-view ready ready-IsCache

finishfs-Finished_example : (s' : Fs) × (finishfs ready ≡ some (tt, s')) × Finished ready s'
finishfs-Finished_example =
    finishfs-Finished ready (omega arith) refl (omega arith) ready-IsIdle (omega arith)

copy_from-fuel_example :
    copy_from abort 4 root_inode 0 (hi.answers)
    ≡ copy_from (pure (0, 0)) 9 root_inode 0 (hi.answers)
copy_from-fuel_example =
    copy_from-fuel abort (pure (0, 0)) 4 9 root_inode 0 hi.answers (omega arith) (omega arith)

main-allocate_block_example : (allocate_block (disk_of new_image.0.image)).0 ≡ 4
main-allocate_block_example =
    main-allocate_block 16 5 refl start (record { contents = false; links = [] }) start-IsUnused
      (b'd' ∷ []) new_image.0 new_image.1
