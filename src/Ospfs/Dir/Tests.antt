-- ===== src/Ospfs/Dir/Tests.antt =====
-- A directory of one block of blank entries, and a link into it.
use cs111fall.Ospfs.Dir.Search.{Finds, find_direntry-Finds}
use cs111fall.Prelude.{ℕ, zero, suc, ◌<◌, ◌≡◌, refl, [], ◌∷◌, arith, ◌==◌, if◌then◌else◌}
use cs111fall.Ospfs.Disk.{Disk, ospfs_block, ospfs_inode, os_ninodes, os_firstinob, oi_nlink}
use cs111fall.Ospfs.Index.{ospfs_inode_blockno, ospfs_inode_data}
use cs111fall.Ospfs.Write.File.{IsFile}
use cs111fall.Ospfs.Dir.Entry.{Name, is_named, first_entry, find_direntry, od_ino}
use cs111fall.Ospfs.Dir.Names.{ospfs_link}
use cs111fall.Ospfs.Dir.Put.{IsName}
use cs111fall.Ospfs.Dir.Link.{IsApart, Links, ospfs_link-Links}

-- Inode 1 is a directory of 1024 bytes in block 4, inode 2 a file with one link.
abbrev directory : Disk
directory a =
    if a == 258
    then 16
    else if a == 259
    then 3
    else if a == 784
    then 1024
    else if a == 785
    then 1
    else if a == 788
    then 4
    else if a == 802
    then 1
    else 0

-- The name `ab`.
abbrev ab : Name
ab = 97 ∷ 98 ∷ []

ab-IsName : IsName ab
ab-IsName zero h = (λ z. absurd (omega arith), omega arith)
ab-IsName (suc zero) h = (λ z. absurd (omega arith), omega arith)
ab-IsName (suc (suc i)) h = absurd (omega arith)

blockno-directory : (i : ℕ) → i < 1024 → ospfs_inode_blockno 784 i directory ≡ 4
unfolding ospfs_inode_blockno
blockno-directory i h = ground arith

directory-IsFile : IsFile 784 directory
unfolding ospfs_block
directory-IsFile = record {
  fits = omega arith;
  mapped = λ i h. ground (arith, blockno-directory i);
  small = λ i h. ground (arith, blockno-directory i);
  apart = λ i j h k e. omega arith;
  inode = λ k h i g. ground (arith, blockno-directory i);
  indirect = λ k h i g. ground (arith, blockno-directory i);
  indirect2 = λ k h i g. ground (arith, blockno-directory i);
  under = λ k j h h' i g. ground (arith, blockno-directory i);
}

directory-IsApart : IsApart 784 directory (oi_nlink 800)
unfolding ospfs_block
directory-IsApart = record {
  inode = λ k h e. absurd (omega arith);
  indirect = λ k h e. absurd (ground arith);
  indirect2 = λ k h e. absurd (ground arith);
  under = λ k j h g e. absurd (ground arith);
  outside = λ i h. ground (arith, blockno-directory i);
}

ospfs_link-Links_example : Links 784 2 800 ab 4096 directory (ospfs_link 9 2 1 ab directory)
unfolding ospfs_inode ospfs_block os_ninodes os_firstinob find_direntry first_entry is_named
    ospfs_inode_data ospfs_inode_blockno od_ino
ospfs_link-Links_example =
    ospfs_link-Links 9 1 784 2 800 4096 ab directory refl refl directory-IsFile refl ab-IsName
      (omega arith) directory-IsApart (omega arith) (λ z. absurd (omega arith)) refl refl

find_direntry-Finds_example : Finds 784 directory ab (find_direntry 784 ab directory)
find_direntry-Finds_example = find_direntry-Finds 784 directory ab
