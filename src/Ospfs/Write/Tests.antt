-- ===== src/Ospfs/Write/Tests.antt =====
-- Writes into a file of three bytes in one block.
use cs111fall.Prelude.{ℕ, ◌%◌, ◌<◌, ◌≡◌, refl, false, arith, ◌==◌, if◌then◌else◌}
use cs111fall.Weensy.{Memory}
use cs111fall.Ospfs.Disk.{Disk, ospfs_block}
use cs111fall.Ospfs.Index.{ospfs_inode_blockno}
use cs111fall.Ospfs.Write.{User, ospfs_write}
use cs111fall.Ospfs.Write.File.{IsFile}
use cs111fall.Ospfs.Write.Bytes.{Writes, ospfs_write-Writes}
use cs111fall.Ospfs.Write.Back.{ReadsBack, ospfs_read-ospfs_write}

-- The inode at word 784 has the size 3 and the block 4, which holds the bytes 7, 8 and 9.
abbrev three_bytes : Disk
three_bytes a = if a == 784 then 3 else if a == 788 then 4 else if a == 1024 then 0x090807 else 0

abbrev no_faults : User
no_faults = record { faults = λ b n. false; faulted = λ to b n d. d }

abbrev letters : Memory
letters a = a % 256

three_bytes_blockno : (i : ℕ) → i < 3 → ospfs_inode_blockno 784 i three_bytes ≡ 4
unfolding ospfs_inode_blockno
three_bytes_blockno i h = ground arith

three_bytes-IsFile : IsFile 784 three_bytes
unfolding ospfs_block
three_bytes-IsFile = record {
  fits = omega arith;
  mapped = λ i h. ground (arith, three_bytes_blockno i);
  small = λ i h. ground (arith, three_bytes_blockno i);
  apart = λ i j h k e. omega arith;
  inode = λ k h i g. ground (arith, three_bytes_blockno i);
  indirect = λ k h i g. ground (arith, three_bytes_blockno i);
  indirect2 = λ k h i g. ground (arith, three_bytes_blockno i);
  under = λ k j h h' i g. ground (arith, three_bytes_blockno i);
}

ospfs_write-Writes_example :
    Writes 784 three_bytes 65 1 2 0 letters
      (ospfs_write no_faults 784 2 letters 6 false 65 1 three_bytes)
ospfs_write-Writes_example =
    ospfs_write-Writes no_faults 784 letters (λ a. omega arith) (λ b n. refl) 2 6 65 1 three_bytes
      three_bytes-IsFile (omega arith) (omega arith)

ospfs_read-ospfs_write_example :
    ReadsBack 784
      (λ b n. false)
      6
      letters
      (λ a. 0)
      65
      100
      2
      1
      (ospfs_write no_faults 784 2 letters 6 false 65 1 three_bytes)
ospfs_read-ospfs_write_example =
    ospfs_read-ospfs_write no_faults 784 letters (λ a. 0) (λ a. omega arith) (λ b n. refl)
      (λ b n. false) (λ b n. refl) 6 65 100 2 1 three_bytes (omega arith) three_bytes-IsFile
      (omega arith)
