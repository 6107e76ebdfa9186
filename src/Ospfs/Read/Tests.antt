-- ===== src/Ospfs/Read/Tests.antt =====
-- A read of a file of three bytes in one block.
use cs111fall.Prelude.{ℕ, ◌≢◌, ◌<◌, refl, false, arith, ◌==◌, if◌then◌else◌}
use cs111fall.Ospfs.Disk.{Disk}
use cs111fall.Ospfs.Index.{ospfs_inode_blockno}
use cs111fall.Ospfs.Read.{ospfs_read}
use cs111fall.Ospfs.Read.Bytes.{Reads, ospfs_read-Reads}

-- The inode at word 784 has the size 3 and the block 4, which holds the bytes 7, 8 and 9.
abbrev three_bytes : Disk
three_bytes a = if a == 784 then 3 else if a == 788 then 4 else if a == 1024 then 0x090807 else 0

three_bytes_mapped : (i : ℕ) → i < 3 → ospfs_inode_blockno 784 i three_bytes ≢ 0
unfolding ospfs_inode_blockno
three_bytes_mapped i h = ground arith

ospfs_read-Reads_example :
    Reads 784 three_bytes 100 1 2 0
      (λ a. 0)
      (ospfs_read 6 (λ b n. false) 784 100 5 1 three_bytes (λ a. 0))
ospfs_read-Reads_example =
    ospfs_read-Reads 784 three_bytes (omega arith) (λ b n. false) (λ b n. refl) three_bytes_mapped 6
      100 5 1 (λ a. 0) (omega arith) (omega arith)
