-- ===== src/Ospfs/Write.antt =====
-- lab3/ospfsmod.c: `ospfs_write`.
pub mod File
pub mod Bytes
pub mod Back
mod Tests
use cs111fall.Prelude.{
  ℕ, zero, suc, ◌+◌, ◌-◌, ◌*◌, ◌%◌, ◌^◌, Bool, true, false, Option, none, some, ltb, ◌==◌,
  if◌then◌else◌,
}
use cs111fall.Weensy.{Memory}
use cs111fall.Ospfs.Disk.{Disk, blksize, ospfs_block, oi_size}
use cs111fall.Ospfs.Index.{ospfs_inode_blockno}
use cs111fall.Ospfs.Resize.{Status, success, enospc, eio, change_size}
use cs111fall.Ospfs.Store.{store}

-- The number of bytes written, the error of `change_size` or of a block that is missing, or -EFAULT.
pub data Written : Type 0 where
  written : ℕ → Written
  failed : Status → Written
  fault : Written

-- What the model takes from Linux: whether `copy_from_user` fails for a source and a length, and the disk
-- that a copy to an address leaves if it fails.
pub record User : Type 0 where
  pub faults : ℕ → ℕ → Bool
  pub faulted : ℕ → ℕ → ℕ → Disk → Disk

module _ (u : User) (oi count : ℕ) (m : Memory) where
  -- The result has the file position and the disk; `none` is that the fuel ran out.
  unfoldable pub write_loop : ℕ → (buffer amount f_pos : ℕ) → Disk → Option (Written × ℕ × Disk)
  write_loop zero buffer amount f_pos d = none
  write_loop (suc fuel) buffer amount f_pos d =
      let blockno = ospfs_inode_blockno oi (f_pos % 2 ^ 32) d in
      let offset = f_pos % blksize in
      let n =
        if ltb (count - amount) (blksize - offset) then count - amount else blksize - offset in
      let to = ospfs_block blockno * 4 + offset in
      let rest =
        write_loop fuel (buffer + n) (amount + n) (f_pos + n)
          (store to n (λ k. m (buffer + k)) d) in
      if ltb amount count
      then (if blockno == 0
          then some (failed eio, f_pos, d)
          else if u.faults buffer n
          then some (fault, f_pos, u.faulted to buffer n d)
          else rest)
      else some (written amount, f_pos, d)

  -- After the change of size.
  unfoldable pub after_resize :
      ℕ → (buffer f_pos : ℕ) → Option (Status × Disk) → Option (Written × ℕ × Disk)
  after_resize fuel buffer f_pos none = none
  after_resize fuel buffer f_pos (some (success, d)) = write_loop fuel buffer 0 f_pos d
  after_resize fuel buffer f_pos (some (enospc, d)) = some (failed enospc, f_pos, d)
  after_resize fuel buffer f_pos (some (eio, d)) = some (failed eio, f_pos, d)

  -- `count` has 32 bits and the position 64, so that the test for the end of the file does not wrap;
  -- `change_size` takes 32 bits.
  unfoldable pub ospfs_write :
      ℕ → (append : Bool) → (buffer f_pos : ℕ) → Disk → Option (Written × ℕ × Disk)
  ospfs_write fuel append buffer f_pos d =
      let size = d (oi_size oi) in
      let pos = if append then size else f_pos in
      after_resize fuel buffer pos (
        if ltb size (count + pos)
        then change_size fuel oi ((count + pos) % 2 ^ 32) d
        else some (success, d))
