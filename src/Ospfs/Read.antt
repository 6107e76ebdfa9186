-- ===== src/Ospfs/Read.antt =====
-- lab3/ospfsmod.c: `ospfs_read`.
pub mod Bytes
mod Tests
use cs111fall.Prelude.{
  ℕ, zero, suc, ◌+◌, ◌-◌, ◌*◌, ◌/◌, ◌%◌, ◌^◌, Bool, true, false, ◌&&◌, Option, none, some, ltb, leb,
  ◌==◌, if◌then◌else◌,
}
use cs111fall.Weensy.{Memory}
use cs111fall.Ospfs.Disk.{Disk, blksize, ospfs_block, oi_size}
use cs111fall.Ospfs.Index.{ospfs_inode_blockno}

-- A byte of the disk by its address, the low byte of a word first.
abbrev pub byte : Disk → ℕ → ℕ
byte d b = d (b / 4) / 256 ^ (b % 4) % 256

-- The number of bytes read, -EIO or -EFAULT.
pub data Amount : Type 0 where
  bytes : ℕ → Amount
  eio : Amount
  efault : Amount

-- What `copy_to_user` leaves in user memory if it succeeds: `n` bytes of the disk from `src` on.
abbrev pub copied_to : ℕ → ℕ → ℕ → Disk → Memory → Memory
copied_to buffer src n d m a =
    if leb buffer a && ltb a (buffer + n) then byte d (src + (a - buffer)) else m a

-- `faults` is whether `copy_to_user` fails for a destination and a length. The result has the file
-- position and user memory; `none` is that the fuel ran out.
unfoldable pub read_loop :
    ℕ
    → (faults : ℕ → ℕ → Bool) → (oi count buffer amount f_pos : ℕ) → Disk
    → Memory
    → Option (Amount × ℕ × Memory)
read_loop zero faults oi count buffer amount f_pos d m = none
read_loop (suc fuel) faults oi count buffer amount f_pos d m =
    let blockno = ospfs_inode_blockno oi (f_pos % 2 ^ 32) d in
    let offset = f_pos % blksize in
    let n = if ltb (blksize - offset) (count - amount) then blksize - offset else count - amount in
    let rest =
      read_loop fuel faults oi count (buffer + n) (amount + n) (f_pos + n) d
        (copied_to buffer (ospfs_block blockno * 4 + offset) n d m) in
    if ltb amount count
    then (if blockno == 0
        then some (eio, f_pos, m)
        else if faults buffer n
        then some (efault, f_pos, m)
        else rest)
    else some (bytes amount, f_pos, m)

-- `count` is a 32-bit number and the file position a larger one.
unfoldable pub ospfs_read :
    ℕ
    → (faults : ℕ → ℕ → Bool) → (oi buffer count f_pos : ℕ) → Disk
    → Memory
    → Option (Amount × ℕ × Memory)
ospfs_read fuel faults oi buffer count f_pos d m =
    let size = d (oi_size oi) in
    let count' = if ltb size (count + f_pos) then (size + 2 ^ 64 - f_pos) % 2 ^ 32 else count in
    read_loop fuel faults oi count' buffer 0 f_pos d m
