-- ===== src/Ospfs/Read/Bytes.antt =====
-- `ospfs_read` of lab3/ospfsmod.c reads the bytes of the file.
use cs111fall.Prelude.{
  ℕ, zero, suc, ◌+◌, ◌-◌, ◌*◌, ◌/◌, ◌%◌, ◌^◌, ◌≤◌, ◌<◌, ◌≡◌, refl, ◌≢◌, inl, inr, Bool, true, false,
  ◌&&◌, Option, none, some, arith, ap, ltb, leb, if◌then◌else◌, Bool-cases, ne→==,
}
use Prim.Native.Nat.{min}
use cs111fall.Weensy.{Memory}
use cs111fall.Ospfs.Disk.{Disk, blksize, ospfs_block, oi_size}
use cs111fall.Ospfs.Index.{ospfs_inode_blockno}
use cs111fall.Ospfs.Read.{byte, Amount, bytes, copied_to, read_loop, ospfs_read}

-- The byte of the file at offset `i`.
abbrev pub file_byte : ℕ → Disk → ℕ → ℕ
file_byte oi d i = byte d (ospfs_block (ospfs_inode_blockno oi i d) * 4 + i % blksize)

-- Offsets of one block have one block number.
pub same_blockno :
    (oi x y : ℕ) (d : Disk)
    → x / blksize ≡ y / blksize
    → x < d (oi_size oi)
    → y < d (oi_size oi)
    → ospfs_inode_blockno oi x d ≡ ospfs_inode_blockno oi y d
unfolding ospfs_inode_blockno
same_blockno oi x y d e hx hy =
    let fx : leb (d (oi_size oi)) x ≡ false = ground arith in
    let fy : leb (d (oi_size oi)) y ≡ false = ground arith in rw (fx, fy, e) refl

-- The file's bytes from `from` on stand in memory from `buffer` on, and nothing else has changed.
abbrev pub Holds : ℕ → Disk → (buffer from n : ℕ) → Memory → Memory → Type 0
Holds oi d buffer from n m m' =
    (a : ℕ)
    → m' a
      ≡ (if leb buffer a && ltb a (buffer + n) then file_byte oi d (from + (a - buffer)) else m a)

abbrev pub Reads :
    ℕ → Disk → (buffer from n amount : ℕ) → Memory → Option (Amount × ℕ × Memory) → Type 0
Reads oi d buffer from n amount m none = ⊥
Reads oi d buffer from n amount m (some (r, f_pos, m')) =
    (r ≡ bytes (amount + n)) × (f_pos ≡ from + n) × Holds oi d buffer from n m m'

module _ (oi : ℕ) (d : Disk) (word : d (oi_size oi) < 2 ^ 32) where
  -- What one `copy_to_user` within a block copies.
  copied_to-Holds :
      (buffer from n : ℕ) (m : Memory)
      → from % blksize + n ≤ blksize
      → from + n ≤ d (oi_size oi)
      → Holds oi d buffer from n m (
          copied_to buffer (ospfs_block (ospfs_inode_blockno oi from d) * 4 + from % blksize) n d m)
  copied_to-Holds buffer from n m fits in_file a =
      elim (Bool-cases (leb buffer a && ltb a (buffer + n))) [
        | inl inside ↦
            let o : a - buffer < n = ground arith in
            let same : ospfs_inode_blockno oi (from + (a - buffer)) d
                ≡ ospfs_inode_blockno oi from d =
              same_blockno oi (from + (a - buffer)) from d (omega arith) (omega arith)
                (omega arith) in
            let at : (from + (a - buffer)) % blksize ≡ from % blksize + (a - buffer) =
              omega arith in
            let sum : ospfs_block (ospfs_inode_blockno oi from d) * 4
                  + from % blksize
                  + (a - buffer)
                ≡ ospfs_block (ospfs_inode_blockno oi from d) * 4
                  + (from % blksize + (a - buffer)) =
              omega arith in
            rw (inside, same, at, sum) refl
        | inr outside ↦ rw outside refl
      ]

  Holds-join :
      (buffer from n k : ℕ) (m m1 m2 : Memory)
      → Holds oi d buffer from n m m1
      → Holds oi d (buffer + n) (from + n) k m1 m2
      → Holds oi d buffer from (n + k) m m2
  Holds-join buffer from n k m m1 m2 p q a =
      elim (Bool-cases (leb (buffer + n) a && ltb a (buffer + n + k))) [
        | inl late ↦
            let e : leb buffer a && ltb a (buffer + (n + k)) ≡ true = ground arith in
            let i : from + n + (a - (buffer + n)) ≡ from + (a - buffer) = ground arith in
            rw e (rw (late, i) at (q a))
        | inr not_late ↦
            let q' = rw not_late at (q a) in
            elim (Bool-cases (leb buffer a && ltb a (buffer + n))) [
              | inl early ↦
                  let e : leb buffer a && ltb a (buffer + (n + k)) ≡ true = ground arith in
                  rw (q', e) (rw early at (p a))
              | inr not_early ↦
                  let e : leb buffer a && ltb a (buffer + (n + k)) ≡ false = ground arith in
                  rw (q', e) (rw not_early at (p a))
            ]
      ]

  Reads-join :
      (buffer from n k amount : ℕ) (m m1 : Memory) (o : Option (Amount × ℕ × Memory))
      → Holds oi d buffer from n m m1
      → Reads oi d (buffer + n) (from + n) k (amount + n) m1 o
      → Reads oi d buffer from (n + k) amount m o
  Reads-join buffer from n k amount m m1 none p q = q
  Reads-join buffer from n k amount m m1 (some (r, f_pos, m2)) p (a, b, h) =
      let e : amount + n + k ≡ amount + (n + k) = omega arith in
      (rw e at a, omega (arith, b), Holds-join buffer from n k m m1 m2 p h)

  module _ (faults : ℕ → ℕ → Bool) (sound : (b n : ℕ) → faults b n ≡ false)
      (mapped : (i : ℕ) → i < d (oi_size oi) → ospfs_inode_blockno oi i d ≢ 0) where
    -- The length of one copy.
    abbrev chunk : ℕ → ℕ → ℕ
    chunk from left = if ltb (blksize - from % blksize) left then blksize - from % blksize else left

    chunk_lem :
        (from left : ℕ)
        → 0 < left
        → (0 < chunk from left)
          × (chunk from left ≤ left)
          × (from % blksize + chunk from left ≤ blksize)
    chunk_lem from left h = ground arith

    read_loop-Reads :
        (fuel count buffer amount from : ℕ) (m : Memory)
        → amount ≤ count
        → from + (count - amount) ≤ d (oi_size oi)
        → count - amount < fuel
        → Reads oi d buffer from
            (count - amount)
            amount
            m
            (read_loop fuel faults oi count buffer amount from d m)
    unfolding read_loop
    read_loop-Reads zero count buffer amount from m le fits enough = absurd (omega arith)
    read_loop-Reads (suc fuel) count buffer amount from m le fits enough =
        elim (Bool-cases (ltb amount count)) [
          | inr full ↦
              let e : count - amount ≡ 0 = ground arith in
              rw (full, e) (ap bytes (omega arith), omega arith, λ a. ground arith)
          | inl more ↦
              let left = count - amount in
              let pos_left : 0 < left = ground arith in
              let (some_bytes, within, in_block) = chunk_lem from left pos_left in
              let n = chunk from left in
              let small : from % 2 ^ 32 ≡ from = omega (arith, word) in
              let total : n + (count - (amount + n)) ≡ left = omega (arith, within) in
              let m1 =
                copied_to buffer (ospfs_block (ospfs_inode_blockno oi from d) * 4 + from % blksize)
                  n d m in
              let rest =
                read_loop-Reads fuel count (buffer + n) (amount + n) (from + n) m1
                  (omega (arith, within)) (omega (arith, within))
                  (omega (arith, within, some_bytes)) in
              rw
                (
                  more,
                  small,
                  ne→== (ospfs_inode_blockno oi from d) 0 (mapped from (omega arith)),
                  sound buffer n,
                )
                (rw total at (
                  Reads-join buffer from n (count - (amount + n)) amount m m1 _
                    (copied_to-Holds buffer from n m in_block (omega (arith, within))) rest))
        ]

    -- From a position within a file of less than 2^32 bytes, if no copy to the user faults and every
    -- offset of the file has a block, with more fuel than the count, `ospfs_read` returns the number of bytes asked for, or as many as the file has left, moves the
    -- position by it, and copies just those bytes of the file to the user's buffer.
    pub ospfs_read-Reads :
        (fuel buffer count f_pos : ℕ) (m : Memory)
        → f_pos ≤ d (oi_size oi)
        → count < fuel
        → Reads oi d buffer f_pos
            (min count (d (oi_size oi) - f_pos))
            0
            m
            (ospfs_read fuel faults oi buffer count f_pos d m)
    unfolding ospfs_read
    ospfs_read-Reads fuel buffer count f_pos m le enough =
        let size = d (oi_size oi) in
        elim (Bool-cases (ltb size (count + f_pos))) [
          | inl beyond ↦
              let e : (size + 2 ^ 64 - f_pos) % 2 ^ 32 ≡ size - f_pos = omega (arith, word) in
              let least : min count (size - f_pos) ≡ size - f_pos = ground arith in
              let all : size - f_pos - 0 ≡ size - f_pos = omega arith in
              rw (beyond, e, least)
                (rw all at (
                  read_loop-Reads fuel (size - f_pos) buffer 0 f_pos m (omega arith) (omega arith)
                    (ground arith)))
          | inr within ↦
              let least : min count (size - f_pos) ≡ count = ground arith in
              let all : count - 0 ≡ count = omega arith in
              rw (within, least)
                (rw all at (
                  read_loop-Reads fuel count buffer 0 f_pos m (omega arith) (ground arith)
                    (omega arith)))
        ]
