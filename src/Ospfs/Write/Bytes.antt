-- ===== src/Ospfs/Write/Bytes.antt =====
-- `ospfs_write` of lab3/ospfsmod.c puts the user's bytes into the file.
use cs111fall.Prelude.{
  ℕ, zero, suc, ◌+◌, ◌*◌, ◌≢◌, sym, ◌-◌, ◌%◌, ◌^◌, ◌≤◌, ◌<◌, ◌≡◌, refl, ◌∙◌, ap, inl, inr, true,
  false, ◌&&◌, Option, none, some, arith, ltb, leb, if◌then◌else◌, Bool-cases, ne→==,
}
use cs111fall.Weensy.{Memory}
use cs111fall.Ospfs.Disk.{Disk, blksize, ospfs_block, oi_size}
use cs111fall.Ospfs.Index.{ospfs_inode_blockno}
use cs111fall.Ospfs.Store.{store, byte-store}
use cs111fall.Ospfs.Read.Bytes.{file_byte, same_blockno}
use cs111fall.Ospfs.Read.{byte}
use cs111fall.Ospfs.Write.{Written, written, User, write_loop, after_resize, ospfs_write}
use cs111fall.Ospfs.Write.File.{
  IsFile, Agree, IsFile-Agree, size_same, IsOutside-Agree, blockno_same, target, store-Agree,
  file_byte-store,
}

-- The bytes of memory from `buffer` on are the bytes of the file from `from` on, and the others are as before.
abbrev pub Wrote : ℕ → Disk → (buffer from n : ℕ) → Memory → Disk → Type 0
Wrote oi d buffer from n m d' =
    (j : ℕ)
    → j < d (oi_size oi)
    → file_byte oi d' j
      ≡ (if leb from j && ltb j (from + n) then m (buffer + (j - from)) else file_byte oi d j)

-- The address of the byte of the file at offset `i`.
abbrev pub address : ℕ → Disk → ℕ → ℕ
address oi d i = ospfs_block (ospfs_inode_blockno oi i d) * 4 + i % blksize

-- Every byte of the disk is as it was, but for those of the file from `from` on.
abbrev pub Only : ℕ → Disk → (from n : ℕ) → Disk → Type 0
Only oi d from n d' =
    (b : ℕ) → ((j : ℕ) → from ≤ j → j < from + n → address oi d j ≢ b) → byte d' b ≡ byte d b

-- All bytes are written, and nothing but those of the file that are written to has changed.
abbrev pub Writes :
    ℕ → Disk → (buffer from n amount : ℕ) → Memory → Option (Written × ℕ × Disk) → Type 0
Writes oi d buffer from n amount m none = ⊥
Writes oi d buffer from n amount m (some (r, f_pos, d')) =
    (r ≡ written (amount + n))
    × (f_pos ≡ from + n)
    × Agree oi d d'
    × Wrote oi d buffer from n m d'
    × Only oi d from n d'

module _ (oi : ℕ) (m : Memory) where
  Wrote-join :
      (d : Disk) (buffer from n k : ℕ) (d1 d2 : Disk)
      → d1 (oi_size oi) ≡ d (oi_size oi)
      → Wrote oi d buffer from n m d1
      → Wrote oi d1 (buffer + n) (from + n) k m d2
      → Wrote oi d buffer from (n + k) m d2
  Wrote-join d buffer from n k d1 d2 size p q j h =
      let q' = q j (rw size h) in
      elim (Bool-cases (leb (from + n) j && ltb j (from + n + k))) [
        | inl late ↦
            let e : leb from j && ltb j (from + (n + k)) ≡ true = ground arith in
            let i : buffer + n + (j - (from + n)) ≡ buffer + (j - from) = ground arith in
            rw e (rw (late, i) at q')
        | inr not_late ↦
            let q'' = rw not_late at q' in
            elim (Bool-cases (leb from j && ltb j (from + n))) [
              | inl early ↦
                  let e : leb from j && ltb j (from + (n + k)) ≡ true = ground arith in
                  rw (q'', e) (rw early at (p j h))
              | inr not_early ↦
                  let e : leb from j && ltb j (from + (n + k)) ≡ false = ground arith in
                  rw (q'', e) (rw not_early at (p j h))
            ]
      ]

  -- The addresses of the file do not change, so that what two writes leave as it is stays as it is.
  Only-join :
      (d : Disk) (file : IsFile oi d) (from n k : ℕ) (d1 d2 : Disk)
      → Agree oi d d1
      → Only oi d from n d1
      → Only oi d1 (from + n) k d2
      → Only oi d from (n + k) d2
  Only-join d file from n k d1 d2 agree p q b away =
      q b (λ j lo hi e.
        away j (omega arith) (omega arith)
          (ap (λ x. ospfs_block x * 4 + j % blksize) (sym (blockno_same file agree j)) ∙ e))
      ∙ p b (λ j lo hi. away j lo (omega arith))

  Writes-join :
      (d : Disk) (file : IsFile oi d) (buffer from n k amount : ℕ) (d1 : Disk)
      (o : Option (Written × ℕ × Disk))
      → (agree : Agree oi d d1) → Wrote oi d buffer from n m d1
      → Only oi d from n d1
      → Writes oi d1 (buffer + n) (from + n) k (amount + n) m o
      → Writes oi d buffer from (n + k) amount m o
  Writes-join d file buffer from n k amount d1 none agree p o q = q
  Writes-join d file buffer from n k amount d1 (some (r, f_pos, d2)) agree p only
        (a, b, agree2, h, only2) =
      let e : amount + n + k ≡ amount + (n + k) = omega arith in
      (
        rw e at a,
        omega (arith, b),
        λ w o. agree2 w (IsOutside-Agree file agree w o) ∙ agree w o,
        Wrote-join d buffer from n k d1 d2 (size_same file agree) p h,
        Only-join d file from n k d1 d2 agree only only2,
      )

-- A store within the block of one offset changes just the bytes from that offset on.
store-Only :
    {oi : ℕ} {d : Disk} (file : IsFile oi d) (from n : ℕ) (inside : from < d (oi_size oi))
    (in_block : from % blksize + n ≤ blksize) (f : ℕ → ℕ)
    → ((b : ℕ) → f b < 256)
    → from + n ≤ d (oi_size oi)
    → Only oi d from n (store (target file from n inside in_block f) n f d)
store-Only {oi} {d} file from n inside in_block f small fits b away =
    let lo = target file from n inside in_block f in
    byte-store lo n f d small b ∙ elim (Bool-cases (leb lo b && ltb b (lo + n))) [
      | inr apart ↦ rw apart refl
      | inl hit ↦
          let j = from + (b - lo) in
          let inside' : j < d (oi_size oi) = ground arith in
          let same = same_blockno oi j from d (ground arith) inside' inside in
          absurd (away j (omega arith) (ground arith) (ground (arith, same)))
    ]

module _ (u : User) (oi : ℕ) (m : Memory) (byte_wide : (a : ℕ) → m a < 256)
    (sound : (b n : ℕ) → u.faults b n ≡ false) where
  -- The length of one copy.
  abbrev chunk : ℕ → ℕ → ℕ
  chunk from left = if ltb left (blksize - from % blksize) then left else blksize - from % blksize

  chunk_lem :
      (from left : ℕ)
      → 0 < left
      → (0 < chunk from left)
        × (chunk from left ≤ left)
        × (from % blksize + chunk from left ≤ blksize)
  chunk_lem from left h = ground arith

  write_loop-Writes :
      (count fuel buffer amount from : ℕ) (d : Disk)
      → IsFile oi d
      → amount ≤ count
      → from + (count - amount) ≤ d (oi_size oi)
      → count - amount < fuel
      → Writes oi d buffer from
          (count - amount)
          amount
          m
          (write_loop u oi count m fuel buffer amount from d)
  unfolding write_loop
  write_loop-Writes count zero buffer amount from d file le fits enough = absurd (omega arith)
  write_loop-Writes count (suc fuel) buffer amount from d file le fits enough =
      elim (Bool-cases (ltb amount count)) [
        | inr full ↦
            let e : count - amount ≡ 0 = ground arith in
            rw (full, e)
              (ap written (omega arith), omega arith, λ w o. refl, λ j h. ground arith, λ b o. refl)
        | inl more ↦
            let left = count - amount in
            let (some_bytes, few, in_block) = chunk_lem from left (ground arith) in
            let n = chunk from left in
            let small : from % 2 ^ 32 ≡ from = omega (arith, file.fits) in
            let total : n + (count - (amount + n)) ≡ left = omega (arith, few) in
            let inside : from < d (oi_size oi) = ground arith in
            let f : ℕ → ℕ = λ k. m (buffer + k) in
            let agree = store-Agree file from n inside in_block f in
            let d1 = store (target file from n inside in_block f) n f d in
            let rest =
              write_loop-Writes count fuel (buffer + n) (amount + n) (from + n) d1
                (IsFile-Agree file agree) (omega (arith, few))
                (omega (arith, few, size_same file agree)) (omega (arith, few, some_bytes)) in
            rw
              (
                more,
                small,
                ne→== (ospfs_inode_blockno oi from d) 0 (file.mapped from inside),
                sound buffer n,
              )
              (rw total at (
                Writes-join oi m d file buffer from n (count - (amount + n)) amount d1 _ agree
                  (file_byte-store file from n inside in_block f (λ b. byte_wide (buffer + b))
                    (omega (arith, few)))
                  (store-Only file from n inside in_block f (λ b. byte_wide (buffer + b))
                    (omega (arith, few)))
                  rest))
      ]

  -- A write within a file whose blocks hold data only, at a position and not in append mode, if no copy from the
  -- user faults and with more fuel than the count: `ospfs_write` returns the count, moves the position by it,
  -- puts just those bytes into the file, and changes no other byte of the disk.
  pub ospfs_write-Writes :
      (count fuel buffer f_pos : ℕ) (d : Disk)
      → IsFile oi d
      → f_pos + count ≤ d (oi_size oi)
      → count < fuel
      → Writes oi d buffer f_pos count 0 m (ospfs_write u oi count m fuel false buffer f_pos d)
  unfolding ospfs_write after_resize
  ospfs_write-Writes count fuel buffer f_pos d file fits enough =
      let e : ltb (d (oi_size oi)) (count + f_pos) ≡ false = ground arith in
      let all : count - 0 ≡ count = omega arith in
      rw e (
        rw all at (
          write_loop-Writes count fuel buffer 0 f_pos d file (omega arith) (omega arith)
            (omega arith)))
