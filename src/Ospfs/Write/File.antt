-- ===== src/Ospfs/Write/File.antt =====
-- Files of lab3/ospfsmod.c whose blocks hold data only, and what a write into such a block keeps.
use cs111fall.Prelude.{
  ℕ, ◌+◌, ◌-◌, ◌*◌, ◌/◌, ◌%◌, ◌^◌, ◌≤◌, ◌<◌, ◌≡◌, refl, ◌≢◌, inl, inr, true, false, ◌&&◌, arith,
  ltb, leb, if◌then◌else◌, Bool-cases, ◌==◌, ==_iff,
}
use cs111fall.Ospfs.Disk.{Disk, blksize, ospfs_block, oi_size, oi_indirect, oi_indirect2}
use cs111fall.Ospfs.Index.{ospfs_inode_blockno}
use cs111fall.Ospfs.Store.{store, store_frame, byte-store}
use cs111fall.Ospfs.Read.Bytes.{file_byte, same_blockno}
use cs111fall.Ospfs.Resize.Sound.{ospfs_block_lem}

-- The word lies in no data block of the file.
abbrev pub IsOutside : ℕ → Disk → ℕ → Type 0
IsOutside oi d w = (i : ℕ) → i < d (oi_size oi) → ospfs_inode_blockno oi i d ≢ w / 256

-- Every byte of the file has a block, different blocks of the file have different numbers, and the inode and
-- the blocks of pointers lie in no data block of the file.
pub record IsFile (oi : ℕ) (d : Disk) : Type 0 where
  pub fits : d (oi_size oi) ≤ 65802 * blksize
  pub mapped : (i : ℕ) → i < d (oi_size oi) → ospfs_inode_blockno oi i d ≢ 0
  pub small : (i : ℕ) → i < d (oi_size oi) → ospfs_inode_blockno oi i d < 2 ^ 22
  pub apart :
      (i j : ℕ)
      → i < d (oi_size oi)
      → j < d (oi_size oi)
      → ospfs_inode_blockno oi i d ≡ ospfs_inode_blockno oi j d
      → i / blksize ≡ j / blksize
  pub inode : (k : ℕ) → k < 16 → IsOutside oi d (oi + k)
  pub indirect : (k : ℕ) → k < 256 → IsOutside oi d (ospfs_block (d (oi_indirect oi)) + k)
  pub indirect2 : (k : ℕ) → k < 256 → IsOutside oi d (ospfs_block (d (oi_indirect2 oi)) + k)
  pub under :
      (k j : ℕ)
      → k < 256
      → j < 256
      → IsOutside oi d (ospfs_block (d (ospfs_block (d (oi_indirect2 oi)) + k)) + j)

-- The disks differ in data blocks of the file at most.
abbrev pub Agree : ℕ → Disk → Disk → Type 0
Agree oi d d' = (w : ℕ) → IsOutside oi d w → d' w ≡ d w

-- The words that say where the blocks of the file are have not changed.
pub record SameMap (oi : ℕ) (d d' : Disk) : Type 0 where
  pub inode : (k : ℕ) → k < 16 → d' (oi + k) ≡ d (oi + k)
  pub indirect :
      (k : ℕ)
      → k < 256
      → d' (ospfs_block (d (oi_indirect oi)) + k) ≡ d (ospfs_block (d (oi_indirect oi)) + k)
  pub indirect2 :
      (k : ℕ)
      → k < 256
      → d' (ospfs_block (d (oi_indirect2 oi)) + k) ≡ d (ospfs_block (d (oi_indirect2 oi)) + k)
  pub under :
      (k j : ℕ)
      → k < 256
      → j < 256
      → d' (ospfs_block (d (ospfs_block (d (oi_indirect2 oi)) + k)) + j)
        ≡ d (ospfs_block (d (ospfs_block (d (oi_indirect2 oi)) + k)) + j)

module _ {oi : ℕ} {d : Disk} (file : IsFile oi d) {d' : Disk} (same : SameMap oi d d') where
  pub size-SameMap : d' (oi_size oi) ≡ d (oi_size oi)
  size-SameMap = ground (arith, same.inode 0 (omega arith))

  pub blockno-SameMap : (i : ℕ) → ospfs_inode_blockno oi i d' ≡ ospfs_inode_blockno oi i d
  unfolding ospfs_inode_blockno
  blockno-SameMap i =
      let b = i / blksize in
      elim (Bool-cases (leb (d (oi_size oi)) i)) [
        | inl beyond ↦ rw (size-SameMap, beyond) refl
        | inr within ↦
            let bound : b < 65802 = ground (arith, file.fits) in
            let q = (b - 266) / 256 in
            let e1 = same.inode 1 (omega arith) in
            let e14 = same.inode 14 (omega arith) in
            let e15 = same.inode 15 (omega arith) in
            let eu = same.indirect2 q (omega arith) in
            let ew = same.under q ((b - 266) % 256) (omega arith) (omega arith) in
            elim (Bool-cases (leb 266 b)) [
              | inl high ↦ rw (size-SameMap, e1, e15, eu, ew, high) refl
              | inr not_high ↦ elim (Bool-cases (leb 10 b)) [
                | inl middle ↦
                    let ei = same.indirect (b - 10) (ground arith) in
                    rw (size-SameMap, e1, e14, ei, not_high, middle) refl
                | inr low ↦
                    let ed : d' (oi + 4 + b) ≡ d (oi + 4 + b) =
                      ground (arith, same.inode (4 + b)) in
                    rw (size-SameMap, e1, ed, not_high, low) refl
              ]
            ]
      ]

module _ {oi : ℕ} {d : Disk} (file : IsFile oi d) {d' : Disk} (agree : Agree oi d d') where
  pub Agree-SameMap : SameMap oi d d'
  Agree-SameMap = record {
    inode = λ k h. agree (oi + k) (file.inode k h);
    indirect = λ k h. agree _ (file.indirect k h);
    indirect2 = λ k h. agree _ (file.indirect2 k h);
    under = λ k j h g. agree _ (file.under k j h g);
  }

  pub size_same : d' (oi_size oi) ≡ d (oi_size oi)
  size_same = size-SameMap file Agree-SameMap

  inode_same : (k : ℕ) → k < 16 → d' (oi + k) ≡ d (oi + k)
  inode_same k h = agree (oi + k) (file.inode k h)

  pub blockno_same : (i : ℕ) → ospfs_inode_blockno oi i d' ≡ ospfs_inode_blockno oi i d
  blockno_same i = blockno-SameMap file Agree-SameMap i

  pub IsOutside-Agree : (w : ℕ) → IsOutside oi d w → IsOutside oi d' w
  IsOutside-Agree w o i h = rw (blockno_same i) (o i (rw size_same at h))

  -- Such a change keeps the file in order.
  pub IsFile-Agree : IsFile oi d'
  IsFile-Agree =
      let e14 = inode_same 14 (omega arith) in
      let e15 = inode_same 15 (omega arith) in
      record {
        fits = rw size_same file.fits;
        mapped = λ i h. rw (blockno_same i) (file.mapped i (rw size_same at h));
        small = λ i h. rw (blockno_same i) (file.small i (rw size_same at h));
        apart = λ i j h k e.
            file.apart i j (rw size_same at h) (rw size_same at k)
              (rw (blockno_same i, blockno_same j) at e);
        inode = λ k h. IsOutside-Agree (oi + k) (file.inode k h);
        indirect = λ k h. rw e14 (IsOutside-Agree _ (file.indirect k h));
        indirect2 = λ k h. rw e15 (IsOutside-Agree _ (file.indirect2 k h));
        under = λ k j h g.
            rw (e15, agree (ospfs_block (d (oi + 15)) + k) (file.indirect2 k h))
              (IsOutside-Agree _ (file.under k j h g));
      }

-- A store of bytes within the block of one offset of the file.
module _ {oi : ℕ} {d : Disk} (file : IsFile oi d) (from n : ℕ) (inside : from < d (oi_size oi))
    (in_block : from % blksize + n ≤ blksize) (f : ℕ → ℕ) where
  abbrev pub target : ℕ
  target = ospfs_block (ospfs_inode_blockno oi from d) * 4 + from % blksize

  pub store-Agree : Agree oi d (store target n f d)
  store-Agree w o = store_frame target n w f d (
      ground (
        arith,
        o from inside,
        ospfs_block_lem (ospfs_inode_blockno oi from d),
        file.small from inside,
      ))

  pub file_byte-store :
      ((b : ℕ) → f b < 256)
      → from + n ≤ d (oi_size oi)
      → (j : ℕ) → j < d (oi_size oi)
      → file_byte oi (store target n f d) j
        ≡ (if leb from j && ltb j (from + n) then f (j - from) else file_byte oi d j)
  file_byte-store small fits j h =
      let here = ospfs_inode_blockno oi from d in
      let there = ospfs_inode_blockno oi j d in
      let at_here = ospfs_block_lem here (file.small from inside) in
      let at_there = ospfs_block_lem there (file.small j h) in
      rw
        (
          blockno_same file store-Agree j,
          byte-store target n f d small (ospfs_block there * 4 + j % blksize),
        )
        (elim (Bool-cases (leb from j && ltb j (from + n))) [
          | inl hit ↦
              let same : there ≡ here = same_blockno oi j from d (ground arith) h inside in
              let address = ospfs_block there * 4 + j % blksize in
              let touched : leb target address && ltb address (target + n) ≡ true =
                ground (arith, same, at_here, at_there) in
              let index : address - target ≡ j - from = ground (arith, same, at_here, at_there) in
              rw (hit, touched, index) refl
          | inr miss ↦
              let address = ospfs_block there * 4 + j % blksize in
              let untouched : leb target address && ltb address (target + n) ≡ false =
                elim (Bool-cases (there == here)) [
                  | inl e ↦
                      let same : j / blksize ≡ from / blksize =
                        file.apart j from h inside ((==_iff there here).0 e) in
                      ground (arith, at_here, at_there)
                  | inr e ↦ ground (arith, at_here, at_there)
                ] in
              rw (miss, untouched) refl
        ])
