-- ===== src/Ospfs/Dir/Put.antt =====
-- Writing the inode and the name of a directory entry changes the bytes of that entry alone.
use cs111fall.Prelude.{
  ℕ, ◌+◌, ◌-◌, ◌*◌, ◌/◌, ◌%◌, ◌^◌, ◌≤◌, ◌<◌, ◌≡◌, refl, ◌∙◌, ◌≢◌, inl, inr, ◌&&◌, [], ◌∷◌, length,
  arith, ltb, leb, ◌==◌, if◌then◌else◌, Bool-cases, zero, suc,
}
use cs111fall.Ospfs.Disk.{Disk, blksize, ospfs_block, oi_size}
use cs111fall.Ospfs.Index.{ospfs_inode_blockno, ospfs_inode_data}
use cs111fall.Ospfs.Store.{store}
use cs111fall.Ospfs.Read.{byte}
use cs111fall.Ospfs.Read.Bytes.{file_byte, same_blockno}
use cs111fall.Ospfs.Write.File.{
  IsFile, Agree, IsFile-Agree, size_same, blockno_same, IsOutside-Agree, target, store-Agree,
  file_byte-store,
}
use cs111fall.Ospfs.Dir.Entry.{Name, direntry_size, set_od_ino, name_byte, write_name}
use cs111fall.Ospfs.Dir.Found.{nth_entry}

-- The bytes of a name: neither the end of a string nor beyond 255.
abbrev pub IsName : Name → Type 0
IsName name = (i : ℕ) → i < length name → (name_byte name i ≢ 0) × (name_byte name i < 256)

name_byte_end : (name : Name) (i : ℕ) → length name ≤ i → name_byte name i ≡ 0
name_byte_end [] i h = refl
name_byte_end (c ∷ rest) zero h = absurd (omega arith)
name_byte_end (c ∷ rest) (suc i) h = name_byte_end rest i (omega arith)

name_byte_small : (name : Name) → IsName name → (i : ℕ) → name_byte name i < 256
name_byte_small name n i = elim (Bool-cases (ltb i (length name))) [
  | inl within ↦ (n i (ground arith)).1
  | inr beyond ↦ let e = name_byte_end name i (ground arith) in omega (arith, e)
]

module _ {oi : ℕ} {d : Disk} (file : IsFile oi d) (whole : d (oi_size oi) % direntry_size ≡ 0)
    (k : ℕ) (inside : k * direntry_size < d (oi_size oi)) where
  abbrev pub e : ℕ
  e = nth_entry oi d k

  abbrev pub start : ℕ
  start = k * direntry_size

  -- The bytes of the entry are bytes of the directory, also on a disk where its blocks are the same.
  pub entry_byte :
      (d1 : Disk)
      → ((j : ℕ) → ospfs_inode_blockno oi j d1 ≡ ospfs_inode_blockno oi j d)
      → (i : ℕ) → i < direntry_size
      → byte d1 (e + i) ≡ file_byte oi d1 (start + i)
  unfolding ospfs_inode_data
  entry_byte d1 blocks i h =
      let same : ospfs_inode_blockno oi (start + i) d ≡ ospfs_inode_blockno oi start d =
        same_blockno oi (start + i) start d (omega arith) (omega (arith, whole)) inside in
      let at : (start + i) % blksize ≡ start % blksize + i = omega arith in
      let sum : ospfs_block (ospfs_inode_blockno oi start d) * 4 + start % blksize + i
          ≡ ospfs_block (ospfs_inode_blockno oi start d) * 4 + (start % blksize + i) =
        omega arith in
      rw (blocks (start + i), same, at, sum) refl

  module _ {d1 : Disk} (agree : Agree oi d d1) where
    -- The entry stands at the same address after such a change.
    pub nth_entry_same : nth_entry oi d1 k ≡ e
    unfolding ospfs_inode_data
    nth_entry_same = rw (blockno_same file agree start) refl

    module _ (a n : ℕ) (f : ℕ → ℕ) (small : (b : ℕ) → f b < 256) (room : a + n ≤ direntry_size)
        (at : a < direntry_size) where
      -- One store within the entry.
      target_lem :
          target
            (IsFile-Agree file agree)
            (start + a)
            n
            (omega (arith, size_same file agree, whole))
            (omega arith)
            f
          ≡ e + a
      unfolding ospfs_inode_data
      target_lem =
          let same : ospfs_inode_blockno oi (start + a) d ≡ ospfs_inode_blockno oi start d =
            same_blockno oi (start + a) start d (omega arith) (omega (arith, whole)) inside in
          rw (blockno_same file agree (start + a), same) (omega arith)

      pub put :
          Agree oi d (store (e + a) n f d1)
          × ((j : ℕ)
              → j < d (oi_size oi)
              → file_byte oi (store (e + a) n f d1) j ≡ (
                  if leb (start + a) j && ltb j (start + a + n)
                  then f (j - (start + a))
                  else file_byte oi d1 j))
      put =
          let file1 = IsFile-Agree file agree in
          let size = size_same file agree in
          let within : start + a < d1 (oi_size oi) = omega (arith, size, whole) in
          let in_block : (start + a) % blksize + n ≤ blksize = omega arith in
          let stored = store-Agree file1 (start + a) n within in_block f in
          rw⁻¹ target_lem (
            (λ w o. stored w (IsOutside-Agree file agree w o) ∙ agree w o),
            λ j h.
                file_byte-store file1 (start + a) n within in_block f small
                  (omega (arith, size, whole)) j (rw size h),
          )

-- Three stores one after the other: the number, the name and its end.
three_stores :
    (s n j x0 x1 b0 b1 b2 : ℕ)
    → b1 ≡ (if leb (s + 0) j && ltb j (s + 0 + 4) then x0 else b0)
    → b2 ≡ (if leb (s + 4) j && ltb j (s + 4 + n) then x1 else b1)
    → (if leb (s + (4 + n)) j && ltb j (s + (4 + n) + 1) then 0 else b2) ≡ (
        if leb s j && ltb j (s + 4)
        then x0
        else if leb (s + 4) j && ltb j (s + 4 + n)
        then x1
        else if j == s + 4 + n
        then 0
        else b0)
three_stores s n j x0 x1 b0 b1 b2 e1 e2 = ground arith

module _ {oi : ℕ} {d : Disk} (file : IsFile oi d) (whole : d (oi_size oi) % direntry_size ≡ 0)
    (k : ℕ) (inside : k * direntry_size < d (oi_size oi)) where
  -- What the entry has after `od_ino` and the name are written, and that the other bytes stay.
  module _ (ino : ℕ) (name : Name) (is_name : IsName name)
      (short : length name ≤ direntry_size - 5) where
    abbrev at : ℕ
    at = nth_entry oi d k

    abbrev from : ℕ
    from = k * direntry_size

    abbrev pub filled : Disk
    filled = write_name at name (set_od_ino at ino d)

    abbrev pub filled_byte : ℕ → ℕ
    filled_byte j =
        if leb from j && ltb j (from + 4)
        then ino / 256 ^ (j - from) % 256
        else if leb (from + 4) j && ltb j (from + 4 + length name)
        then name_byte name (j - (from + 4))
        else if j == from + 4 + length name
        then 0
        else file_byte oi d j

    pub filled_lem :
        Agree oi d filled × ((j : ℕ) → j < d (oi_size oi) → file_byte oi filled j ≡ filled_byte j)
    unfolding write_name set_od_ino
    filled_lem =
        let zero_lem : at + 0 ≡ at = omega arith in
        let number : ℕ → ℕ = λ b. ino / 256 ^ b % 256 in
        let p0 = rw zero_lem at (
          put file whole k inside (λ w o. refl) 0 4 number (λ b. omega arith) (omega arith)
            (omega arith)) in
        let p1 =
          put file whole k inside p0.0 4 (length name) (name_byte name)
            (name_byte_small name is_name) (omega arith) (omega arith) in
        let sum : at + (4 + length name) ≡ at + 4 + length name = omega arith in
        let p2 = rw sum at (
          put file whole k inside p1.0 (4 + length name) 1 (λ b. 0) (λ b. omega arith) (omega arith)
            (omega arith)) in
        (
          p2.0,
          λ j h.
              let index : j - (from + 0) ≡ j - from = omega arith in
              p2.1 j h
              ∙ three_stores from (length name) j _ _ _ _ _ (rw index at (p0.1 j h)) (p1.1 j h),
        )
