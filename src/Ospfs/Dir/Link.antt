-- ===== src/Ospfs/Dir/Link.antt =====
-- After `ospfs_link` of lab3/ospfsmod.c the new name leads to the source's inode.
use cs111fall.Prelude.{
  ℕ, ◌+◌, ◌-◌, ◌*◌, ◌/◌, ◌%◌, ◌^◌, ◌≤◌, ◌<◌, ◌≡◌, refl, sym, ap, ◌∙◌, ◌≢◌, inl, inr, true, false,
  ◌&&◌, Option, none, some, length, arith, ltb, leb, ◌==◌, Bool-cases, update, update_ne,
  update_self,
}
use cs111fall.Ospfs.Disk.{
  Disk, add32, blksize, ospfs_block, ospfs_inode, oi_size, oi_nlink, oi_indirect, oi_indirect2,
}
use cs111fall.Ospfs.Index.{ospfs_inode_blockno, ospfs_inode_data}
use cs111fall.Ospfs.Read.{byte}
use cs111fall.Ospfs.Read.Bytes.{file_byte}
use cs111fall.Ospfs.Resize.Sound.{ospfs_block_lem}
use cs111fall.Ospfs.Write.File.{
  IsFile, Agree, IsOutside, SameMap, Agree-SameMap, size-SameMap, blockno-SameMap,
}
use cs111fall.Ospfs.Dir.Entry.{
  Name, direntry_size, maxnamelen, od_ino, is_named, is_blank, entries, first_entry, find_direntry,
  create_blank_direntry, create_blank_with, name_byte,
}
use cs111fall.Ospfs.Dir.Names.{Result, done, ospfs_link, enter_link}
use cs111fall.Ospfs.Dir.Found.{nth_entry, First, first_entry-First, find_direntry-First}
use cs111fall.Ospfs.Dir.Named.{is_named_same, is_named_lem}
use cs111fall.Ospfs.Dir.Put.{IsName, entry_byte, filled, filled_byte, filled_lem}

-- The word is neither in the file's inode, nor among its block pointers, nor in its data.
pub record IsApart (oi : ℕ) (d : Disk) (a : ℕ) : Type 0 where
  pub inode : (k : ℕ) → k < 16 → a ≢ oi + k
  pub indirect : (k : ℕ) → k < 256 → a ≢ ospfs_block (d (oi_indirect oi)) + k
  pub indirect2 : (k : ℕ) → k < 256 → a ≢ ospfs_block (d (oi_indirect2 oi)) + k
  pub under :
      (k j : ℕ)
      → k < 256
      → j < 256
      → a ≢ ospfs_block (d (ospfs_block (d (oi_indirect2 oi)) + k)) + j
  pub outside : IsOutside oi d a

-- A write of such a word, after changes of the data alone.
module _ {oi : ℕ} {d : Disk} (file : IsFile oi d) {d1 : Disk} (agree : Agree oi d d1) {a : ℕ}
    (apart : IsApart oi d a) (v : ℕ) where
  update-SameMap : SameMap oi d (update d1 a v)
  update-SameMap = record {
    inode = λ k h. update_ne d1 a v (oi + k) (apart.inode k h) ∙ m.inode k h;
    indirect = λ k h. update_ne d1 a v _ (apart.indirect k h) ∙ m.indirect k h;
    indirect2 = λ k h. update_ne d1 a v _ (apart.indirect2 k h) ∙ m.indirect2 k h;
    under = λ k j h g. update_ne d1 a v _ (apart.under k j h g) ∙ m.under k j h g;
  }
    where
      m : SameMap oi d d1
      m = Agree-SameMap file agree

  file_byte-update :
      (j : ℕ) → j < d (oi_size oi) → file_byte oi (update d1 a v) j ≡ file_byte oi d1 j
  file_byte-update j h =
      let b = ospfs_inode_blockno oi j d in
      let far : a ≢ (ospfs_block b * 4 + j % blksize) / 4 =
        λ e. apart.outside j h (ground (arith, ospfs_block_lem b (file.small j h))) in
      let same = update_ne d1 a v ((ospfs_block b * 4 + j % blksize) / 4) far in
      rw
        (
          blockno-SameMap file update-SameMap j,
          blockno-SameMap file (Agree-SameMap file agree) j,
          same,
        )
        refl

module _ {oi : ℕ} {d : Disk} (file : IsFile oi d) (whole : d (oi_size oi) % direntry_size ≡ 0)
    (src_ino src : ℕ) (name : Name) (is_name : IsName name) (short : length name ≤ maxnamelen)
    (apart : IsApart oi d (oi_nlink src)) (word : src_ino < 2 ^ 32) (used : src_ino ≢ 0) (k : ℕ)
    (inside : k * direntry_size < d (oi_size oi)) where
  abbrev linked : Disk
  linked = enter_link src_ino src name (nth_entry oi d k) d

  abbrev at : ℕ
  at = nth_entry oi d k

  linked_map : SameMap oi d linked
  unfolding enter_link
  linked_map =
      update-SameMap file (filled_lem file whole k inside src_ino name is_name short).0 apart _

  blocks : (j : ℕ) → ospfs_inode_blockno oi j linked ≡ ospfs_inode_blockno oi j d
  blocks j = blockno-SameMap file linked_map j

  linked_byte :
      (j : ℕ)
      → j < d (oi_size oi)
      → file_byte oi linked j ≡ filled_byte file whole k inside src_ino name is_name short j
  unfolding enter_link
  linked_byte j h =
      let p = filled_lem file whole k inside src_ino name is_name short in
      file_byte-update file p.0 apart _ j h ∙ p.1 j h

  linked_nlink : linked (oi_nlink src) ≡ add32 (d (oi_nlink src)) 1
  unfolding enter_link
  linked_nlink =
      let p = filled_lem file whole k inside src_ino name is_name short in
      rw
        (
          update_self (filled file whole k inside src_ino name is_name short) (oi_nlink src) _,
          p.0 (oi_nlink src) apart.outside,
        )
        refl

  -- The bytes of an entry after the link.
  entry_linked :
      (i b : ℕ)
      → i * direntry_size < d (oi_size oi)
      → b < direntry_size
      → byte linked (nth_entry oi d i + b)
        ≡ filled_byte file whole k inside src_ino name is_name short (i * direntry_size + b)
  entry_linked i b h lt =
      entry_byte file whole i h linked blocks b lt
      ∙ linked_byte (i * direntry_size + b) (omega (arith, whole))

  number_byte : (b : ℕ) → b < 4 → byte linked (at + b) ≡ src_ino / 256 ^ b % 256
  number_byte b h =
      let from = k * direntry_size in
      let hit : leb from (from + b) && ltb (from + b) (from + 4) ≡ true = ground arith in
      let index : from + b - from ≡ b = omega arith in
      entry_linked k b inside (omega arith) ∙ rw (hit, index) refl

  linked_ino : od_ino linked at ≡ src_ino
  unfolding od_ino
  linked_ino =
      let zero_lem : at + 0 ≡ at = omega arith in
      rw
        (
          rw zero_lem at (number_byte 0 (omega arith)),
          number_byte 1 (omega arith),
          number_byte 2 (omega arith),
          number_byte 3 (omega arith),
        )
        (omega (arith, word))

  name_linked : (i : ℕ) → i < length name → byte linked (at + 4 + i) ≡ name_byte name i
  name_linked i h =
      let from = k * direntry_size in
      let sum : at + (4 + i) ≡ at + 4 + i = omega arith in
      let miss : leb from (from + (4 + i)) && ltb (from + (4 + i)) (from + 4) ≡ false =
        ground arith in
      let hit : leb (from + 4) (from + (4 + i)) && ltb (from + (4 + i)) (from + 4 + length name)
          ≡ true =
        ground arith in
      let index : from + (4 + i) - (from + 4) ≡ i = omega arith in
      rw sum at (entry_linked k (4 + i) inside (omega (arith, short))) ∙ rw (miss, hit, index) refl

  end_linked : byte linked (at + 4 + length name) ≡ 0
  end_linked =
      let from = k * direntry_size in
      let n = length name in
      let sum : at + (4 + n) ≡ at + 4 + n = omega arith in
      let miss : leb from (from + (4 + n)) && ltb (from + (4 + n)) (from + 4) ≡ false =
        ground arith in
      let miss' : leb (from + 4) (from + (4 + n)) && ltb (from + (4 + n)) (from + 4 + n) ≡ false =
        ground arith in
      let hit : (from + (4 + n) == from + 4 + n) ≡ true = ground arith in
      rw sum at (entry_linked k (4 + n) inside (omega (arith, short))) ∙ rw (miss, miss', hit) refl

  linked_named : is_named name linked at ≡ true
  linked_named =
      is_named_lem linked name at (λ z. used (sym linked_ino ∙ z))
        (λ i h. (name_linked i h, (is_name i h).0)) end_linked

  -- The other entries are named as before.
  others_same :
      (i : ℕ)
      → i * direntry_size < d (oi_size oi)
      → i ≢ k
      → is_named name linked (nth_entry oi d i) ≡ is_named name d (nth_entry oi d i)
  others_same i h ne = is_named_same d linked name (nth_entry oi d i) λ b lt.
      let from = k * direntry_size in
      let j = i * direntry_size + b in
      let small : b < direntry_size = omega (arith, short) in
      let m0 : leb from j && ltb j (from + 4) ≡ false = ground arith in
      let m1 : leb (from + 4) j && ltb j (from + 4 + length name) ≡ false = ground arith in
      let m2 : (j == from + 4 + length name) ≡ false = ground arith in
      entry_linked i b h small
      ∙ rw (m0, m1, m2) (sym (entry_byte file whole i h d (λ j. refl) b small))

  nth_linked : (i : ℕ) → nth_entry oi linked i ≡ nth_entry oi d i
  unfolding ospfs_inode_data
  nth_linked i = rw (blocks (i * direntry_size)) refl

  linked_size : linked (oi_size oi) ≡ d (oi_size oi)
  linked_size = size-SameMap file linked_map

  -- No entry had the name before, so the search finds the new one.
  found :
      (o : Option ℕ)
      → First oi linked (is_named name linked) 0 o
      → ((i : ℕ) → i * direntry_size < d (oi_size oi) → is_named name d (nth_entry oi d i) ≡ false)
      → o ≡ some at
  found none f new =
      let clash : false ≡ true =
        sym (f k (omega arith) (rw linked_size inside)) ∙ rw (nth_linked k) linked_named in
      cc
  found (some e) (j, le, lt, eq, hit, before) new = elim (Bool-cases (j == k)) [
    | inl here ↦
        let same : j ≡ k = ground arith in ap some (eq ∙ nth_linked j ∙ ap (nth_entry oi d) same)
    | inr there ↦
        let other : j ≢ k = ground arith in
        let clash : false ≡ true =
          sym (others_same j (rw linked_size at lt) other ∙ new j (rw linked_size at lt))
          ∙ rw⁻¹ (eq ∙ nth_linked j) hit in
        cc
  ]

-- What `ospfs_link` returns: the new name leads to the entry, the entry to the source's inode, and the source
-- has a link more.
abbrev pub Links : (oi src_ino src : ℕ) → Name → (e : ℕ) → Disk → Option (Result × Disk) → Type 0
Links oi src_ino src name e d none = ⊥
Links oi src_ino src name e d (some (r, d')) =
    (r ≡ done)
    × (find_direntry oi name d' ≡ some e)
    × (od_ino d' e ≡ src_ino)
    × (d' (oi_nlink src) ≡ add32 (d (oi_nlink src)) 1)

module _ {oi : ℕ} {d : Disk} (file : IsFile oi d) (whole : d (oi_size oi) % direntry_size ≡ 0)
    (src_ino src : ℕ) (name : Name) (is_name : IsName name) (short : length name ≤ maxnamelen)
    (apart : IsApart oi d (oi_nlink src)) (word : src_ino < 2 ^ 32) (used : src_ino ≢ 0)
    (absent : First oi d (is_named name d) 0 none) where
  enter_link-Links :
      (e : ℕ)
      → First oi d (is_blank d) 0 (some e)
      → Links oi src_ino src name e d (some (done, enter_link src_ino src name e d))
  enter_link-Links e (k, le, inside, eq, was_blank, before) =
      let d' = linked file whole src_ino src name is_name short apart word used k inside in
      rw eq (
        refl,
        found file whole src_ino src name is_name short apart word used k inside
            (find_direntry oi name d') (find_direntry-First oi name d')
            (λ i h. absent i (omega arith) h),
        linked_ino file whole src_ino src name is_name short apart word used k inside,
        linked_nlink file whole src_ino src name is_name short apart word used k inside,
      )

-- In a directory of whole entries whose blocks hold data only, with a blank entry and no entry of the name, for
-- a name of at most 123 bytes, none of them 0, and a source whose link count does not lie in the directory: `ospfs_link` returns 0,
-- the new name leads to the first blank entry, that entry to the source's inode, and the source has a
-- link more.
pub ospfs_link-Links :
    (fuel dir_ino oi src_ino src e : ℕ) (name : Name) (d : Disk)
    → ospfs_inode d dir_ino ≡ some oi
    → ospfs_inode d src_ino ≡ some src
    → IsFile oi d
    → d (oi_size oi) % direntry_size ≡ 0
    → IsName name
    → length name ≤ maxnamelen
    → IsApart oi d (oi_nlink src)
    → src_ino < 2 ^ 32
    → src_ino ≢ 0
    → find_direntry oi name d ≡ none
    → first_entry (entries (d (oi_size oi))) (is_blank d) oi 0 d ≡ some e
    → Links oi src_ino src name e d (ospfs_link fuel src_ino dir_ino name d)
unfolding ospfs_link create_blank_direntry create_blank_with
ospfs_link-Links fuel dir_ino oi src_ino src e name d dir source file whole is_name short apart word
      used new blank =
    let fits : ltb maxnamelen (length name) ≡ false = ground arith in
    let first =
      rw blank at
        (first_entry-First oi d (is_blank d) (entries (d (oi_size oi))) 0 (omega arith)) in
    rw (fits, dir, new, blank, source)
      (enter_link-Links file whole src_ino src name is_name short apart word used
        (rw new at (find_direntry-First oi name d)) e first)
