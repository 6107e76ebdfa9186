-- ===== src/Ospfs/Dir/Search.antt =====
-- What the search of a directory in lab3/ospfsmod.c (find_direntry) finds, by the bytes of its entries.
use cs111fall.Prelude.{
  ℕ, zero, suc, ◌+◌, ◌*◌, ◌<◌, ◌≡◌, refl, ◌≢◌, ◌⊎◌, true, false, Option, none, some, [], ◌∷◌,
  length, arith, ◌==◌, not,
}
use cs111fall.Ospfs.Disk.{Disk, oi_size}
use cs111fall.Ospfs.Read.{byte}
use cs111fall.Ospfs.Dir.Entry.{
  Name, od_ino, strlen_is, memcmp_is, is_named, name_byte, find_direntry,
}
use cs111fall.Ospfs.Dir.Found.{nth_entry, First, find_direntry-First}

-- The bytes at `s` are the name, none of them is 0, and a byte 0 follows.
pub record IsString (d : Disk) (s : ℕ) (name : Name) : Type 0 where
  pub bytes : (k : ℕ) → k < length name → byte d (s + k) ≡ name_byte name k
  pub ne_null : (k : ℕ) → k < length name → byte d (s + k) ≢ 0
  pub stop : byte d (s + length name) ≡ 0

-- The entry at `e` has an inode number other than 0, in its first four bytes, and the name in those after them.
pub record HasName (name : Name) (d : Disk) (e : ℕ) : Type 0 where
  pub in_use : (byte d e ≢ 0) ⊎ (byte d (e + 1) ≢ 0) ⊎ (byte d (e + 2) ≢ 0) ⊎ (byte d (e + 3) ≢ 0)
  pub name_is : IsString d (e + 4) name

module _ (d : Disk) where
  IsString-tail : (c : ℕ) (name : Name) (s : ℕ) → IsString d s (c ∷ name) → IsString d (suc s) name
  IsString-tail c name s h = record {
    bytes = λ k q. ground (arith, h.bytes (suc k));
    ne_null = λ k q. ground (arith, h.ne_null (suc k));
    stop = ground (arith, h.stop);
  }

  -- The two tests of the code hold for a string with just these bytes.
  IsString-tests :
      (name : Name) (s : ℕ)
      → IsString d s name
      → (strlen_is d s (length name) ≡ true) × (memcmp_is d s name ≡ true)
  unfolding strlen_is memcmp_is
  IsString-tests [] s h = let z = h.stop in (ground arith, refl)
  IsString-tests (c ∷ name) s h =
      let (len, same) = IsString-tests name (suc s) (IsString-tail c name s h) in
      let used = h.ne_null 0 (omega arith) in
      let eq = h.bytes 0 (omega arith) in (ground arith, ground arith)

  module _ (c : ℕ) (name : Name) (s : ℕ) (eq : byte d s ≡ c) (used : byte d s ≢ 0)
      (h : IsString d (suc s) name) where
    cons_bytes : (k : ℕ) → k < suc (length name) → byte d (s + k) ≡ name_byte (c ∷ name) k
    cons_bytes zero q = ground arith
    cons_bytes (suc i) q = ground (arith, h.bytes i)

    cons_used : (k : ℕ) → k < suc (length name) → byte d (s + k) ≢ 0
    cons_used zero q = ground arith
    cons_used (suc i) q = ground (arith, h.ne_null i)

    IsString-cons : IsString d s (c ∷ name)
    IsString-cons = record {
      bytes = cons_bytes;
      ne_null = cons_used;
      stop = ground (arith, h.stop);
    }

  -- They hold for no other string.
  tests-IsString :
      (name : Name) (s : ℕ)
      → strlen_is d s (length name) ≡ true
      → memcmp_is d s name ≡ true
      → IsString d s name
  unfolding strlen_is memcmp_is
  tests-IsString [] s len same = record {
    bytes = λ k q. absurd (omega arith);
    ne_null = λ k q. absurd (omega arith);
    stop = ground arith;
  }
  tests-IsString (c ∷ name) s len same =
      let rest = tests-IsString name (suc s) (ground arith) (ground arith) in
      let used : byte d s ≢ 0 = ground arith in
      let eq : byte d s ≡ c = ground arith in IsString-cons c name s eq used rest

  HasName-is_named : (name : Name) (e : ℕ) → HasName name d e → is_named name d e ≡ true
  unfolding is_named od_ino
  HasName-is_named name e h =
      let (len, same) = IsString-tests name (e + 4) h.name_is in
      let used : not (od_ino d e == 0) ≡ true = unfold od_ino in ground (arith, h.in_use) in
      rw (used, len, same) refl

  is_named-HasName : (name : Name) (e : ℕ) → is_named name d e ≡ true → HasName name d e
  unfolding is_named od_ino
  is_named-HasName name e h = record {
    in_use = ground arith;
    name_is = tests-IsString name (e + 4) (ground arith) (ground arith);
  }

-- No entry of the directory has the name, or the result is the address of the first that has it.
abbrev pub Finds : (oi : ℕ) → Disk → Name → Option ℕ → Type 0
Finds oi d name none = (j : ℕ) → j * 128 < d (oi_size oi) → ¬ HasName name d (nth_entry oi d j)
Finds oi d name (some e) =
    (j : ℕ) × (j * 128 < d (oi_size oi))
    × (e ≡ nth_entry oi d j)
    × HasName name d e
    × ((i : ℕ) → i < j → ¬ HasName name d (nth_entry oi d i))

module _ (oi : ℕ) (d : Disk) (name : Name) where
  unnamed : (e : ℕ) → is_named name d e ≡ false → ¬ HasName name d e
  unnamed e miss h = let hit = HasName-is_named d name e h in ground arith

  First-Finds : (o : Option ℕ) → First oi d (is_named name d) 0 o → Finds oi d name o
  First-Finds none f = λ j lt. unnamed (nth_entry oi d j) (f j (omega arith) lt)
  First-Finds (some e) (j, le, lt, at, hit, before) = (
    j,
    lt,
    at,
    is_named-HasName d name e hit,
    λ i q. unnamed (nth_entry oi d i) (before i (omega arith) q),
  )

  -- `find_direntry` returns the first entry of the directory with an inode number other than 0 and just the bytes of
  -- the name, which has no byte 0, before a byte 0; or no entry of the directory has them.
  pub find_direntry-Finds : Finds oi d name (find_direntry oi name d)
  find_direntry-Finds = First-Finds (find_direntry oi name d) (find_direntry-First oi name d)
