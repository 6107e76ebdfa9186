-- ===== src/Ospfs/Dir/Entry.antt =====
-- `struct ospfs_direntry` of lab3/ospfs.h, and the search of a directory in lab3/ospfsmod.c.
use cs111fall.Prelude.{
  ℕ, zero, suc, ◌+◌, ◌-◌, ◌*◌, ◌/◌, ◌%◌, ◌^◌, Bool, true, ◌&&◌, not, Option, none, some, List, [],
  ◌∷◌, length, ltb, ◌==◌, if◌then◌else◌,
}
use cs111fall.Ospfs.Disk.{
  Disk, blkbitsize, add32, os_ninodes, ospfs_block, os_firstinob, oi_size, oi_nlink,
}
use cs111fall.Ospfs.Index.{ospfs_inode_data}
use cs111fall.Ospfs.Resize.{Status, success, enospc, eio, change_size}
use cs111fall.Ospfs.Read.{byte}
use cs111fall.Ospfs.Store.{store}

abbrev pub direntry_size : ℕ
direntry_size = 128

abbrev pub maxnamelen : ℕ
maxnamelen = direntry_size - 5

-- A name and its length, as in `struct qstr`: its bytes.
abbrev pub Name : Type 0
Name = List ℕ

-- The `od_ino` of the entry at the byte address `e`.
unfoldable pub od_ino : Disk → ℕ → ℕ
od_ino d e = byte d e + 256 * byte d (e + 1) + 65536 * byte d (e + 2) + 16777216 * byte d (e + 3)

unfoldable pub set_od_ino : ℕ → ℕ → Disk → Disk
set_od_ino e ino d = store e 4 (λ k. ino / 256 ^ k % 256) d

abbrev pub od_name : ℕ → ℕ
od_name e = e + 4

-- `strlen(s) == n`, and `memcmp(s, name, len) == 0`, for a string on the disk.
unfoldable pub strlen_is : Disk → ℕ → ℕ → Bool
strlen_is d s zero = byte d s == 0
strlen_is d s (suc n) = not (byte d s == 0) && strlen_is d (suc s) n

unfoldable pub memcmp_is : Disk → ℕ → Name → Bool
memcmp_is d s [] = true
memcmp_is d s (c ∷ rest) = (byte d s == c) && memcmp_is d (suc s) rest

-- The test of the three loops that look for a name.
unfoldable pub is_named : Name → Disk → ℕ → Bool
is_named name d e =
    not (od_ino d e == 0) && (strlen_is d (od_name e) (length name) && memcmp_is d (od_name e) name)

-- How many rounds the loop over a directory of this size has.
abbrev pub entries : ℕ → ℕ
entries size = (size + (direntry_size - 1)) / direntry_size

-- The first entry that passes a test, as the loops over a directory look for it.
unfoldable pub first_entry : ℕ → (ℕ → Bool) → (oi off : ℕ) → Disk → Option ℕ
first_entry zero test oi off d = none
first_entry (suc n) test oi off d =
    let rest = first_entry n test oi (off + direntry_size) d in
    let od = ospfs_inode_data oi off d in
    if ltb off (d (oi_size oi)) then (if test od then some od else rest) else none

-- The address of the entry with this name.
unfoldable pub find_direntry : (oi : ℕ) → Name → Disk → Option ℕ
find_direntry oi name d = first_entry (entries (d (oi_size oi))) (is_named name d) oi 0 d

-- A blank entry, or the error of `change_size`.
pub data Blank : Type 0 where
  entry : ℕ → Blank
  refused : Status → Blank

abbrev pub is_blank : Disk → ℕ → Bool
is_blank d e = od_ino d e == 0

-- The directory grows by `blkbitsize` bytes, and the second entry after its old end is the one that is used.
unfoldable pub create_blank_with : ℕ → (oi : ℕ) → Disk → Option ℕ → Option (Blank × Disk)
create_blank_with fuel oi d (some od) = some (entry od, d)
create_blank_with fuel oi d none = grown (change_size fuel oi (add32 (d (oi_size oi)) blkbitsize) d)
  where
    grown : Option (Status × Disk) → Option (Blank × Disk)
    grown none = none
    grown (some (success, d')) =
        some (entry (ospfs_inode_data oi (add32 direntry_size (d (oi_size oi))) d'), d')
    grown (some (enospc, d')) = some (refused enospc, d')
    grown (some (eio, d')) = some (refused eio, d')

unfoldable pub create_blank_direntry : (fuel oi : ℕ) → Disk → Option (Blank × Disk)
create_blank_direntry fuel oi d =
    create_blank_with fuel oi d (first_entry (entries (d (oi_size oi))) (is_blank d) oi 0 d)

-- The byte of a name at an index.
abbrev pub name_byte : Name → ℕ → ℕ
name_byte [] k = 0
name_byte (c ∷ rest) zero = c
name_byte (c ∷ rest) (suc k) = name_byte rest k

-- `memcpy(od->od_name, name, len); od->od_name[len] = '\0';`
unfoldable pub write_name : ℕ → Name → Disk → Disk
write_name e name d =
    store (od_name e + length name) 1 (λ k. 0) (store (od_name e) (length name) (name_byte name) d)

-- The first inode from 2 on that has no link, or 0.
unfoldable pub free_inode_from : ℕ → ℕ → Disk → ℕ
free_inode_from zero i d = 0
free_inode_from (suc n) i d =
    let rest = free_inode_from n (suc i) d in
    let oi = ospfs_block (os_firstinob d) + i * 16 in
    if ltb i (os_ninodes d) then (if d (oi_nlink oi) == 0 then i else rest) else 0

unfoldable pub find_free_inode : Disk → ℕ
find_free_inode d = free_inode_from (os_ninodes d) 2 d
