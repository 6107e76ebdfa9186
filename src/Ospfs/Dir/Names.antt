-- ===== src/Ospfs/Dir/Names.antt =====
-- lab3/ospfsmod.c: the operations that add and remove names, follow symbolic links and change attributes.
use cs111fall.Prelude.{
  ℕ, zero, suc, ◌+◌, ◌-◌, ◌*◌, Bool, ◌&&◌, ◌||◌, not, Option, none, some, [], ◌∷◌, length, ltb,
  ◌==◌, if◌then◌else◌, update,
}
use cs111fall.Ospfs.Disk.{
  Disk, add32, sub32, ospfs_inode, oi_size, oi_ftype, oi_nlink, oi_mode, ftype_reg, ftype_symlink,
}
use cs111fall.Ospfs.Index.{ospfs_inode_data}
use cs111fall.Ospfs.Resize.{Status, success, enospc, eio, change_size}
use cs111fall.Ospfs.Store.{store}
use cs111fall.Ospfs.Dir.Entry.{
  Name, direntry_size, maxnamelen, set_od_ino, is_named, entries, find_direntry, Blank, entry,
  refused, create_blank_direntry, name_byte, write_name, find_free_inode,
}

-- What an operation returns: 0, an error, or the end of the kernel at a null pointer.
pub data Result : Type 0 where
  done : Result
  name_too_long : Result
  exists : Result
  no_entry : Result
  no_space : Result
  no_memory : Result
  no_permission : Result
  io_error : Result
  null_pointer : Result

abbrev pub of_status : Status → Result
of_status success = done
of_status enospc = no_space
of_status eio = io_error

-- A pointer that the code uses without a test.
abbrev pub deref {ℓ} :
    {A : Type ℓ} → Disk → Option A → (A → Option (Result × Disk)) → Option (Result × Disk)
deref d none k = some (null_pointer, d)
deref d (some a) k = k a

-- `link = create_blank_direntry(...); if (IS_ERR(link)) return PTR_ERR(link);` and the name's entry.
abbrev pub new_entry :
    Option (Blank × Disk) → (ℕ → Disk → Option (Result × Disk)) → Option (Result × Disk)
new_entry none k = none
new_entry (some (entry e, d)) k = k e d
new_entry (some (refused r, d)) k = some (of_status r, d)

-- The test whether the name is there, before an operation goes on.
abbrev pub unless_found : Option ℕ → Disk → Option (Result × Disk) → Option (Result × Disk)
unless_found none d o = o
unless_found (some e) d o = some (exists, d)

-- The entry gets its inode and its name, and the source a link more.
unfoldable pub enter_link : (src_ino src : ℕ) → Name → ℕ → Disk → Disk
enter_link src_ino src name e d =
    let d1 = write_name e name (set_od_ino e src_ino d) in
    update d1 (oi_nlink src) (add32 (d1 (oi_nlink src)) 1)

-- `none` is that the fuel ran out.
unfoldable pub ospfs_link : (fuel src_ino dir_ino : ℕ) → Name → Disk → Option (Result × Disk)
ospfs_link fuel src_ino dir_ino name d =
    if ltb maxnamelen (length name)
    then some (name_too_long, d)
    else deref d (ospfs_inode d dir_ino) λ dir_oi. unless_found (find_direntry dir_oi name d) d (
        new_entry (create_blank_direntry fuel dir_oi d) λ e d1.
          deref d1 (ospfs_inode d1 src_ino) λ src. some (done, enter_link src_ino src name e d1))

-- The inode of a new regular file.
unfoldable pub init_file : (oi mode : ℕ) → Disk → Disk
init_file oi mode d =
    update (update (update (update d (oi_size oi) 0) (oi_ftype oi) ftype_reg) (oi_nlink oi) 1)
      (oi_mode oi) mode

-- The name is cut to `maxnamelen` bytes.
abbrev pub cut : ℕ → Name → Name
cut zero name = []
cut (suc n) [] = []
cut (suc n) (c ∷ rest) = c ∷ cut n rest

-- `new_inode` is whether Linux gives an inode for the new file.
unfoldable pub ospfs_create :
    (fuel : ℕ) (new_inode : Bool) (dir_ino mode : ℕ) → Name → Disk → Option (Result × Disk)
ospfs_create fuel new_inode dir_ino mode name d = in_dir (ospfs_inode d dir_ino)
  where
    made : ℕ → ℕ → Disk → Option (Result × Disk)
    made ino e d1 = some (
      if new_inode then done else no_memory,
      write_name e (cut maxnamelen name) (set_od_ino e ino d1),
    )

    with_inode : ℕ → ℕ → Option ℕ → Option (Result × Disk)
    with_inode dir_oi ino none = some (null_pointer, d)
    with_inode dir_oi ino (some oi) =
        new_entry (create_blank_direntry fuel dir_oi (init_file oi mode d)) (made ino)

    in_dir : Option ℕ → Option (Result × Disk)
    in_dir none = some (io_error, d)
    in_dir (some dir_oi) =
        let ino = find_free_inode d in
        unless_found (find_direntry dir_oi name d) d
          (if ino == 0 then some (no_space, d) else with_inode dir_oi ino (ospfs_inode d ino))

abbrev pub maxsymlinklen : ℕ
maxsymlinklen = 64 - 13

-- The byte address of `oi_symlink`.
abbrev pub oi_symlink : ℕ → ℕ
oi_symlink oi = oi * 4 + 12

-- The inode of a new symbolic link; the destination is copied without its end.
unfoldable pub init_symlink : ℕ → Name → Disk → Disk
init_symlink oi symname d = store (oi_symlink oi) (length symname) (name_byte symname) (
    update (update (update d (oi_size oi) (length symname)) (oi_nlink oi) 1) (oi_ftype oi)
      ftype_symlink)

unfoldable pub ospfs_symlink :
    (fuel : ℕ) (new_inode : Bool) (dir_ino : ℕ) (name symname : Name)
    → Disk
    → Option (Result × Disk)
ospfs_symlink fuel new_inode dir_ino name symname d = in_dir (ospfs_inode d dir_ino)
  where
    made : ℕ → ℕ → Disk → Option (Result × Disk)
    made ino e d1 =
        some (if new_inode then done else no_memory, write_name e name (set_od_ino e ino d1))

    with_inode : ℕ → ℕ → Option ℕ → Option (Result × Disk)
    with_inode dir_oi ino none = some (null_pointer, d)
    with_inode dir_oi ino (some oi) =
        new_entry (create_blank_direntry fuel dir_oi (init_symlink oi symname d)) (made ino)

    in_dir : Option ℕ → Option (Result × Disk)
    in_dir none = some (io_error, d)
    in_dir (some dir_oi) =
        let ino = find_free_inode d in
        if ltb maxnamelen (length name) || ltb maxsymlinklen (length symname)
        then some (name_too_long, d)
        else unless_found (find_direntry dir_oi name d) d
            (if ino == 0 then some (no_space, d) else with_inode dir_oi ino (ospfs_inode d ino))

-- The loop of `ospfs_unlink`: the offset where it stops, and the last entry that it looked at.
unfoldable pub unlink_from : ℕ → Name → (oi off : ℕ) → Option ℕ → Disk → ℕ × Option ℕ
unlink_from zero name oi off od d = (off, od)
unlink_from (suc n) name oi off od d =
    let od' = ospfs_inode_data oi off d in
    let rest = unlink_from n name oi (off + direntry_size) (some od') d in
    if ltb off (d (oi_size oi))
    then (if is_named name d od' then (off, some od') else rest)
    else (off, od)

-- The entry is blank and its inode has a link less; a file without links gives its blocks back.
unfoldable pub drop_link : (fuel oi od : ℕ) → Disk → Option (Result × Disk)
drop_link fuel oi od d =
    let d1 = set_od_ino od 0 d in
    let d2 = update d1 (oi_nlink oi) (sub32 (d1 (oi_nlink oi)) 1) in
    if not (d2 (oi_ftype oi) == ftype_symlink) && (d2 (oi_nlink oi) == 0)
    then emptied (change_size fuel oi 0 d2)
    else some (done, d2)
  where
    -- What `change_size` returns is not looked at.
    emptied : Option (Status × Disk) → Option (Result × Disk)
    emptied none = none
    emptied (some (r, d3)) = some (done, d3)

unfoldable pub ospfs_unlink : (fuel ino dir_ino : ℕ) → Name → Disk → Option (Result × Disk)
ospfs_unlink fuel ino dir_ino name d = deref d (ospfs_inode d dir_ino) λ dir_oi.
    let (off, od) = unlink_from (entries (d (oi_size dir_oi))) name dir_oi 0 none d in
    if off == d (oi_size dir_oi)
    then some (no_entry, d)
    else deref d od λ e. deref (set_od_ino e 0 d) (ospfs_inode d ino) λ oi. drop_link fuel oi e d
