-- ===== src/Ospfs/Dir/Lookup.antt =====
-- lab3/ospfsmod.c: the operations that look names up, list them, follow links and change attributes.
use Prim.Native.Nat.{bit_or}
use cs111fall.Prelude.{
  ℕ, zero, suc, ◌+◌, ◌-◌, ◌%◌, ◌^◌, Bool, ◌&&◌, not, Option, none, some, List, [], ◌∷◌, length, ltb,
  leb, ◌==◌, if◌then◌else◌, update,
}
use cs111fall.Ospfs.Disk.{
  Disk, add32, sub32, ospfs_inode, oi_size, oi_ftype, oi_nlink, oi_mode, ftype_reg, ftype_dir,
  ftype_symlink,
}
use cs111fall.Ospfs.Index.{ospfs_inode_data}
use cs111fall.Ospfs.Resize.{Status, success, enospc, eio, change_size}
use cs111fall.Ospfs.Read.{byte}
use cs111fall.Ospfs.Store.{store}
use cs111fall.Ospfs.Dir.Entry.{Name, maxnamelen, od_ino, od_name, find_direntry, memcmp_is}
use cs111fall.Ospfs.Dir.Names.{Result, no_permission, oi_symlink, of_status}

-- The members of Linux's `struct inode` that are set.
pub record LinuxInode : Type 0 where
  pub i_ino : ℕ
  pub i_size : ℕ
  pub i_mode : ℕ
  pub i_nlink : ℕ

-- A null pointer, an inode, or the end of the kernel.
pub data Made : Type 0 where
  null : Made
  made : LinuxInode → Made
  panic : Made

-- S_IFREG, S_IFDIR, and S_IFLNK with all permissions, as POSIX numbers them.
abbrev pub s_ifreg : ℕ
s_ifreg = 0x8000

abbrev pub s_ifdir : ℕ
s_ifdir = 0x4000

abbrev pub link_mode : ℕ
link_mode = 0xa1ff

-- `new_inode` is whether Linux gives an inode.
unfoldable pub ospfs_mk_linux_inode : (new_inode : Bool) → ℕ → Disk → Made
ospfs_mk_linux_inode new_inode ino d = at (ospfs_inode d ino)
  where
    at : Option ℕ → Made
    at none = null
    at (some oi) =
        let inode : ℕ → ℕ → Made = λ mode nlink.
          made (record { i_ino = ino; i_size = d (oi_size oi); i_mode = mode; i_nlink = nlink }) in
        if not new_inode
        then null
        else if d (oi_ftype oi) == ftype_reg
        then inode (bit_or (d (oi_mode oi)) s_ifreg) (d (oi_nlink oi))
        else if d (oi_ftype oi) == ftype_dir
        then inode (bit_or (d (oi_mode oi)) s_ifdir) (add32 (d (oi_nlink oi)) 1)
        else if d (oi_ftype oi) == ftype_symlink
        then inode link_mode (d (oi_nlink oi))
        else panic

-- A dentry with an inode, one without, or an error.
pub data Looked : Type 0 where
  positive : LinuxInode → Looked
  negative : Looked
  too_long : Looked
  invalid : Looked
  panicked : Looked

unfoldable pub ospfs_dir_lookup : (new_inode : Bool) → (dir_oi : ℕ) → Name → Disk → Looked
ospfs_dir_lookup new_inode dir_oi name d =
    if ltb maxnamelen (length name) then too_long else at (find_direntry dir_oi name d)
  where
    of_made : Made → Looked
    of_made null = invalid
    of_made (made i) = positive i
    of_made panic = panicked

    at : Option ℕ → Looked
    at none = negative
    at (some od) = of_made (ospfs_mk_linux_inode new_inode (od_ino d od) d)

-- A call of `filldir`: the address of the name, or of none for the two first entries, the position, the
-- inode and whether it is a directory.
pub record Listed : Type 0 where
  pub name : Option ℕ
  pub pos : ℕ
  pub ino : ℕ
  pub type : ℕ

-- What one round of the loop makes of an entry: nothing, a call of `filldir`, or an unknown type.
pub data Round : Type 0 where
  skipped : Round
  listed : Listed → Round
  unknown_type : Round

unfoldable pub read_entry : (dir_oi f_pos : ℕ) → Disk → Round
read_entry dir_oi f_pos d = at (ospfs_inode d (od_ino d od))
  where
    od : ℕ
    od = ospfs_inode_data dir_oi (f_pos - 2) d

    at : Option ℕ → Round
    at none = skipped
    at (some oi) =
        if not (od_ino d od == 0) && not (d (oi_nlink oi) == 0)
        then (if leb (d (oi_ftype oi)) 2
            then listed (record {
              name = some (od_name od);
              pos = f_pos;
              ino = od_ino d od;
              type = d (oi_ftype oi);
            })
            else unknown_type)
        else skipped

module _ (filldir : Listed → Bool) (dir_oi : ℕ) (d : Disk) where
  -- The returned value, the position and the calls of `filldir`. The position goes on by one byte.
  unfoldable pub readdir_loop : ℕ → ℕ → Option (ℕ × ℕ × List Listed)
  readdir_loop zero f_pos = none
  readdir_loop (suc fuel) f_pos =
      let rest = readdir_loop fuel (add32 f_pos 1) in
      let at_end = leb (d (oi_size dir_oi)) (sub32 (add32 f_pos 1) 2) in
      if leb 2 f_pos then after (read_entry dir_oi f_pos d) rest at_end else some (0, f_pos, [])
    where
      also : Listed → Option (ℕ × ℕ × List Listed) → Option (ℕ × ℕ × List Listed)
      also l none = none
      also l (some (r, p, ls)) = some (r, p, l ∷ ls)

      after : Round → Option (ℕ × ℕ × List Listed) → Bool → Option (ℕ × ℕ × List Listed)
      after skipped rest at_end = if at_end then some (1, add32 f_pos 1, []) else rest
      after unknown_type rest at_end = some (1, add32 f_pos 1, [])
      after (listed l) rest at_end =
          if filldir l
          then also l (if at_end then some (1, add32 f_pos 1, []) else rest)
          else some (1, f_pos, l ∷ [])

  abbrev also : Listed → Option (ℕ × ℕ × List Listed) → Option (ℕ × ℕ × List Listed)
  also l none = none
  also l (some (r, p, ls)) = some (r, p, l ∷ ls)

  -- The entries for the directory and its parent come first; then the loop.
  unfoldable pub ospfs_dir_readdir :
      (fuel dir_ino parent_ino f_pos : ℕ) → Option (ℕ × ℕ × List Listed)
  ospfs_dir_readdir fuel dir_ino parent_ino f_pos =
      let dot : Listed = record { name = none; pos = 0; ino = dir_ino; type = ftype_dir } in
      let dotdot : Listed = record { name = none; pos = 1; ino = parent_ino; type = ftype_dir } in
      let from_dotdot : Option (ℕ × ℕ × List Listed) =
        if filldir dotdot then also dotdot (readdir_loop fuel 2) else some (0, 1, dotdot ∷ []) in
      if f_pos == 0
      then (if filldir dot then also dot from_dotdot else some (0, 0, dot ∷ []))
      else if f_pos == 1
      then from_dotdot
      else readdir_loop fuel f_pos

-- `strchr` from an address on, with fuel for the length of the string.
unfoldable pub strchr : ℕ → Disk → (c s : ℕ) → Option ℕ
strchr zero d c s = none
strchr (suc n) d c s =
    let rest = strchr n d c (suc s) in
    if byte d s == c then some s else if byte d s == 0 then none else rest

-- The address of the text that `nd_set_link` gets. A condition without a colon has none, where the code
-- computes with a null pointer; for the user 0 the colon is overwritten on the disk.
unfoldable pub ospfs_follow_link : (fuel uid oi : ℕ) → Disk → Option ℕ × Disk
ospfs_follow_link fuel uid oi d =
    if memcmp_is d (oi_symlink oi) (114 ∷ 111 ∷ 111 ∷ 116 ∷ 63 ∷ [])
    then conditional (strchr fuel d 58 (oi_symlink oi))
    else (some (oi_symlink oi), d)
  where
    conditional : Option ℕ → Option ℕ × Disk
    conditional none = (none, d)
    conditional (some colon) =
        if uid == 0
        then (some (oi_symlink oi + 5), store colon 1 (λ k. 0) d)
        else (some (suc colon), d)

-- `allowed` is what `inode_change_ok` and `inode_setattr` return; size and mode are given if they are to change.
unfoldable pub ospfs_notify_change :
    (fuel : ℕ) (allowed : Result) (oi : ℕ) (size mode : Option ℕ) → Disk → Option (Result × Disk)
ospfs_notify_change fuel allowed oi size mode d = resize size
  where
    set_mode : Option ℕ → Disk → Disk
    set_mode none d1 = d1
    set_mode (some mode) d1 = update d1 (oi_mode oi) mode

    after : Option (Status × Disk) → Option (Result × Disk)
    after none = none
    after (some (success, d1)) = some (allowed, set_mode mode d1)
    after (some (enospc, d1)) = some (of_status enospc, d1)
    after (some (eio, d1)) = some (of_status eio, d1)

    resize : Option ℕ → Option (Result × Disk)
    resize none = after (some (success, d))
    resize (some new) =
        if d (oi_ftype oi) == ftype_dir
        then some (no_permission, d)
        else after (change_size fuel oi (new % 2 ^ 32) d)
