-- ===== src/Format/Program.antt =====
-- lab3/ospfsformat.c: the walk over a directory of the host (writedirectory), and main.
use cs111fall.Prelude.{
  ℕ, ◌+◌, ◌-◌, ◌/◌, ◌%◌, ◌^◌, Bool, true, false, ◌&&◌, ◌||◌, not, Option, none, some, List, [], ◌∷◌,
  ◌++◌, length, ltb, leb, ◌==◌, if◌then◌else◌,
}
use cs111fall.Ospfs.Disk.{blkbitsize, ftype_dir}
use cs111fall.Ospfs.Dir.Entry.{Name, name_byte}
use cs111fall.Format.Cache.{M, pure, abort, putblk, ◌>>=◌, ◌>>◌}
use cs111fall.Format.Cache.Flush.{flushdisk}
use cs111fall.Format.Image.{opendisk, finishfs}
use cs111fall.Format.Inodes.{Ptr, NewInode, get_word, set_word, allocinode, allocdirentry}
use cs111fall.Format.Files.{
  HostFile, entry_of, last_part, last_from, writefile, addsymlink, writesymlink,
}

-- A directory of the host, in the order of `readdir`. An entry that `lstat` fails for, or of another type, is
-- `other`; a directory that cannot be opened is `closed`.
mutual
  pub data HostEntry : Type 0 where
    file : Name → HostFile → HostEntry
    dir : Name → (mode : ℕ) → HostDir → HostEntry
    symlink : Name → (host_ino : ℕ) → Option Name → HostEntry
    other : HostEntry

  pub data HostDir : Type 0 where
    closed : HostDir
    no_more : HostDir
    entry : HostEntry → HostDir → HostDir

-- The directories that are not left out, by `ent_namlen` and the bytes of `d_name`.
unfoldable pub is_taken : Name → Bool
is_taken name =
    let len = length name in
    let c = name_byte name in
    (ltb 1 len || not (c 0 == b'.'))
    && (ltb 2 len || not (c 0 == b'.') || not (c 1 == b'.'))
    && (ltb 3 len || not (c 0 == b'C') || not (c 1 == b'V') || not (c 2 == b'S'))
    && (ltb 4 len
        || not (c 0 == b'.')
        || not (c 1 == b's')
        || not (c 2 == b'v')
        || not (c 3 == b'n'))
    && (ltb 4 len
        || not (c 0 == b'.')
        || not (c 1 == b'g')
        || not (c 2 == b'i')
        || not (c 3 == b't'))

abbrev pub ends_in_slash : Name → Bool
ends_in_slash [] = false
ends_in_slash (c ∷ []) = c == b'/'
ends_in_slash (c ∷ d ∷ rest) = ends_in_slash (d ∷ rest)

-- `pathbuf` with a `/` at its end; its size is not bounded here.
abbrev pub with_slash : Name → Name
with_slash path = if ends_in_slash path then path else path ++ (b'/' ∷ [])

-- A new directory: its entry's block, its inode's block and its inode.
unfoldable pub new_directory : (parent : Ptr) (path : Name) (mode : ℕ) → M (ℕ × ℕ × Ptr)
unfolding allocdirentry allocinode last_from
new_directory parent path mode = do
  r ← allocdirentry parent (last_part path)
  (dirb, de) ← entry_of r
  new ← allocinode (set_word de 0)
  links ← get_word parent 2
  set_word parent 2 ((links + 1) % 2 ^ 32)
  set_word new.inode 1 ftype_dir
  set_word new.inode 0 0
  set_word new.inode 2 1
  set_word new.inode 3 mode
  pure (dirb, new.block, new.inode)

abbrev pub is_closed : HostDir → Bool
is_closed closed = true
is_closed no_more = false
is_closed (entry e rest) = false

-- `writedirectory` around its loop, without `root`.
unfoldable pub write_subdirectory :
    HostDir → (parent : Ptr) (path : Name) (mode : ℕ) → (inner : Ptr → M (Unit {0})) → M (Unit {0})
unfolding new_directory putblk
write_subdirectory d parent path mode inner = if is_closed d then abort else do
  (dirb, inob, dirino) ← new_directory parent path mode
  inner dirino
  putblk dirb
  putblk inob

-- `writedirectory` without `root`, for a path, and its loop over the entries, for a `pathbuf` that ends in `/`.
unfoldable mutual
  pub write_entry : HostEntry → (dirino : Ptr) (pathbuf : Name) → M (Unit {0})
  write_entry (file name f) dirino pathbuf = writefile dirino (pathbuf ++ name) f
  write_entry (dir name mode d) dirino pathbuf =
      let inner = λ (ino : Ptr). write_entries d ino (with_slash (pathbuf ++ name)) in
      if is_taken name then write_subdirectory d dirino (pathbuf ++ name) mode inner else pure tt
  write_entry (symlink name host link) dirino pathbuf =
      writesymlink dirino (pathbuf ++ name) link host
  write_entry other dirino pathbuf = pure tt

  pub write_entries : HostDir → (dirino : Ptr) (pathbuf : Name) → M (Unit {0})
  write_entries closed dirino pathbuf = abort
  write_entries no_more dirino pathbuf = pure tt
  write_entries (entry e rest) dirino pathbuf = do
    write_entry e dirino pathbuf
    write_entries rest dirino pathbuf

-- `writedirectory` with `root`.
unfoldable pub write_root : HostDir → (rootino : Ptr) (path : Name) → M (Unit {0})
unfolding write_entries
write_root d rootino path = write_entries d rootino (with_slash path)

-- The options that were given before the other arguments; the links, the last first, are a source and a
-- destination.
pub record Options : Type 0 where
  pub contents : Bool
  pub links : List (Name × Name)

abbrev pub is_option : ℕ → Name → Bool
is_option o (d ∷ c ∷ []) = (d == b'-') && (c == o)
is_option o name = false

-- `strchr(s, c)`: what stands before and after the first `c`.
unfoldable pub split_at : ℕ → Name → Option (Name × Name)
split_at c [] = none
split_at c (x ∷ rest) = with_first (split_at c rest)
  where
    with_first : Option (Name × Name) → Option (Name × Name)
    with_first none = if x == c then some ([], rest) else none
    with_first (some (before, after)) = if x == c then some ([], rest) else some (x ∷ before, after)

-- `none` is `usage`.
unfoldable pub options : List Name → Options → Option (Options × List Name)
unfolding split_at
options [] o = some (o, [])
options (a ∷ []) o =
    if is_option b'V' a
    then some (o, [])
    else if is_option b'c' a
    then some (record o { contents = true }, [])
    else if is_option b'l' a
    then none
    else some (o, a ∷ [])
options (a ∷ b ∷ rest) o =
    let verbose = options (b ∷ rest) o in
    let by_contents = options (b ∷ rest) (record o { contents = true }) in
    let link = λ (l : Name × Name). options rest (record o { links = l ∷ o.links }) in
    if is_option b'V' a
    then verbose
    else if is_option b'c' a
    then by_contents
    else if is_option b'l' a
    then elim (split_at b':' b) [
      | none ↦ none
      | some l ↦ elim (split_at b'/' l.1) [ none ↦ link l | some _ ↦ none ]
    ]
    else some (o, a ∷ b ∷ rest)

-- What the program gets from the host: the numbers that `strtol` makes of two arguments, as words of 32 bits,
-- `none` for an argument that is no number, and either the directory after `-r` or the files.
pub data Sources : Type 0 where
  tree : (path : Name) → HostDir → Sources
  files : List (Name × HostFile) → Sources

-- The checks on the numbers of blocks and inodes.
abbrev pub are_sizes : (nblocks ninodes : ℕ) → Bool
are_sizes nblocks ninodes =
    not (ltb nblocks 2)
    && not (ltb 8192 nblocks)
    && not (ltb ninodes 2)
    && not (leb (nblocks - 2 - nblocks / blkbitsize) ninodes)

-- The loop that takes the inodes before the root's, of which there is one: `OSPFS_ROOT_INO` is 1.
unfoldable pub reserve_inode : M (Unit {0})
unfolding allocinode putblk
reserve_inode = do new ← allocinode (λ n. pure tt); set_word new.inode 2 1; putblk new.block

unfoldable pub make_root : M NewInode
unfolding allocinode
make_root = do
  root ← allocinode (λ n. pure tt)
  set_word root.inode 1 ftype_dir
  set_word root.inode 2 1
  set_word root.inode 3 511
  pure root

unfoldable pub write_files : List (Name × HostFile) → Ptr → M (Unit {0})
write_files [] rootino = pure tt
write_files ((path, f) ∷ rest) rootino = do
  writefile rootino path (record f { host_ino = 0; mode = 438 })
  write_files rest rootino

unfoldable pub write_sources : Sources → Ptr → M (Unit {0})
unfolding write_root write_files
write_sources (tree path d) rootino = write_root d rootino path
write_sources (files l) rootino = write_files l rootino

unfoldable pub write_links : List (Name × Name) → Ptr → M (Unit {0})
write_links [] rootino = pure tt
write_links ((source, destination) ∷ rest) rootino = do
  addsymlink rootino destination source 0
  write_links rest rootino

-- `main` after its options.
unfoldable pub format : Sources → List (Name × Name) → M (Unit {0})
unfolding opendisk reserve_inode make_root write_sources write_links finishfs flushdisk putblk
format sources links = do
  opendisk
  reserve_inode
  root ← make_root
  write_sources sources root.inode
  write_links links root.inode
  putblk root.block
  finishfs
  flushdisk

-- `main` with the number of blocks and inodes that it is given.
unfoldable pub main : (nblocks ninodes : Option ℕ) → Sources → Options → M (Unit {0})
unfolding format
main none ninodes sources o s = none
main (some nblocks) none sources o s = none
main (some nblocks) (some ninodes) sources o s =
    if are_sizes nblocks ninodes
    then format sources o.links
        (record s { nblocks = nblocks; ninodes = ninodes; link_contents = o.contents })
    else none
