-- ===== src/Format/Inodes.antt =====
-- lab3/ospfsformat.c: the blocks of a file, new inodes and directory entries, and hard links. An inode and an
-- entry are written through a pointer into a block of the cache.
use cs111fall.Prelude.{
  ℕ, zero, suc, ◌+◌, ◌-◌, ◌*◌, ◌/◌, ◌%◌, ◌^◌, Bool, true, false, ◌&&◌, ◌||◌, not, Option, none,
  some, List, [], ◌∷◌, length, ltb, leb, ◌==◌, if◌then◌else◌, update,
}
use cs111fall.Ospfs.Disk.{blksize, ndirect, nindirect, maxfileblks}
use cs111fall.Ospfs.Dir.Entry.{Name, name_byte, maxnamelen}
use cs111fall.Ospfs.Store.{store}
use cs111fall.Format.Blocks.{Words, block_dir, block_bits, block_inodes}
use cs111fall.Format.Cache.{Hardlink, M, pure, abort, getblk, putblk, modify, ◌>>=◌, ◌>>◌}
use cs111fall.Format.Image.{blkinodes}

-- A pointer into the block of an entry of the cache, by words.
pub record Ptr : Type 0 where
  pub slot : ℕ
  pub off : ℕ

abbrev pub get_word : Ptr → ℕ → M ℕ
get_word p k s = some ((s.cache p.slot).u (p.off + k), s)

abbrev pub set_word : Ptr → ℕ → ℕ → M (Unit {0})
unfolding modify
set_word p k v = modify p.slot (λ u. update u (p.off + k) v)

abbrev pub bno_of : ℕ → M ℕ
bno_of b s = some ((s.cache b).bno, s)

abbrev pub start_of : ℕ → Ptr
start_of b = record { slot = b; off = 0 }

-- `nextb++`.
unfoldable pub take_nextb : M ℕ
take_nextb s = some (s.nextb, record s { nextb = (s.nextb + 1) % 2 ^ 32 })

-- A new block of pointers, which a word is made to name.
unfoldable pub new_table : Ptr → ℕ → M ℕ
unfolding take_nextb getblk
new_table p k = do
  n ← take_nextb
  t ← getblk n true block_bits
  m ← bno_of t
  set_word p k m
  pure t

-- The block of pointers that a word names, which is made if the word is 0.
unfoldable pub table_at : Ptr → ℕ → M ℕ
unfolding new_table getblk
table_at p k = do v ← get_word p k; (if v == 0 then new_table p k else getblk v false block_bits)

-- The blocks up to the last under `oi_indirect2` are numbered from 0.
unfoldable pub storeblk : (ino : Ptr) (b nblk : ℕ) → M (Unit {0})
unfolding table_at putblk
storeblk ino b nblk =
    let off = nblk - (ndirect + nindirect) in
    if ltb nblk ndirect
    then (do n ← bno_of b; set_word ino (4 + nblk) n)
    else if ltb nblk (ndirect + nindirect)
    then (do t ← table_at ino 14; n ← bno_of b; set_word (start_of t) (nblk - ndirect) n; putblk t)
    else if ltb nblk maxfileblks
    then (do
      t2 ← table_at ino 15
      t ← table_at (start_of t2) (off / nindirect)
      n ← bno_of b
      set_word (start_of t) (off % nindirect) n
      putblk t
      putblk t2)
    else abort

-- `put` is the write through the pointer `ino`; the result is the number, the block and the inode.
pub record NewInode : Type 0 where
  pub number : ℕ
  pub block : ℕ
  pub inode : Ptr

unfoldable pub take_inode : M ℕ
take_inode s =
    if s.nextinode == s.ninodes
    then none
    else some (s.nextinode, record s { nextinode = (s.nextinode + 1) % 2 ^ 32 })

abbrev pub first_inode_block : M ℕ
first_inode_block s = some (s.super.os_firstinob, s)

unfoldable pub inode_block : ℕ → M ℕ
unfolding getblk
inode_block n = do first ← first_inode_block; getblk (first + n / blkinodes) false block_inodes

abbrev pub inode_in : ℕ → ℕ → Ptr
inode_in ib n = record { slot = ib; off = n % blkinodes * 16 }

unfoldable pub allocinode : (put : ℕ → M (Unit {0})) → M NewInode
unfolding take_inode inode_block
allocinode put = do
  n ← take_inode
  put n
  ib ← inode_block n
  pure (record { number = n; block = ib; inode = inode_in ib n })

-- The last block of a directory of `n + 1` blocks.
unfoldable pub dir_block : (dirino : Ptr) (n : ℕ) → M ℕ
unfolding getblk putblk
dir_block dirino n =
    let off = n - (ndirect + nindirect) in
    if leb (ndirect + nindirect) n
    then (do
      i2 ← get_word dirino 15
      bindir2 ← getblk i2 false block_bits
      i ← get_word (start_of bindir2) (off / nindirect)
      bindir ← getblk i false block_bits
      d ← get_word (start_of bindir) (off % nindirect)
      dirb ← getblk d false block_dir
      putblk bindir
      putblk bindir2
      pure dirb)
    else if leb ndirect n
    then (do
      i ← get_word dirino 14
      bindir ← getblk i false block_bits
      d ← get_word (start_of bindir) (n - ndirect)
      dirb ← getblk d false block_dir
      putblk bindir
      pure dirb)
    else (do d ← get_word dirino (4 + n); getblk d false block_dir)

-- The first entry from `i` on without an inode; an entry has 32 words.
unfoldable pub blank_from : (rounds i : ℕ) → Words → Option ℕ
blank_from zero i u = none
blank_from (suc n) i u =
    let rest = blank_from n (suc i) u in if u (32 * i) == 0 then some i else rest

-- A new last block, which has number `n` in the directory; the `assert` aborts.
unfoldable pub new_dir_block : (dirino : Ptr) (n : ℕ) → M ℕ
unfolding take_nextb getblk storeblk
new_dir_block dirino n = do
  m ← take_nextb
  dirb ← getblk m true block_dir
  modify dirb (λ u w. if w % 32 == 0 then 0 else u w)
  storeblk dirino dirb n
  size ← get_word dirino 0
  set_word dirino 0 ((size + blksize) % 2 ^ 32)
  if (n + 1) * blksize == (size + blksize) % 2 ^ 32 then pure dirb else abort

-- `strcpy(od->od_name, name)`; the entry's block and the entry.
unfoldable pub name_entry : (dirb i : ℕ) → Name → M (ℕ × Ptr)
unfolding modify
name_entry dirb i name = do
  modify dirb (store (128 * i + 4) (length name + 1) (name_byte name))
  pure (dirb, record { slot = dirb; off = 32 * i })

-- What is done with the last block: a blank entry of it is used, or a new block's first.
unfoldable pub entry_or_new : (dirino : Ptr) (n dirb : ℕ) → Name → Option ℕ → M (ℕ × Ptr)
unfolding new_dir_block name_entry
entry_or_new dirino n dirb name (some i) = name_entry dirb i name
entry_or_new dirino n dirb name none = do
  putblk dirb
  dirb' ← new_dir_block dirino n
  name_entry dirb' 0 name

abbrev pub blank_in : ℕ → M (Option ℕ)
unfolding blank_from
blank_in dirb s = some (blank_from 8 0 (s.cache dirb).u, s)

-- `none` is the null pointer for a name that is too long.
unfoldable pub allocdirentry : (dirino : Ptr) → Name → M (Option (ℕ × Ptr))
unfolding dir_block entry_or_new
allocdirentry dirino name = if ltb maxnamelen (length name) then pure none else do
  size ← get_word dirino 0
  let n = (size + blksize - 1) % 2 ^ 32 / blksize
  r ←
      (if n == 0 then (do dirb ← new_dir_block dirino 0; name_entry dirb 0 name) else (do
        dirb ← dir_block dirino (n - 1)
        blank ← blank_in dirb
        entry_or_new dirino n dirb name blank))
  pure (some r)

-- The test of `get_hardlink`; `digest` is none for a null pointer.
abbrev pub is_link : (link_contents : Bool) (host_ino : ℕ) (digest : Option ℕ) → Hardlink → Bool
is_link contents host none l = not (host == 0) && (l.host_ino == host)
is_link contents host (some d) l =
    (not (host == 0) && (l.host_ino == host)) || (contents && (l.md5_digest == d))

unfoldable pub get_hardlink : Bool → (host_ino : ℕ) → Option ℕ → List Hardlink → ℕ
get_hardlink contents host digest [] = 0
get_hardlink contents host digest (l ∷ rest) =
    let later = get_hardlink contents host digest rest in
    if is_link contents host digest l then l.osp_ino else later

abbrev pub digest_or_zero : Bool → Option ℕ → ℕ
digest_or_zero contents none = 0
digest_or_zero contents (some d) = if contents then d else 0

unfoldable pub add_hardlink : (host_ino osp_ino : ℕ) → Option ℕ → M (Unit {0})
add_hardlink host osp digest s = some (
  tt,
  record s {
    hardlinks =
        record {
          osp_ino = osp;
          host_ino = host;
          md5_digest = digest_or_zero s.link_contents digest;
        }
        ∷ s.hardlinks;
  },
)
