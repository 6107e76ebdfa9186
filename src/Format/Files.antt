-- ===== src/Format/Files.antt =====
-- lab3/ospfsformat.c: the files, symbolic links and directories of the host that go into the image.
use cs111fall.Prelude.{
  ℕ, zero, suc, ◌+◌, ◌-◌, ◌*◌, ◌%◌, ◌^◌, Bool, true, false, ◌&&◌, ◌||◌, not, Option, none, some,
  List, [], ◌∷◌, length, ltb, leb, ◌==◌, if◌then◌else◌,
}
use cs111fall.Ospfs.Disk.{blksize, ftype_reg, ftype_symlink}
use cs111fall.Ospfs.Dir.Entry.{Name, name_byte}
use cs111fall.Ospfs.Dir.Names.{maxsymlinklen}
use cs111fall.Ospfs.Store.{store}
use cs111fall.Format.Blocks.{Words, block_file}
use cs111fall.Format.Cache.{M, pure, abort, getblk, putblk, modify, ◌>>=◌, ◌>>◌}
use cs111fall.Format.Inodes.{
  Ptr, get_word, set_word, storeblk, allocinode, inode_block, inode_in, allocdirentry, get_hardlink,
  add_hardlink,
}

-- What `read` answers, in turn; after the last the file is at its end.
pub data Answer : Type 0 where
  got : List ℕ → Answer
  failed : Answer

-- `readn` into a block; the result is its value as a word of 32 bits, the block, and the answers that are
-- left. An answer longer than the room is cut. After an error `t` grows by the -1 of `read`.
pub record Read : Type 0 where
  pub value : ℕ
  pub block : Words
  pub left : List Answer

-- The first bytes of a list, and the others.
unfoldable pub first_of : ℕ → List ℕ → List ℕ
first_of zero l = []
first_of (suc n) [] = []
first_of (suc n) (c ∷ l) = c ∷ first_of n l

unfoldable pub after_first : ℕ → List ℕ → List ℕ
after_first zero l = l
after_first (suc n) [] = []
after_first (suc n) (c ∷ l) = after_first n l

unfoldable pub readn : (n t : ℕ) → Words → List Answer → Read
unfolding first_of
readn n t u [] = record { value = t; block = u; left = [] }
readn n t u (failed ∷ rest) =
    let next = readn n ((t + (2 ^ 32 - 1)) % 2 ^ 32) u rest in
    if ltb t n then next else record { value = t; block = u; left = failed ∷ rest }
readn n t u (got l ∷ rest) =
    let bs = first_of (n - t) l in
    let next = readn n (t + length bs) (store t (length bs) (name_byte bs) u) rest in
    if ltb t n
    then (if length bs == 0
        then record { value = t; block = u; left = rest }
        else if ltb (length bs) (length l)
        then record {
          value = n;
          block = store t (length bs) (name_byte bs) u;
          left = got (after_first (n - t) l) ∷ rest;
        }
        else next)
    else record { value = t; block = u; left = got l ∷ rest }

-- The part of a path after its last `/`.
unfoldable pub last_from : Name → Name → Name
last_from last [] = last
last_from last (c ∷ rest) = last_from (if c == b'/' then rest else last) rest

abbrev pub last_part : Name → Name
last_part path = last_from path path

-- The bytes and answers that are left bound the rounds of the loop that copies a file.
abbrev pub size_of : List Answer → ℕ
size_of [] = 0
size_of (got l ∷ rest) = suc (length l + size_of rest)
size_of (failed ∷ rest) = suc (size_of rest)

abbrev pub nextb_of : M ℕ
nextb_of s = some (s.nextb, s)

abbrev pub advance : M (Unit {0})
advance s = some (tt, record s { nextb = (s.nextb + 1) % 2 ^ 32 })

-- The words of a block, and a block with other words.
abbrev pub words_of : ℕ → M Words
words_of b s = some ((s.cache b).u, s)

-- What is done with a block `b` that has been got with the words `u`; `next` is the next round. The result is
-- the number of the last block and the bytes that it got.
unfoldable pub copy_block :
    (next : List Answer → M (ℕ × ℕ)) (ino : Ptr) (nblk : ℕ)
    → List Answer
    → (b : ℕ) → Words
    → M (ℕ × ℕ)
unfolding readn storeblk putblk modify
copy_block next ino nblk answers b u = do
  let r = readn blksize 0 u answers
  modify b (λ v. r.block)
  (if leb (2 ^ 31) r.value
      then abort
      else if r.value == 0
      then (do putblk b; pure (nblk, 0))
      else (do
        advance
        storeblk ino b nblk
        putblk b
        (if ltb r.value blksize then pure (nblk, r.value) else next r.left)))

-- The loop over the blocks of a file, on fuel; `out` is what is done when the fuel is used up.
unfoldable pub copy_from :
    (out : M (ℕ × ℕ)) (fuel : ℕ) (ino : Ptr) (nblk : ℕ) → List Answer → M (ℕ × ℕ)
unfolding copy_block getblk
copy_from out zero ino nblk answers = out
copy_from out (suc fuel) ino nblk answers = do
  m ← nextb_of
  b ← getblk m true block_file
  u ← words_of b
  copy_block (copy_from out fuel ino (nblk + 1)) ino nblk answers b u

-- A file of the host that can be opened. `digest` is its MD5 digest, and `none` if the file cannot be read for it.
pub record HostFile : Type 0 where
  pub host_ino : ℕ
  pub mode : ℕ
  pub digest : Option ℕ
  pub answers : List Answer

abbrev pub links_of : M Bool
links_of s = some (s.link_contents, s)

abbrev pub hardlink_of : (host_ino : ℕ) (contents : Bool) → Option ℕ → M ℕ
hardlink_of host by_contents digest s = some (
  if not (host == 0) || by_contents
      then get_hardlink s.link_contents host digest s.hardlinks
      else 0,
  s,
)

-- A further link to an inode of the image: its block.
unfoldable pub link_to : (de : Ptr) (ino : ℕ) → M ℕ
unfolding inode_block
link_to de n = do
  set_word de 0 n
  ib ← inode_block n
  links ← get_word (inode_in ib n) 2
  set_word (inode_in ib n) 2 ((links + 1) % 2 ^ 32)
  pure ib

-- A new file with its contents: the block of its inode.
unfoldable pub new_file : (de : Ptr) (contents : Bool) → HostFile → M ℕ
unfolding allocinode add_hardlink copy_from
new_file de contents f = do
  new ← allocinode (set_word de 0)
  set_word new.inode 2 1
  (if not (f.host_ino == 0) || contents
      then add_hardlink f.host_ino new.number f.digest
      else pure tt)
  set_word new.inode 1 ftype_reg
  set_word new.inode 3 f.mode
  (nblk, n) ← copy_from abort (suc (size_of f.answers)) new.inode 0 f.answers
  set_word new.inode 0 ((nblk * blksize + n) % 2 ^ 32)
  pure new.block

-- The entry has been made; with `contents` a digest that cannot be had ends the function with the entry's block
-- in use.
unfoldable pub fill_entry : (dirb : ℕ) (de : Ptr) (contents : Bool) → HostFile → M (Unit {0})
unfolding link_to new_file putblk
fill_entry dirb de contents f = do
  hardlink_ino ← hardlink_of f.host_ino contents (if contents then f.digest else none)
  inob ← (if hardlink_ino == 0 then new_file de contents f else link_to de hardlink_ino)
  putblk dirb
  putblk inob

-- A use of the null pointer that `allocdirentry` returns is a fault.
abbrev pub entry_of : Option (ℕ × Ptr) → M (ℕ × Ptr)
entry_of none = abort
entry_of (some e) = pure e

unfoldable pub writefile : (dirino : Ptr) (path : Name) → HostFile → M (Unit {0})
unfolding allocdirentry fill_entry last_from
writefile dirino path f = do
  r ← allocdirentry dirino (last_part path)
  contents ← links_of
  (if contents && is_none f.digest
      then pure tt
      else (do (dirb, de) ← entry_of r; fill_entry dirb de contents f))
  where
    is_none : Option ℕ → Bool
    is_none none = true
    is_none (some d) = false

-- A symbolic link's bytes begin after `oi_nlink`.
unfoldable pub new_symlink : (de : Ptr) (host_ino : ℕ) → Name → M ℕ
unfolding allocinode add_hardlink modify
new_symlink de host link = do
  new ← allocinode (set_word de 0)
  set_word new.inode 2 1
  (if host == 0 then pure tt else add_hardlink host new.number none)
  set_word new.inode 1 ftype_symlink
  modify new.inode.slot (store (4 * new.inode.off + 12) (length link + 1) (name_byte link))
  set_word new.inode 0 (length link)
  pure new.block

unfoldable pub addsymlink : (dirino : Ptr) (path link : Name) (host_ino : ℕ) → M (Unit {0})
unfolding allocdirentry new_symlink link_to putblk last_from
addsymlink dirino path link host = do
  r ← allocdirentry dirino (last_part path)
  (dirb, de) ← entry_of r
  hardlink_ino ← hardlink_of host false none
  inob ← (if hardlink_ino == 0 then new_symlink de host link else link_to de hardlink_ino)
  putblk dirb
  putblk inob

-- `none` is that `readlink` failed. A link that is too long is left out.
unfoldable pub writesymlink :
    (dirino : Ptr) (path : Name) → Option Name → (host_ino : ℕ) → M (Unit {0})
unfolding addsymlink
writesymlink dirino path none host = abort
writesymlink dirino path (some link) host =
    if ltb maxsymlinklen (length link) then pure tt else addsymlink dirino path link host
