-- ===== src/Format/Cache.antt =====
-- lab3/ospfsformat.c: the program's variables, and its cache of 16 blocks (flushb, getblk, putblk).
pub mod Found
pub mod View
pub mod Replace
pub mod Evict
pub mod Get
pub mod Write
pub mod Flush
use cs111fall.Prelude.{
  ℕ, zero, suc, ◌+◌, ◌-◌, ◌%◌, ◌^◌, Bool, ◌&&◌, ◌||◌, Option, none, some, List, ◌≡◌, refl, ltb, leb,
  ◌==◌, if◌then◌else◌, update,
}
use cs111fall.Format.Blocks.{Words, BlockType, same_type, swizzleblock}

pub record Block : Type 0 where
  pub bno : ℕ
  pub type : BlockType
  pub busy : ℕ
  pub used : ℕ
  pub u : Words

-- A mapping from an inode of the host; a digest of MD5 is a number, 0 where all its bytes are 0.
pub record Hardlink : Type 0 where
  pub osp_ino : ℕ
  pub host_ino : ℕ
  pub md5_digest : ℕ

pub record Super : Type 0 where
  pub os_magic : ℕ
  pub os_nblocks : ℕ
  pub os_ninodes : ℕ
  pub os_firstinob : ℕ

-- The variables of the program, the image by blocks, and whether the host reads and writes a block of the
-- image when it is asked to. The counter `t` of `getblk` is not bounded.
pub record Fs : Type 0 where
  pub image : ℕ → Words
  pub reads : ℕ → Bool
  pub writes : ℕ → Bool
  pub cache : ℕ → Block
  pub t : ℕ
  pub nblocks : ℕ
  pub ninodes : ℕ
  pub nbitblock : ℕ
  pub nextb : ℕ
  pub nextinode : ℕ
  pub link_contents : Bool
  pub hardlinks : List Hardlink
  pub super : Super

-- `none` is the end of the program by `abort` or by a fault.
abbrev pub M : Type 0 → Type 0
M A = Fs → Option (A × Fs)

abbrev pub pure : {A : Type 0} → A → M A
pure a s = some (a, s)

abbrev pub abort : {A : Type 0} → M A
abort s = none

infixl 5 ◌>>=◌ ◌>>◌
abbrev pub ◌>>=◌ : {A B : Type 0} → M A → (A → M B) → M B
◌>>=◌ m f s = elim (m s) [ none ↦ none | some (a, s') ↦ f a s' ]

abbrev pub ◌>>◌ : {B : Type 0} → M (Unit {0}) → M B → M B
m >> k = m >>= λ _. k

pub >>=-some :
    {A B : Type 0} (m : M A) (f : A → M B) (s : Fs) {a : A} {s' : Fs}
    → m s ≡ some (a, s')
    → (m >>= f) s ≡ f a s'
>>=-some m f s e = rw (e, ◌>>=◌) refl

abbrev pub cache_size : ℕ
cache_size = 16

abbrev pub set_block : ℕ → Block → Fs → Fs
set_block i b s = record s { cache = update s.cache i b }

-- `flushb`; `none` is that the write failed. After the second swap the block is as it was swapped twice.
unfoldable pub flushb : ℕ → M (Unit {0})
flushb i s =
    let b = s.cache i in
    let out = swizzleblock b.type b.u in
    if s.writes b.bno
    then some (
      tt,
      set_block i (record b { u = swizzleblock b.type out })
          (record s { image = update s.image b.bno out }),
    )
    else none

-- What the loop of `getblk` finds: the block, the least used entry that is not busy, or neither.
pub data Slot : Type 0 where
  hit : ℕ → Slot
  least : ℕ → Slot
  full : Slot

abbrev pub slot_of : Option ℕ → Slot
slot_of none = full
slot_of (some l) = least l

-- The test of the loop for the least used entry.
abbrev pub is_better : (ℕ → Block) → ℕ → Option ℕ → Bool
is_better c i none = (c i).busy == 0
is_better c i (some l) = (c i).busy == 0 && ltb (c i).used (c l).used

unfoldable pub look_from : (rounds i : ℕ) → Option ℕ → (bno : ℕ) → (ℕ → Block) → Slot
look_from zero i l bno c = slot_of l
look_from (suc n) i l bno c =
    let rest = look_from n (suc i) (if is_better c i l then some i else l) bno c in
    if (c i).bno == bno then hit i else rest

abbrev pub look : ℕ → (ℕ → Block) → Slot
look bno c = look_from cache_size 0 none bno c

-- From `out:` on; the `assert` aborts.
unfoldable pub take : (i : ℕ) (clr : Bool) (type : BlockType) → M ℕ
take i clr type s =
    let b = s.cache i in
    let busy' = (b.busy + 1) % 2 ^ 32 in
    let b' = record b {
      u = if clr then (λ w. 0) else b.u;
      used = s.t + 1;
      busy = busy';
      type = type;
    } in
    if same_type b.type type || busy' == 1
    then some (i, set_block i b' (record s { t = s.t + 1 }))
    else none

-- The entry is read anew; without `clr` it is swapped by its old type.
unfoldable pub load : (i bno : ℕ) (clr : Bool) (type : BlockType) → M (Unit {0})
load i bno clr type s =
    let b = s.cache i in
    let u' = if clr then s.image bno else swizzleblock b.type (s.image bno) in
    if s.reads bno
    then some (tt, set_block i (record b { u = u'; bno = bno; busy = 0; type = type }) s)
    else none

-- The old contents of an entry that was used go to the image.
unfoldable pub evict : ℕ → M (Unit {0})
unfolding flushb
evict i s = if (s.cache i).used == 0 then some (tt, s) else flushb i s

unfoldable pub get_slot : Slot → (bno : ℕ) (clr : Bool) (type : BlockType) → M ℕ
unfolding take load evict
get_slot (hit i) bno clr type = take i clr type
get_slot (least i) bno clr type = do evict i; load i bno clr type; take i clr type
get_slot full bno clr type = abort

-- A pointer to a block of the cache is its index.
unfoldable pub getblk : (bno : ℕ) (clr : Bool) (type : BlockType) → M ℕ
unfolding get_slot look_from
getblk bno clr type s =
    if leb s.nblocks bno then none else get_slot (look bno s.cache) bno clr type s

unfoldable pub putblk : ℕ → M (Unit {0})
putblk i s =
    let b = s.cache i in
    some (tt, set_block i (record b { busy = (b.busy + (2 ^ 32 - 1)) % 2 ^ 32 }) s)

-- Writes through a pointer to a block.
unfoldable pub modify : ℕ → (Words → Words) → M (Unit {0})
modify i f s = let b = s.cache i in some (tt, set_block i (record b { u = f b.u }) s)

-- `b = getblk(...); ... putblk(b);` around writes to the block alone.
unfoldable pub with_block :
    (bno : ℕ) (clr : Bool) (type : BlockType) → (Words → Words) → M (Unit {0})
unfolding getblk modify putblk
with_block bno clr type f = do i ← getblk bno clr type; modify i f; putblk i
