-- ===== src/Format/Cache/Evict.antt =====
-- The steps of getblk in lab3/ospfsformat.c.
use cs111fall.Prelude.{
  ℕ, ◌+◌, ◌<◌, ◌≡◌, ◌≢◌, refl, fun_ext, sym, ◌∙◌, inl, inr, Bool, true, false, some, arith, ◌==◌,
  if◌then◌else◌, update, update_self, update_ne, Bool-cases,
}
use cs111fall.Format.Blocks.{Words, BlockType, AreWords, swizzleblock_lem, same_type}
use cs111fall.Format.Cache.{
  Block, Fs, least, set_block, take, load, evict, flushb, get_slot, ◌>>◌, >>=-some,
}
use cs111fall.Format.Cache.View.{IsCache}

-- The words that `getblk` gives.
abbrev pub cleared : Bool → Words → Words
cleared clr u = if clr then (λ w. 0) else u

-- The entry after `take`, and the state.
abbrev pub taken : Fs → BlockType → Words → ℕ → Block
taken s type u bno = record { bno = bno; type = type; busy = 1; used = s.t + 1; u = u }

abbrev pub ended : Fs → ℕ → (ℕ → Words) → Block → Fs
ended s i image b = record s { image = image; cache = update s.cache i b; t = s.t + 1 }

pub cleared_words : (clr : Bool) (u : Words) → AreWords u → AreWords (cleared clr u)
cleared_words true u h = λ w. omega arith
cleared_words false u h = h

pub update-update : (c : ℕ → Block) (i : ℕ) (a b : Block) → update (update c i a) i b ≡ update c i b
update-update c i a b = fun_ext λ j. ground arith

-- The image after the old contents of entry `i` have been written, if there are any.
abbrev pub saved_image : Fs → ℕ → ℕ → Words
saved_image s i =
    if (s.cache i).used == 0 then s.image else update s.image (s.cache i).bno (s.cache i).u

update_same : (c : ℕ → Block) (i : ℕ) → update c i (c i) ≡ c
update_same c i = fun_ext λ j. elim (Bool-cases (i == j)) [
  | inl e ↦ let same : i ≡ j = ground arith in rw (e, same) refl
  | inr n ↦ rw n refl
]

if_same : (b : Bool) (u : Words) → (if b then u else u) ≡ u
if_same true u = refl
if_same false u = refl

pub take_lem :
    (s : Fs) (i : ℕ) (clr : Bool) (type : BlockType)
    → (s.cache i).busy ≡ 0
    → take i clr type s
      ≡ some (i, ended s i s.image (taken s type (cleared clr (s.cache i).u) (s.cache i).bno))
unfolding take
take_lem s i clr type idle = elim (Bool-cases (same_type (s.cache i).type type)) [
  | inl e ↦ rw (e, idle) refl
  | inr n ↦ rw (n, idle) refl
]

module _ (s : Fs) (h : IsCache s) (i : ℕ) (q : i < 16) where
  pub evict_lem : evict i s ≡ some (tt, record s { image = saved_image s i })
  unfolding evict flushb
  evict_lem = elim (Bool-cases ((s.cache i).used == 0)) [
    | inl unused ↦ rw unused refl
    | inr in_use ↦
        let b = s.cache i in
        let id = swizzleblock_lem b.type b.u (h.entry_words i q) in
        rw (in_use, h.writes b.bno, id) (rw (id, update_same s.cache i) refl)
  ]

  pub saved_words : (b : ℕ) → AreWords (saved_image s i b)
  saved_words b w = elim (Bool-cases ((s.cache i).used == 0)) [
    | inl unused ↦ rw unused (h.image_words b w)
    | inr in_use ↦ elim (Bool-cases ((s.cache i).bno == b)) [
      | inl e ↦ rw (in_use, e) (h.entry_words i q w)
      | inr n ↦ rw (in_use, n) (h.image_words b w)
    ]
  ]

  pub saved_other : (b : ℕ) → b ≢ (s.cache i).bno → saved_image s i b ≡ s.image b
  saved_other b n = elim (Bool-cases ((s.cache i).used == 0)) [
    | inl unused ↦ rw unused refl
    | inr in_use ↦ rw in_use (update_ne s.image (s.cache i).bno (s.cache i).u b (λ e. n (sym e)))
  ]

  pub saved_boot : saved_image s i 0 ≡ s.image 0
  saved_boot = elim (Bool-cases ((s.cache i).bno == 0)) [
    | inl e ↦ rw (h.null_unused i q (ground arith)) refl
    | inr n ↦ saved_other 0 (ground arith)
  ]

  pub saved_own : (s.cache i).bno ≢ 0 → saved_image s i (s.cache i).bno ≡ (s.cache i).u
  saved_own n = elim (Bool-cases ((s.cache i).used == 0)) [
    | inl unused ↦ absurd (n (h.unused i q (ground arith)))
    | inr in_use ↦ rw in_use (update_self s.image (s.cache i).bno (s.cache i).u)
  ]

  module _ (bno : ℕ) (clr : Bool) (type : BlockType) where
    -- The entry that `load` leaves.
    abbrev loaded : Block
    loaded = record (s.cache i) { u = saved_image s i bno; bno = bno; busy = 0; type = type }

    load_lem :
        load i bno clr type (record s { image = saved_image s i })
        ≡ some (tt, set_block i loaded (record s { image = saved_image s i }))
    unfolding load
    load_lem =
        rw (h.reads bno, swizzleblock_lem (s.cache i).type (saved_image s i bno) (saved_words bno))
          (rw (if_same clr (saved_image s i bno)) refl)

    pub get_slot-least :
        get_slot (least i) bno clr type s
        ≡ some
            (i, ended s i (saved_image s i) (taken s type (cleared clr (saved_image s i bno)) bno))
    unfolding get_slot
    get_slot-least =
        >>=-some (evict i) (λ _. do load i bno clr type; take i clr type) s evict_lem
        ∙ >>=-some (load i bno clr type) (λ _. take i clr type)
            (record s { image = saved_image s i }) load_lem
        ∙ take_lem (set_block i loaded (record s { image = saved_image s i })) i clr type idle
        ∙ rw
            (
              update_self s.cache i loaded,
              update-update s.cache i loaded (taken s type (cleared clr (saved_image s i bno)) bno),
            )
            refl
      where
        idle : (update s.cache i loaded i).busy ≡ 0
        idle = rw (update_self s.cache i loaded) refl
