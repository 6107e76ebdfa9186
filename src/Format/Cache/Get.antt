-- ===== src/Format/Cache/Get.antt =====
-- getblk of lab3/ospfsformat.c gives a block with the words that the cache stands for.
use cs111fall.Prelude.{
  ℕ, ◌<◌, ◌≡◌, ◌≢◌, refl, ap, sym, ◌∙◌, Bool, false, some, arith, leb, update_self, update_ne,
}
use cs111fall.Format.Blocks.{Words, BlockType, AreWords}
use cs111fall.Format.Cache.{Fs, Slot, hit, least, full, look, get_slot, getblk}
use cs111fall.Format.Cache.Found.{Found, look-Found}
use cs111fall.Format.Cache.View.{view, IsCache, view-Absent, view-entry}
use cs111fall.Format.Cache.Replace.{Replaced, Replaced-IsCache, Replaced-view_other}
use cs111fall.Format.Cache.Evict.{
  cleared, taken, ended, cleared_words, saved_image, take_lem, saved_words, saved_other, saved_boot,
  saved_own, get_slot-least,
}

-- What `getblk` leaves: entry `i`, which was not busy, has the block, busy once; the other entries are as
-- they were, the other blocks have the words that they had, and nothing else has changed.
pub record Got (s : Fs) (bno : ℕ) (clr : Bool) (i : ℕ) (s' : Fs) : Type 0 where
  pub index : i < 16
  pub was_idle : (s.cache i).busy ≡ 0
  pub others : (j : ℕ) → j ≢ i → s'.cache j ≡ s.cache j
  pub bno_is : (s'.cache i).bno ≡ bno
  pub busy_is : (s'.cache i).busy ≡ 1
  pub u_is : (s'.cache i).u ≡ cleared clr (view s bno)
  pub cache_is : IsCache s'
  pub view_other : (b : ℕ) → b ≢ 0 → b ≢ bno → view s' b ≡ view s b
  pub boot : s'.image 0 ≡ s.image 0
  pub same : s' ≡ record s { image = s'.image; cache = s'.cache; t = s'.t }

-- No entry of the block is busy.
abbrev pub NotBusy : Fs → ℕ → Type 0
NotBusy s b = (i : ℕ) → i < 16 → (s.cache i).bno ≡ b → (s.cache i).busy ≡ 0

-- The end of `getblk`, with the image as it is then and the words that the entry has.
module _ (s : Fs) (h : IsCache s) (bno : ℕ) (z : bno ≢ 0) (type : BlockType) (i : ℕ)
    (q : i < 16) where
  module _ (image : ℕ → Words) (u : Words) where
    ended-Replaced :
        ((j : ℕ) → j < 16 → j ≢ i → (s.cache j).bno ≢ bno)
        → ((s.cache i).bno ≢ 0 → (s.cache i).bno ≢ bno → image (s.cache i).bno ≡ (s.cache i).u)
        → ((b : ℕ) → b ≢ (s.cache i).bno → image b ≡ s.image b)
        → image 0 ≡ s.image 0
        → AreWords u
        → ((b : ℕ) → AreWords (image b))
        → Replaced s bno i (ended s i image (taken s type u bno))
    ended-Replaced alone saved image_is boot uw iw = record {
      boot = boot;
      index = q;
      proper = z;
      others = λ j n. update_ne s.cache i (taken s type u bno) j (λ e. n (sym e));
      bno_is = rw (update_self s.cache i (taken s type u bno)) refl;
      alone = alone;
      saved = saved;
      image_is = image_is;
      in_use = rw (update_self s.cache i (taken s type u bno)) (omega arith);
      entry_words = rw (update_self s.cache i (taken s type u bno)) uw;
      image_words = iw;
      reads = h.reads;
      writes = h.writes;
    }

    ended-Got :
        (clr : Bool)
        → Replaced s bno i (ended s i image (taken s type u bno))
        → (s.cache i).busy ≡ 0
        → u ≡ cleared clr (view s bno)
        → Got s bno clr i (ended s i image (taken s type u bno))
    ended-Got clr r idle words = record {
      index = q;
      was_idle = idle;
      others = r.others;
      bno_is = r.bno_is;
      busy_is = rw (update_self s.cache i (taken s type u bno)) refl;
      u_is = rw (update_self s.cache i (taken s type u bno)) words;
      cache_is = Replaced-IsCache h r;
      view_other = Replaced-view_other h r;
      boot = r.boot;
      same = refl;
    }

module _ (s : Fs) (h : IsCache s) (bno : ℕ) (z : bno ≢ 0) (inside : bno < s.nblocks)
    (idle : NotBusy s bno) (f : ℕ) (f_in : f < 16) (f_idle : (s.cache f).busy ≡ 0) (clr : Bool)
    (type : BlockType) where
  hit-Got :
      (i : ℕ)
      → Found bno s.cache (hit i)
      → (s' : Fs) × (get_slot (hit i) bno clr type s ≡ some (i, s')) × Got s bno clr i s'
  unfolding get_slot
  hit-Got i (q, e) = (
    ended s i s.image (taken s type (cleared clr (s.cache i).u) bno),
    rw (← e) (take_lem s i clr type (idle i q e)),
    ended-Got s h bno z type i q s.image (cleared clr (s.cache i).u) clr
        (ended-Replaced s h bno z type i q s.image (cleared clr (s.cache i).u)
          (λ j p n c. n (h.distinct j i p q (c ∙ sym e) (λ y. z (sym c ∙ y)))) (λ y n. absurd (n e))
          (λ b n. refl) refl (cleared_words clr (s.cache i).u (h.entry_words i q)) h.image_words)
        (idle i q e) (ap (cleared clr) (sym (view-entry s bno h i q e z))),
  )

  least-Got :
      (i : ℕ)
      → Found bno s.cache (least i)
      → (s' : Fs) × (get_slot (least i) bno clr type s ≡ some (i, s')) × Got s bno clr i s'
  least-Got i (q, not_busy, absent) = (
    ended s i (saved_image s i) (taken s type (cleared clr (saved_image s i bno)) bno),
    get_slot-least s h i q bno clr type,
    ended-Got s h bno z type i q (saved_image s i) (cleared clr (saved_image s i bno)) clr
        (ended-Replaced s h bno z type i q (saved_image s i) (cleared clr (saved_image s i bno))
          (λ j p n. absent j p) (λ n y. saved_own s h i q n) (saved_other s h i q)
          (saved_boot s h i q) (cleared_words clr (saved_image s i bno) (saved_words s h i q bno))
          (saved_words s h i q))
        not_busy
        (ap (cleared clr)
          (saved_other s h i q bno (λ e. absent i q (sym e)) ∙ sym (view-Absent s bno absent))),
  )

  -- With a cache in order and a host that reads and writes the image, for a block of the disk other than
  -- block 0 that no entry has busy, and with an entry that is not busy: `getblk` succeeds and gives an entry
  -- with the words that the block has, or zeros with `clr`, busy once; the cache is in order, every other
  -- block has the words that it had, and nothing else has changed.
  pub getblk-Got : (i : ℕ) × (s' : Fs) × (getblk bno clr type s ≡ some (i, s')) × Got s bno clr i s'
  unfolding getblk
  getblk-Got = rw past_end (by_slot (look bno s.cache) (look-Found bno s.cache))
    where
      past_end : leb s.nblocks bno ≡ false
      past_end = ground arith

      by_slot :
          (l : Slot)
          → Found bno s.cache l
          → (i : ℕ) × (s' : Fs) × (get_slot l bno clr type s ≡ some (i, s')) × Got s bno clr i s'
      by_slot (hit i) found = let r = hit-Got i found in (i, r.0, r.1, r.2)
      by_slot (least i) found = let r = least-Got i found in (i, r.0, r.1, r.2)
      by_slot full found = absurd (found.0 f f_in f_idle)
