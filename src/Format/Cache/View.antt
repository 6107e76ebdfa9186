-- ===== src/Format/Cache/View.antt =====
-- The blocks that the cache of lab3/ospfsformat.c stands for: an entry's words, or those of the image.
use cs111fall.Prelude.{ℕ, ◌<◌, ◌≡◌, ◌≢◌, refl, ap, sym, ◌∙◌, true}
use cs111fall.Format.Blocks.{Words, AreWords}
use cs111fall.Format.Cache.{Block, Fs, Slot, hit, least, full, look}
use cs111fall.Format.Cache.Found.{Absent, Found, look-Found}

abbrev pub held : (image : ℕ → Words) (cache : ℕ → Block) → ℕ → Slot → Words
held image cache b (hit i) = (cache i).u
held image cache b (least i) = image b
held image cache b full = image b

-- The words of block `b`.
unfoldable pub view : Fs → ℕ → Words
view s b = held s.image s.cache b (look b s.cache)

-- A cache in order: a block is in one entry at most, the entries that were
-- never used are those without a block, and all
-- words are of 32 bits; and the host reads and writes the image.
pub record IsCache (s : Fs) : Type 0 where
  pub distinct :
      (i j : ℕ) → i < 16 → j < 16 → (s.cache i).bno ≡ (s.cache j).bno → (s.cache i).bno ≢ 0 → i ≡ j
  pub unused : (i : ℕ) → i < 16 → (s.cache i).used ≡ 0 → (s.cache i).bno ≡ 0
  pub null_unused : (i : ℕ) → i < 16 → (s.cache i).bno ≡ 0 → (s.cache i).used ≡ 0
  pub entry_words : (i : ℕ) → i < 16 → AreWords (s.cache i).u
  pub image_words : (b : ℕ) → AreWords (s.image b)
  pub reads : (b : ℕ) → s.reads b ≡ true
  pub writes : (b : ℕ) → s.writes b ≡ true

module _ (s : Fs) (b : ℕ) where
  pub view-Absent : Absent b s.cache → view s b ≡ s.image b
  unfolding view
  view-Absent a = by_slot (look b s.cache) (look-Found b s.cache)
    where
      by_slot : (l : Slot) → Found b s.cache l → held s.image s.cache b l ≡ s.image b
      by_slot (hit i) f = absurd (a i f.0 f.1)
      by_slot (least i) f = refl
      by_slot full f = refl

  pub view-entry :
      IsCache s → (i : ℕ) → i < 16 → (s.cache i).bno ≡ b → b ≢ 0 → view s b ≡ (s.cache i).u
  unfolding view
  view-entry h i q e z = by_slot (look b s.cache) (look-Found b s.cache)
    where
      by_slot : (l : Slot) → Found b s.cache l → held s.image s.cache b l ≡ (s.cache i).u
      by_slot (hit j) f =
          ap (λ k. (s.cache k).u) (h.distinct j i f.0 q (f.1 ∙ sym e) (λ n. z (sym f.1 ∙ n)))
      by_slot (least j) f = absurd (f.2 i q e)
      by_slot full f = absurd (f.1 i q e)

  pub view_words : IsCache s → AreWords (view s b)
  unfolding view
  view_words h = by_slot (look b s.cache) (look-Found b s.cache)
    where
      by_slot : (l : Slot) → Found b s.cache l → AreWords (held s.image s.cache b l)
      by_slot (hit j) f = h.entry_words j f.0
      by_slot (least j) f = h.image_words b
      by_slot full f = h.image_words b
