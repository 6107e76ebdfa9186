-- ===== src/Format/Cache/Flush.antt =====
-- flushdisk of lab3/ospfsformat.c brings what the cache stands for into the image.
use cs111fall.Prelude.{ℕ, zero, suc, ◌+◌, ◌<◌, ◌≡◌, ◌≢◌, refl, sym, ◌∙◌, ◌⊎◌, inl, inr, some, arith}
use cs111fall.Format.Blocks.{Words, AreWords}
use cs111fall.Format.Cache.{Fs, M, pure, evict, cache_size, ◌>>◌, >>=-some}
use cs111fall.Format.Cache.Found.{Absent, held-cases}
use cs111fall.Format.Cache.View.{view, IsCache, view-Absent, view-entry}
use cs111fall.Format.Cache.Evict.{
  saved_image, evict_lem, saved_words, saved_other, saved_own, saved_boot,
}

-- The loop of `flushdisk` from entry `i` on.
unfoldable pub flush_from : (rounds i : ℕ) → M (Unit {0})
flush_from zero i = pure tt
flush_from (suc n) i = do evict i; flush_from n (suc i)

unfoldable pub flushdisk : M (Unit {0})
unfolding flush_from
flushdisk = flush_from cache_size 0

-- The state after the image has changed alone.
abbrev with_image : Fs → (ℕ → Words) → Fs
with_image s image = record s { image = image }

abbrev flushed : Fs → (rounds i : ℕ) → (ℕ → Words) → ℕ → Words
flushed s zero i image = image
flushed s (suc n) i image = flushed s n (suc i) (saved_image (with_image s image) i)

module _ (s : Fs) (h : IsCache s) where
  with_image-IsCache :
      (image : ℕ → Words) → ((b : ℕ) → AreWords (image b)) → IsCache (with_image s image)
  with_image-IsCache image w = record {
    distinct = h.distinct;
    unused = h.unused;
    null_unused = h.null_unused;
    entry_words = h.entry_words;
    image_words = w;
    reads = h.reads;
    writes = h.writes;
  }

  flush_from_lem :
      (n i : ℕ) (image : ℕ → Words)
      → ((b : ℕ) → AreWords (image b))
      → i + n ≡ 16
      → (flush_from n i (with_image s image) ≡ some (tt, with_image s (flushed s n i image)))
        × ((b : ℕ) → AreWords (flushed s n i image b))
  unfolding flush_from
  flush_from_lem zero i image w e = (refl, w)
  flush_from_lem (suc n) i image w e =
      let ci = with_image-IsCache image w in
      let rest =
        flush_from_lem n (suc i) (saved_image (with_image s image) i)
          (saved_words (with_image s image) ci i (omega arith)) (omega arith) in
      (
        >>=-some (evict i) (λ _. flush_from n (suc i)) (with_image s image)
              (evict_lem (with_image s image) ci i (omega arith))
            ∙ rest.0,
        rest.1,
      )

  flushed-Absent :
      (n i : ℕ) (image : ℕ → Words) (b : ℕ)
      → ((b : ℕ) → AreWords (image b))
      → i + n ≡ 16
      → Absent b s.cache
      → flushed s n i image b ≡ image b
  flushed-Absent zero i image b w e a = refl
  flushed-Absent (suc n) i image b w e a =
      let ci = with_image-IsCache image w in
      flushed-Absent n (suc i) (saved_image (with_image s image) i) b
        (saved_words (with_image s image) ci i (omega arith)) (omega arith) a
      ∙ saved_other (with_image s image) ci i (omega arith) b (λ c. a i (omega arith) (sym c))

  module _ (j : ℕ) (q : j < 16) (z : (s.cache j).bno ≢ 0) where
    saved-next :
        (i : ℕ) (image : ℕ → Words) (w : (b : ℕ) → AreWords (image b))
        → i < 16
        → ((j < i) → image (s.cache j).bno ≡ (s.cache j).u)
        → j < suc i
        → (j ≡ i) ⊎ (j ≢ i)
        → saved_image (with_image s image) i (s.cache j).bno ≡ (s.cache j).u
    saved-next i image w p before l (inl e) =
        let at_i : saved_image (with_image s image) j (s.cache j).bno ≡ (s.cache j).u =
          saved_own (with_image s image) (with_image-IsCache image w) j q z in
        rw (sym e) at_i
    saved-next i image w p before l (inr n) =
        saved_other (with_image s image) (with_image-IsCache image w) i p (s.cache j).bno
          (λ c. n (h.distinct j i q p c z))
        ∙ before (omega arith)

    flushed-entry :
        (n i : ℕ) (image : ℕ → Words)
        → ((b : ℕ) → AreWords (image b))
        → i + n ≡ 16
        → ((j < i) → image (s.cache j).bno ≡ (s.cache j).u)
        → flushed s n i image (s.cache j).bno ≡ (s.cache j).u
    flushed-entry zero i image w e before = before (omega arith)
    flushed-entry (suc n) i image w e before =
        flushed-entry n (suc i) (saved_image (with_image s image) i)
          (saved_words (with_image s image) (with_image-IsCache image w) i (omega arith))
          (omega arith) (λ l. saved-next i image w (omega arith) before l (ground arith))

  flushed-boot :
      (n i : ℕ) (image : ℕ → Words)
      → ((b : ℕ) → AreWords (image b))
      → i + n ≡ 16
      → flushed s n i image 0 ≡ image 0
  flushed-boot zero i image w e = refl
  flushed-boot (suc n) i image w e =
      let ci = with_image-IsCache image w in
      flushed-boot n (suc i) (saved_image (with_image s image) i)
        (saved_words (with_image s image) ci i (omega arith)) (omega arith)
      ∙ saved_boot (with_image s image) ci i (omega arith)

  -- With a cache in order and a host that reads and writes the image, `flushdisk` succeeds, changes nothing
  -- but the image, and leaves block 0 there as it is, and of every other block the words that the cache
  -- stands for.
  pub flushdisk-view :
      (image : ℕ → Words) × (flushdisk s ≡ some (tt, record s { image = image }))
      × ((b : ℕ) → b ≢ 0 → image b ≡ view s b)
      × (image 0 ≡ s.image 0)
  unfolding flushdisk
  flushdisk-view = (
    flushed s 16 0 s.image,
    (flush_from_lem 16 0 s.image h.image_words (omega arith)).0,
    λ b z. elim (held-cases b s.cache) [
      | inl (j, q, e) ↦
          let nz : (s.cache j).bno ≢ 0 = λ y. z (sym e ∙ y) in
          rw (← e) (
            flushed-entry j q nz 16 0 s.image h.image_words (omega arith)
              (λ l. absurd (omega arith))
            ∙ sym (view-entry s (s.cache j).bno h j q refl nz))
      | inr a ↦
          flushed-Absent 16 0 s.image b h.image_words (omega arith) a ∙ sym (view-Absent s b a)
    ],
    flushed-boot 16 0 s.image h.image_words (omega arith),
  )
