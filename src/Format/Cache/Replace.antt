-- ===== src/Format/Cache/Replace.antt =====
-- One entry of the cache of lab3/ospfsformat.c gets another block, or the same block with other words.
use cs111fall.Prelude.{ℕ, ◌<◌, ◌≡◌, ◌≢◌, ap, sym, ◌∙◌, ◌⊎◌, inl, inr, true, arith, ◌==◌, Bool-cases}
use cs111fall.Format.Blocks.{AreWords}
use cs111fall.Format.Cache.{Block, Fs}
use cs111fall.Format.Cache.Found.{Absent, held-cases}
use cs111fall.Format.Cache.View.{view, IsCache, view-Absent, view-entry}

-- From `s` to `s'` entry `i` gets block `bno`; the block that it had before, if it was another one, is in
-- the image now.
pub record Replaced (s : Fs) (bno i : ℕ) (s' : Fs) : Type 0 where
  pub index : i < 16
  pub proper : bno ≢ 0
  pub others : (j : ℕ) → j ≢ i → s'.cache j ≡ s.cache j
  pub bno_is : (s'.cache i).bno ≡ bno
  pub alone : (j : ℕ) → j < 16 → j ≢ i → (s.cache j).bno ≢ bno
  pub saved : (s.cache i).bno ≢ 0 → (s.cache i).bno ≢ bno → s'.image (s.cache i).bno ≡ (s.cache i).u
  pub image_is : (b : ℕ) → b ≢ (s.cache i).bno → s'.image b ≡ s.image b
  pub boot : s'.image 0 ≡ s.image 0
  pub in_use : (s'.cache i).used ≢ 0
  pub entry_words : AreWords (s'.cache i).u
  pub image_words : (b : ℕ) → AreWords (s'.image b)
  pub reads : (b : ℕ) → s'.reads b ≡ true
  pub writes : (b : ℕ) → s'.writes b ≡ true

eq-cases : (j i : ℕ) → (j ≡ i) ⊎ (j ≢ i)
eq-cases j i = elim (Bool-cases (j == i)) [
  | inl e ↦ inl (ground arith)
  | inr n ↦ inr (ground arith)
]

module _ {s s' : Fs} {bno i : ℕ} (h : IsCache s) (r : Replaced s bno i s') where
  -- A property of all entries of `s'`, from that of the new one and of the others.
  each {ℓ} :
      (P : ℕ → Block → Type ℓ)
      → P i (s'.cache i)
      → ((j : ℕ) → j < 16 → j ≢ i → P j (s.cache j))
      → (j : ℕ) → j < 16
      → P j (s'.cache j)
  each P new old j q = elim (eq-cases j i) [
    | inl e ↦ rw e new
    | inr n ↦ rw (r.others j n) (old j q n)
  ]

  distinct_after :
      (j k : ℕ)
      → j < 16
      → k < 16
      → (s'.cache j).bno ≡ (s'.cache k).bno
      → (s'.cache j).bno ≢ 0
      → j ≡ k
  distinct_after j k p q e z = elim (eq-cases j i) [
    | inl a ↦ elim (eq-cases k i) [
      | inl b ↦ a ∙ sym b
      | inr b ↦ absurd (
          r.alone k q b (
            ap (λ x. x.bno) (sym (r.others k b)) ∙ sym e ∙ ap (λ x. (s'.cache x).bno) a ∙ r.bno_is))
    ]
    | inr a ↦ elim (eq-cases k i) [
      | inl b ↦ absurd (
          r.alone j p a
            (ap (λ x. x.bno) (sym (r.others j a)) ∙ e ∙ ap (λ x. (s'.cache x).bno) b ∙ r.bno_is))
      | inr b ↦
          h.distinct j k p q
            (ap (λ x. x.bno) (sym (r.others j a)) ∙ e ∙ ap (λ x. x.bno) (r.others k b))
            (λ n. z (ap (λ x. x.bno) (r.others j a) ∙ n))
    ]
  ]

  pub Replaced-IsCache : IsCache s'
  Replaced-IsCache = record {
    distinct = distinct_after;
    unused =
        each (λ j x. x.used ≡ 0 → x.bno ≡ 0) (λ e. absurd (r.in_use e)) (λ j q n. h.unused j q);
    null_unused =
        each (λ j x. x.bno ≡ 0 → x.used ≡ 0) (λ e. absurd (r.proper (sym r.bno_is ∙ e)))
          (λ j q n. h.null_unused j q);
    entry_words = each (λ j x. AreWords x.u) r.entry_words (λ j q n. h.entry_words j q);
    image_words = r.image_words;
    reads = r.reads;
    writes = r.writes;
  }

  pub Replaced-view : view s' bno ≡ (s'.cache i).u
  Replaced-view = view-entry s' bno Replaced-IsCache i r.index r.bno_is r.proper

  gone : (b : ℕ) → b ≢ bno → ((j : ℕ) → j < 16 → j ≢ i → (s.cache j).bno ≢ b) → Absent b s'.cache
  gone b n a = each (λ j x. x.bno ≢ b) (λ e. n (sym e ∙ r.bno_is)) a

  pub Replaced-view_other : (b : ℕ) → b ≢ 0 → b ≢ bno → view s' b ≡ view s b
  Replaced-view_other b z n = elim (held-cases b s.cache) [
    | inl (j, q, e) ↦ elim (eq-cases j i) [
      | inl a ↦
          let was : (s.cache i).bno ≡ b = ap (λ x. (s.cache x).bno) (sym a) ∙ e in
          view-Absent s' b
            (gone b n (λ k p m c. m (h.distinct k i p r.index (c ∙ sym was) (λ y. z (sym c ∙ y)))))
          ∙ ap s'.image (sym was)
          ∙ r.saved (λ y. z (sym was ∙ y)) (λ y. n (sym was ∙ y))
          ∙ sym (view-entry s b h i r.index was z)
      | inr a ↦
          view-entry s' b Replaced-IsCache j q (ap (λ x. x.bno) (r.others j a) ∙ e) z
          ∙ ap (λ x. x.u) (r.others j a)
          ∙ sym (view-entry s b h j q e z)
    ]
    | inr a ↦
        view-Absent s' b (gone b n (λ k p m. a k p))
        ∙ r.image_is b (λ e. a i r.index (sym e))
        ∙ sym (view-Absent s b a)
  ]
