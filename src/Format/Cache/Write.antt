-- ===== src/Format/Cache/Write.antt =====
-- A block of the cache of lab3/ospfsformat.c that is got, written and given back.
use cs111fall.Prelude.{
  ℕ, ◌+◌, ◌-◌, ◌%◌, ◌^◌, ◌<◌, ◌≡◌, ◌≢◌, ◌⊎◌, inl, inr, refl, ap, sym, ◌∙◌, Bool, some, arith,
  update, update_self, update_ne,
}
use cs111fall.Format.Blocks.{Words, BlockType, AreWords}
use cs111fall.Format.Cache.{
  Block, Fs, set_block, getblk, putblk, modify, with_block, ◌>>◌, >>=-some,
}
use cs111fall.Format.Cache.View.{view, IsCache}
use cs111fall.Format.Cache.Replace.{Replaced, Replaced-IsCache, Replaced-view, Replaced-view_other}
use cs111fall.Format.Cache.Evict.{cleared}
use cs111fall.Format.Cache.Get.{Got, NotBusy, getblk-Got}

-- Only the words of block `bno` are others: they are `u` now.
pub record Wrote (s : Fs) (bno : ℕ) (u : Words) (s' : Fs) : Type 0 where
  pub view_is : view s' bno ≡ u
  pub view_other : (b : ℕ) → b ≢ 0 → b ≢ bno → view s' b ≡ view s b
  pub cache_is : IsCache s'
  pub busy_is : (j : ℕ) → (s'.cache j).busy ≡ (s.cache j).busy
  pub boot : s'.image 0 ≡ s.image 0
  pub same : s' ≡ record s { image = s'.image; cache = s'.cache; t = s'.t }

-- Words of 32 bits stay words of 32 bits.
abbrev pub KeepsWords : (Words → Words) → Type 0
KeepsWords f = (u : Words) → AreWords u → AreWords (f u)

abbrev pub given_back : Block → Block
given_back b = record b { busy = (b.busy + (2 ^ 32 - 1)) % 2 ^ 32 }

module _ {s s1 : Fs} {bno : ℕ} {clr : Bool} {i : ℕ} (g : Got s bno clr i s1) (z : bno ≢ 0)
    (f : Words → Words) (k : KeepsWords f) where
  abbrev pub written : Block
  written = record (s1.cache i) { u = f (s1.cache i).u }

  abbrev pub after : Fs
  after = set_block i (given_back (update s1.cache i written i)) (set_block i written s1)

  entry_after : after.cache i ≡ given_back written
  entry_after =
      update_self (update s1.cache i written) i (given_back (update s1.cache i written i))
      ∙ rw (update_self s1.cache i written) refl

  others_after : (j : ℕ) → j ≢ i → after.cache j ≡ s1.cache j
  others_after j n =
      update_ne (update s1.cache i written) i (given_back (update s1.cache i written i)) j
        (λ e. n (sym e))
      ∙ update_ne s1.cache i written j (λ e. n (sym e))

  after-Replaced : Replaced s1 bno i after
  after-Replaced = record {
    index = g.index;
    proper = z;
    others = others_after;
    bno_is = rw entry_after g.bno_is;
    alone =
        λ j p n c. n (g.cache_is.distinct j i p g.index (c ∙ sym g.bno_is) (λ y. z (sym c ∙ y)));
    saved = λ y n. absurd (n g.bno_is);
    image_is = λ b n. refl;
    in_use = rw entry_after (λ e. z (sym g.bno_is ∙ g.cache_is.unused i g.index e));
    boot = refl;
    entry_words = rw entry_after (k (s1.cache i).u (g.cache_is.entry_words i g.index));
    image_words = g.cache_is.image_words;
    reads = g.cache_is.reads;
    writes = g.cache_is.writes;
  }

  busy_after : (j : ℕ) → (j ≡ i) ⊎ (j ≢ i) → (after.cache j).busy ≡ (s.cache j).busy
  busy_after j (inl e) = rw e (rw (entry_after, g.busy_is) (sym g.was_idle))
  busy_after j (inr n) = ap (λ b. b.busy) (others_after j n ∙ g.others j n)

  pub after-Wrote : Wrote s bno (f (cleared clr (view s bno))) after
  after-Wrote = record {
    view_is = Replaced-view g.cache_is after-Replaced ∙ ap (λ b. b.u) entry_after ∙ ap f g.u_is;
    view_other = λ b n m. Replaced-view_other g.cache_is after-Replaced b n m ∙ g.view_other b n m;
    cache_is = Replaced-IsCache g.cache_is after-Replaced;
    busy_is = λ j. busy_after j (ground arith);
    boot = g.boot;
    same = let with_cache : Fs → Fs = λ x. record x { cache = after.cache } in ap with_cache g.same;
  }

-- For a block of the disk that no entry has busy, with an entry that is not busy: the block's words are those
-- that the writes make of it, and nothing else that the cache stands for has changed.
pub with_block-Wrote :
    (s : Fs) (bno : ℕ) (clr : Bool) (type : BlockType) (f : Words → Words)
    → IsCache s
    → bno ≢ 0
    → bno < s.nblocks
    → NotBusy s bno
    → (free : ℕ) → free < 16
    → (s.cache free).busy ≡ 0
    → KeepsWords f
    → (s' : Fs) × (with_block bno clr type f s ≡ some (tt, s'))
      × Wrote s bno (f (cleared clr (view s bno))) s'
unfolding with_block modify putblk
with_block-Wrote s bno clr type f h z inside idle free q b k =
    let (i, s1, e, g) = getblk-Got s h bno z inside idle free q b clr type in
    (
      after g z f k,
      >>=-some (getblk bno clr type) (λ i. do modify i f; putblk i) s e,
      after-Wrote g z f k,
    )

-- A cache in order with no block in use.
pub record IsIdle (s : Fs) : Type 0 where
  pub cache_is : IsCache s
  pub idle : (j : ℕ) → (s.cache j).busy ≡ 0

pub with_block-IsIdle :
    (s : Fs) (bno : ℕ) (clr : Bool) (type : BlockType) (f : Words → Words)
    → IsIdle s
    → bno ≢ 0
    → bno < s.nblocks
    → KeepsWords f
    → (s' : Fs) × (with_block bno clr type f s ≡ some (tt, s'))
      × Wrote s bno (f (cleared clr (view s bno))) s'
      × IsIdle s'
with_block-IsIdle s bno clr type f h z inside k =
    let (s', e, w) =
      with_block-Wrote s bno clr type f h.cache_is z inside (λ i q c. h.idle i) 0 (omega arith)
        (h.idle 0) k in
    (s', e, w, record { cache_is = w.cache_is; idle = λ j. w.busy_is j ∙ h.idle j })
