-- ===== src/Format/Image/Fill.antt =====
-- The two loops of opendisk in lab3/ospfsformat.c.
use cs111fall.Prelude.{
  ℕ, zero, suc, ◌+◌, ◌-◌, ◌^◌, ◌<◌, ◌≤◌, ◌≡◌, ◌≢◌, refl, ap, ◌∙◌, true, false, ◌⊎◌, inl, inr, some,
  arith, ◌==◌, Bool-cases,
}
use cs111fall.Format.Blocks.{Words, block_bits, block_inodes}
use cs111fall.Format.Cache.{Fs, with_block, >>=-some}
use cs111fall.Format.Cache.View.{view}
use cs111fall.Format.Cache.Write.{Wrote, KeepsWords, IsIdle, with_block-IsIdle}
use cs111fall.Format.Image.{all_ones, open_bits, open_inodes}

-- The blocks from `lo` up to `hi` have the words `u`, and nothing else has changed.
pub record Fills (lo hi : ℕ) (u : Words) (s s' : Fs) : Type 0 where
  pub idle : IsIdle s'
  pub inside : (b : ℕ) → lo ≤ b → b < hi → view s' b ≡ u
  pub outside : (b : ℕ) → b ≢ 0 → (b < lo) ⊎ (hi ≤ b) → view s' b ≡ view s b
  pub boot : s'.image 0 ≡ s.image 0
  pub same : s' ≡ record s { image = s'.image; cache = s'.cache; t = s'.t }

Fills-none : (lo hi : ℕ) (u : Words) (s : Fs) → IsIdle s → hi ≤ lo → Fills lo hi u s s
Fills-none lo hi u s h e = record {
  idle = h;
  inside = λ b p q. absurd (omega arith);
  outside = λ b n o. refl;
  boot = refl;
  same = refl;
}

Fills-next :
    {lo hi : ℕ} {u : Words} {s s1 s2 : Fs}
    → lo ≢ 0
    → Wrote s lo u s1
    → Fills (suc lo) hi u s1 s2
    → lo < hi
    → Fills lo hi u s s2
Fills-next {lo} {hi} {u} {s} {s1} {s2} z w f l = record {
  idle = f.idle;
  inside = λ b p q. elim (Bool-cases (b == lo)) [
    | inl e ↦
        let same : b ≡ lo = ground arith in rw same (f.outside lo z (inl (omega arith)) ∙ w.view_is)
    | inr n ↦ f.inside b (ground arith) q
  ];
  outside = λ b n o. f.outside b n (ground arith) ∙ w.view_other b n (ground arith);
  boot = f.boot ∙ w.boot;
  same =
      let with2 : Fs → Fs = λ x. record x { image = s2.image; cache = s2.cache; t = s2.t } in
      f.same ∙ ap with2 w.same;
}

ones_words : KeepsWords all_ones
ones_words u h w = omega arith

pub open_bits-Fills :
    (n i : ℕ) (s : Fs)
    → IsIdle s
    → 2 + i + n ≤ s.nblocks
    → (s' : Fs) × (open_bits n i s ≡ some (tt, s'))
      × Fills (2 + i) (2 + i + n) (λ w. 2 ^ 32 - 1) s s'
unfolding open_bits
open_bits-Fills zero i s h l =
    (s, refl, Fills-none (2 + i) (2 + i + zero) (λ w. 2 ^ 32 - 1) s h (omega arith))
open_bits-Fills (suc n) i s h l =
    let (s1, run, w, idle) =
      with_block-IsIdle s (2 + i) false block_bits all_ones h (omega arith) (omega arith)
        ones_words in
    let kept : s1.nblocks ≡ s.nblocks = ap (λ (x : Fs). x.nblocks) w.same in
    let (s2, rest, f) = open_bits-Fills n (suc i) s1 idle (omega arith) in
    let e1 : 2 + suc i ≡ suc (2 + i) = omega arith in
    let e2 : suc (2 + i) + n ≡ 2 + i + suc n = omega arith in
    (
      s2,
      >>=-some (with_block (2 + i) false block_bits all_ones) (λ _. open_bits n (suc i)) s run
          ∙ rest,
      Fills-next (omega arith) w (rw (e1, e2) at f) (omega arith),
    )

pub open_inodes-Fills :
    (first n i : ℕ) (s : Fs)
    → IsIdle s
    → 2 ≤ first
    → first + i + n ≤ s.nblocks
    → (s' : Fs) × (open_inodes first n i s ≡ some (tt, s'))
      × Fills (first + i) (first + i + n) (λ w. 0) s s'
unfolding open_inodes
open_inodes-Fills first zero i s h p l =
    (s, refl, Fills-none (first + i) (first + i + zero) (λ w. 0) s h (omega arith))
open_inodes-Fills first (suc n) i s h p l =
    let (s1, run, w, idle) =
      with_block-IsIdle s (first + i) true block_inodes (λ u. u) h (omega arith) (omega arith)
        (λ u k. k) in
    let kept : s1.nblocks ≡ s.nblocks = ap (λ (x : Fs). x.nblocks) w.same in
    let (s2, rest, f) = open_inodes-Fills first n (suc i) s1 idle p (omega arith) in
    let e1 : first + suc i ≡ suc (first + i) = omega arith in
    let e2 : suc (first + i) + n ≡ first + i + suc n = omega arith in
    (
      s2,
      >>=-some (with_block (first + i) true block_inodes (λ u. u))
            (λ _. open_inodes first n (suc i)) s run
          ∙ rest,
      Fills-next (omega arith) w (rw (e1, e2) at f) (omega arith),
    )
