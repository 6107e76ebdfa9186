-- ===== src/Format/Image/Finish.antt =====
-- finishfs of lab3/ospfsformat.c: the blocks that stay free, and the superblock.
use cs111fall.Prelude.{
  ℕ, zero, suc, ◌+◌, ◌-◌, ◌*◌, ◌/◌, ◌%◌, ◌^◌, ◌<◌, ◌≤◌, ◌≡◌, refl, ap, sym, ◌∙◌, Bool, true, false,
  ◌&&◌, inl, inr, some, arith, ltb, leb, ◌==◌, Bool-cases,
}
use cs111fall.Format.Blocks.{block_super, block_bits}
use cs111fall.Format.Cache.{Fs, Super, with_block, ◌>>◌, >>=-some}
use cs111fall.Format.Cache.View.{view}
use cs111fall.Format.Cache.Write.{Wrote, KeepsWords, IsIdle, with_block-IsIdle}
use cs111fall.Format.Image.{
  pieces, clear_bit, clear_bits, mark_used, mark_past_end, put_super, write_super, finishfs,
}
use cs111fall.Format.Image.Bitmap.{
  marked, Unmarks, Unmarks-then, unmark, clear_bits-KeepsWords, clear_bit-KeepsWords,
  test-clear_bit, test-clear_bits,
}

Unmarks-test :
    {m : ℕ} {p q : ℕ → Bool} {s s' : Fs}
    → Unmarks m p s s'
    → ((b : ℕ) → b < m * 8192 → p b ≡ q b)
    → Unmarks m q s s'
Unmarks-test {p} {q} {s} {s'} u e = record {
  idle = u.idle;
  marks = λ b h. u.marks b h ∙ rw (e b h) refl;
  outside = u.outside;
  boot = u.boot;
  same = u.same;
}

Unmarks-none :
    (m : ℕ) (q : ℕ → Bool) (s : Fs)
    → IsIdle s
    → ((b : ℕ) → b < m * 8192 → q b ≡ false)
    → Unmarks m q s s
Unmarks-none m q s h e = record {
  idle = h;
  marks = λ b l. rw (e b l) refl;
  outside = λ b n o. refl;
  boot = refl;
  same = refl;
}

mark_used-Unmarks :
    (m n i : ℕ) (s : Fs)
    → IsIdle s
    → 2 + m ≤ s.nblocks
    → i + n ≤ m * 8192
    → (s' : Fs) × (mark_used n i s ≡ some (tt, s')) × Unmarks m (λ b. leb i b && ltb b (i + n)) s s'
unfolding mark_used
mark_used-Unmarks m zero i s h small l =
    (s, refl, Unmarks-none m (λ b. leb i b && ltb b (i + zero)) s h (λ b q. ground arith))
mark_used-Unmarks m (suc n) i s h small l =
    let (s1, run, u) =
      unmark m s h small (i / 8192) (clear_bit (i % 8192)) (λ b. i % 8192 == b) (omega arith)
        (clear_bit-KeepsWords (i % 8192)) (λ b w q. test-clear_bit (i % 8192) b w) in
    let still : s1.nblocks ≡ s.nblocks = ap (λ (x : Fs). x.nblocks) u.same in
    let (s2, rest, v) = mark_used-Unmarks m n (suc i) s1 u.idle (omega arith) (omega arith) in
    (
      s2,
      >>=-some (with_block (2 + i / 8192) false block_bits (clear_bit (i % 8192)))
            (λ _. mark_used n (suc i)) s run
          ∙ rest,
      Unmarks-test (Unmarks-then u v) (λ b q. ground arith),
    )

-- The bits of the last block of the bitmap from the end of the disk on.
last_bits :
    (n m b : ℕ)
    → m ≡ pieces n 8192
    → (n == m * 8192) ≡ false
    → b < m * 8192
    → (b / 8192 == m - 1
        && (leb (n % 8192) (b % 8192) && ltb (b % 8192) (n % 8192 + (8192 - n % 8192))))
      ≡ leb n b
last_bits n m b p e q = ground arith

mark_past_end-Unmarks :
    (s : Fs)
    → IsIdle s
    → 2 + s.nbitblock ≤ s.nblocks
    → s.nbitblock ≡ pieces s.nblocks 8192
    → (s' : Fs) × (mark_past_end s ≡ some (tt, s'))
      × Unmarks s.nbitblock (λ b. leb s.nblocks b) s s'
unfolding mark_past_end
mark_past_end-Unmarks s h small p = elim (Bool-cases (s.nblocks == s.nbitblock * 8192)) [
  | inl whole ↦
      (s, rw whole refl, Unmarks-none s.nbitblock (λ b. leb s.nblocks b) s h (λ b q. ground arith))
  | inr part ↦
      let first = s.nblocks % 8192 in
      let (s1, run, u) =
        unmark s.nbitblock s h small (s.nbitblock - 1) (clear_bits (8192 - first) first)
          (λ b. leb first b && ltb b (first + (8192 - first))) (omega arith)
          (clear_bits-KeepsWords (8192 - first) first)
          (λ b w q. test-clear_bits (8192 - first) first b w) in
      let last : 2 + s.nbitblock - 1 ≡ 2 + (s.nbitblock - 1) = omega arith in
      (
        s1,
        rw part (
            ap (λ k. with_block k false block_bits (clear_bits (8192 - first) first) s) last ∙ run),
        Unmarks-test u (λ b q. last_bits s.nblocks s.nbitblock b p part q),
      )
]

-- The fields of the superblock are words.
abbrev pub IsSuper : Super → Type 0
IsSuper p =
    (p.os_magic < 2 ^ 32)
    × (p.os_nblocks < 2 ^ 32)
    × (p.os_ninodes < 2 ^ 32)
    × (p.os_firstinob < 2 ^ 32)

put_super-KeepsWords : (p : Super) → IsSuper p → KeepsWords (put_super p)
put_super-KeepsWords p h u w k = ground (arith, w k)

-- What `finishfs` leaves in the cache: of the blocks that were marked as free those from `nextb` up to the
-- end of the disk are marked, block 1 begins with the superblock, and all other blocks are as they were.
pub record Finished (s s' : Fs) : Type 0 where
  pub idle : IsIdle s'
  pub marks :
      (b : ℕ)
      → b < s.nbitblock * 8192
      → marked s' b ≡ (leb s.nextb b && ltb b s.nblocks && marked s b)
  pub super_is : view s' 1 ≡ put_super s.super (λ w. 0)
  pub outside : (b : ℕ) → 2 + s.nbitblock ≤ b → view s' b ≡ view s b
  pub boot : s'.image 0 ≡ s.image 0
  pub same : s' ≡ record s { image = s'.image; cache = s'.cache; t = s'.t }

-- The three steps of `finishfs`, the last first.
module _ (s : Fs) (small : 2 + s.nbitblock ≤ s.nblocks) (p : s.nbitblock ≡ pieces s.nblocks 8192)
    (su : IsSuper s.super) where
  module _ (s1 : Fs) (u1 : Unmarks s.nbitblock (λ b. leb 0 b && ltb b (0 + s.nextb)) s s1) where
    nblocks_kept : s1.nblocks ≡ s.nblocks
    nblocks_kept = ap (λ (x : Fs). x.nblocks) u1.same

    nbitblock_kept : s1.nbitblock ≡ s.nbitblock
    nbitblock_kept = ap (λ (x : Fs). x.nbitblock) u1.same

    module _ (s2 : Fs) (u2 : Unmarks s1.nbitblock (λ b. leb s1.nblocks b) s1 s2) where
      super_kept : s2.super ≡ s.super
      super_kept = ap (λ (x : Fs). x.super) u2.same ∙ ap (λ (x : Fs). x.super) u1.same

      blocks_kept : s2.nblocks ≡ s.nblocks
      blocks_kept = ap (λ (x : Fs). x.nblocks) u2.same ∙ nblocks_kept

      both-marks :
          (b : ℕ)
          → b < s.nbitblock * 8192
          → marked s2 b ≡ (leb s.nextb b && ltb b s.nblocks && marked s b)
      both-marks b q =
          let n = nblocks_kept in
          let m = nbitblock_kept in
          let second = u2.marks b (rw m q) in let first = u1.marks b q in ground arith

      module _ (s3 : Fs) (w : Wrote s2 1 (put_super s2.super (λ w. 0)) s3) (idle : IsIdle s3) where
        with_super : Finished s s3
        with_super = record {
          idle = idle;
          marks =
              λ b q. rw (w.view_other (2 + b / 8192) (omega arith) (omega arith)) (both-marks b q);
          super_is = w.view_is ∙ ap (λ (x : Super). put_super x (λ w. 0)) super_kept;
          outside = λ b o.
              w.view_other b (omega arith) (omega arith)
              ∙ u2.outside b (omega arith) (inr (rw nbitblock_kept o))
              ∙ u1.outside b (omega arith) (inr o);
          boot = w.boot ∙ u2.boot ∙ u1.boot;
          same =
              let with3 : Fs → Fs =
                λ x. record x { image = s3.image; cache = s3.cache; t = s3.t } in
              w.same ∙ ap with3 u2.same ∙ ap with3 u1.same;
        }

      super_step : (s3 : Fs) × (write_super s2 ≡ some (tt, s3)) × Finished s s3
      unfolding write_super
      super_step =
          let (s3, run, w, idle) =
            with_block-IsIdle s2 1 true block_super (put_super s2.super) u2.idle (omega arith)
              (omega (arith, blocks_kept)) (put_super-KeepsWords s2.super (rw super_kept su)) in
          (s3, run, with_super s3 w idle)

    past_end_step : (s3 : Fs) × ((do mark_past_end; write_super) s1 ≡ some (tt, s3)) × Finished s s3
    past_end_step =
        let (s2, run, u2) =
          mark_past_end-Unmarks s1 u1.idle (omega (arith, nblocks_kept, nbitblock_kept))
            (nbitblock_kept ∙ p ∙ ap (λ (n : ℕ). pieces n 8192) (sym nblocks_kept)) in
        let (s3, rest, done) = super_step s2 u2 in
        (s3, >>=-some mark_past_end (λ _. write_super) s1 run ∙ rest, done)

  -- From a state with no block in use, a cache in order, a host that reads and writes the image, a bitmap that
  -- lies on the disk and covers it, words of 32 bits as the fields of the superblock, and no more than
  -- `nblocks` blocks used: `finishfs` succeeds; of the blocks that were marked as free those from `nextb` up
  -- to the end of the disk are marked, block 1 begins with the superblock, and the blocks after the bitmap
  -- are as they were.
  pub finishfs-Finished :
      IsIdle s → s.nextb ≤ s.nblocks → (s' : Fs) × (finishfs s ≡ some (tt, s')) × Finished s s'
  unfolding finishfs
  finishfs-Finished h l =
      let (s1, run, u1) = mark_used-Unmarks s.nbitblock s.nextb 0 s h small (omega arith) in
      let (s3, rest, done) = past_end_step s1 u1 in
      (s3, >>=-some (mark_used s.nextb 0) (λ _. do mark_past_end; write_super) s run ∙ rest, done)
