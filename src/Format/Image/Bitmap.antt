-- ===== src/Format/Image/Bitmap.antt =====
-- The bitmap that finishfs of lab3/ospfsformat.c leaves.
use Prim.Native.Nat.{bit_and}
use cs111fall.Prelude.{
  ℕ, zero, suc, ◌+◌, ◌*◌, ◌/◌, ◌%◌, ◌^◌, ◌<◌, ◌≤◌, ◌≡◌, ◌≢◌, refl, ap, ◌∙◌, Bool, false, ◌&&◌, ◌||◌,
  ◌⊎◌, inl, inr, some, arith, ltb, leb, ◌==◌, if◌then◌else◌, update, Bool-cases,
}
use cs111fall.Prelude.Bits.{bit_and-le, complement}
use cs111fall.Ospfs.Bitvector.{bitvector_test, bitvector_clear, test-clear}
use cs111fall.Format.Blocks.{Words, block_bits}
use cs111fall.Format.Cache.{Fs, with_block}
use cs111fall.Format.Cache.View.{view}
use cs111fall.Format.Cache.Write.{KeepsWords, IsIdle, with_block-IsIdle}
use cs111fall.Format.Image.{clear_bit, clear_bits}

clear_bit_lem : (i : ℕ) (u : Words) → clear_bit i u ≡ bitvector_clear 0 i u
unfolding clear_bit bitvector_clear
clear_bit_lem i u =
    let e : i / 32 ≡ 0 + i / 32 = omega arith in
    ap (λ (k : ℕ). update u k (bit_and (u k) (complement 32 (2 ^ (i % 32))))) e

pub test-clear_bit :
    (i b : ℕ) (u : Words)
    → bitvector_test 0 b (clear_bit i u) ≡ (if i == b then false else bitvector_test 0 b u)
test-clear_bit i b u = rw (clear_bit_lem i u) (test-clear 0 i b u)

pub test-clear_bits :
    (n i b : ℕ) (u : Words)
    → bitvector_test 0 b (clear_bits n i u)
      ≡ (if leb i b && ltb b (i + n) then false else bitvector_test 0 b u)
unfolding clear_bits
test-clear_bits zero i b u = ground arith
test-clear_bits (suc n) i b u =
    test-clear_bits n (suc i) b (clear_bit i u) ∙ ground (arith, test-clear_bit i b u)

pub clear_bit-KeepsWords : (i : ℕ) → KeepsWords (clear_bit i)
unfolding clear_bit
clear_bit-KeepsWords i u h w =
    ground (arith, bit_and-le (u (i / 32)) (complement 32 (2 ^ (i % 32))), h w, h (i / 32))

pub clear_bits-KeepsWords : (n i : ℕ) → KeepsWords (clear_bits n i)
unfolding clear_bits
clear_bits-KeepsWords zero i u h = h
clear_bits-KeepsWords (suc n) i u h =
    clear_bits-KeepsWords n (suc i) (clear_bit i u) (clear_bit-KeepsWords i u h)

-- Whether the bitmap from block 2 on marks block `b` as free.
abbrev pub marked : Fs → ℕ → Bool
marked s b = bitvector_test 0 (b % 8192) (view s (2 + b / 8192))

-- In a bitmap of `m` blocks the marks of the blocks that pass the test are gone, and nothing else has changed.
pub record Unmarks (m : ℕ) (test : ℕ → Bool) (s s' : Fs) : Type 0 where
  pub idle : IsIdle s'
  pub marks : (b : ℕ) → b < m * 8192 → marked s' b ≡ (if test b then false else marked s b)
  pub outside : (b : ℕ) → b ≢ 0 → (b < 2) ⊎ (2 + m ≤ b) → view s' b ≡ view s b
  pub boot : s'.image 0 ≡ s.image 0
  pub same : s' ≡ record s { image = s'.image; cache = s'.cache; t = s'.t }

pub Unmarks-then :
    {m : ℕ} {p q : ℕ → Bool} {s s1 s2 : Fs}
    → Unmarks m p s s1
    → Unmarks m q s1 s2
    → Unmarks m (λ b. p b || q b) s s2
Unmarks-then {p} {q} {s} {s1} {s2} a c = record {
  idle = c.idle;
  marks = λ b h. ground (arith, a.marks b h, c.marks b h);
  outside = λ b n o. c.outside b n o ∙ a.outside b n o;
  boot = c.boot ∙ a.boot;
  same =
      let then2 : Fs → Fs = λ x. record x { image = s2.image; cache = s2.cache; t = s2.t } in
      c.same ∙ ap then2 a.same;
}

module _ (m : ℕ) (s : Fs) (h : IsIdle s) (small : 2 + m ≤ s.nblocks) where
  -- One block of the bitmap is written, in a way that takes the bits away that pass a test.
  pub unmark :
      (k : ℕ) (f : Words → Words) (test : ℕ → Bool)
      → k < m
      → KeepsWords f
      → ((b : ℕ) (u : Words)
          → b < 8192
          → bitvector_test 0 b (f u) ≡ (if test b then false else bitvector_test 0 b u))
      → (s' : Fs) × (with_block (2 + k) false block_bits f s ≡ some (tt, s'))
        × Unmarks m (λ b. (b / 8192 == k) && test (b % 8192)) s s'
  unmark k f test q w e =
      let (s', run, wrote, idle) =
        with_block-IsIdle s (2 + k) false block_bits f h (omega arith) (omega arith) w in
      (
        s',
        run,
        record {
          idle = idle;
          marks = λ b p. elim (Bool-cases (b / 8192 == k)) [
            | inl there ↦
                let same : b / 8192 ≡ k = ground arith in
                rw (there, same) (rw wrote.view_is (e (b % 8192) (view s (2 + k)) (omega arith)))
            | inr other ↦
                rw (other, wrote.view_other (2 + b / 8192) (omega arith) (ground arith)) refl
          ];
          outside = λ b n o. wrote.view_other b n (ground arith);
          boot = wrote.boot;
          same = wrote.same;
        },
      )
