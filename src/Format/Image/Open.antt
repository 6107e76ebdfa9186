-- ===== src/Format/Image/Open.antt =====
-- opendisk of lab3/ospfsformat.c: the bitmap and the inodes of a new image.
use cs111fall.Prelude.{
  ℕ, ◌+◌, ◌-◌, ◌*◌, ◌/◌, ◌%◌, ◌^◌, ◌<◌, ◌≤◌, ◌≡◌, ◌≢◌, refl, ap, sym, ◌∙◌, true, ◌⊎◌, inl, inr,
  some, arith, ◌&&◌, ltb, leb, Bool-cases,
}
use cs111fall.Prelude.Bits.{digit_ones}
use cs111fall.Ospfs.Bitvector.{bitvector_test, test-digit}
use cs111fall.Format.Cache.{Fs, ◌>>◌, >>=-some}
use cs111fall.Format.Cache.View.{view, view-Absent}
use cs111fall.Format.Cache.Write.{IsIdle}
use cs111fall.Format.Image.{blkinodes, pieces, open_bits, open_inodes, open_end, opendisk, super_of}
use cs111fall.Format.Image.Bitmap.{marked}
use cs111fall.Format.Image.Fill.{Fills, open_bits-Fills, open_inodes-Fills}

-- The cache before its first use.
pub record IsUnused (s : Fs) : Type 0 where
  pub no_block : (j : ℕ) → (s.cache j).bno ≡ 0
  pub not_used : (j : ℕ) → (s.cache j).used ≡ 0
  pub not_busy : (j : ℕ) → (s.cache j).busy ≡ 0
  pub zeros : (j w : ℕ) → (s.cache j).u w ≡ 0
  pub reads : (b : ℕ) → s.reads b ≡ true
  pub writes : (b : ℕ) → s.writes b ≡ true

-- An image after `opendisk`: all blocks of the bitmap's range are marked as free, the other blocks are all
-- zeros, and the variables are set.
pub record Opened (s s' : Fs) : Type 0 where
  pub idle : IsIdle s'
  pub marks : (b : ℕ) → b < s'.nbitblock * 8192 → marked s' b ≡ true
  pub zeros : (b : ℕ) → b ≢ 0 → (b < 2) ⊎ (2 + s'.nbitblock ≤ b) → view s' b ≡ (λ w. 0)
  pub boot : s'.image 0 ≡ (λ w. 0)
  pub nbitblock_is : s'.nbitblock ≡ pieces s.nblocks 8192
  pub nblocks_is : s'.nblocks ≡ s.nblocks
  pub ninodes_is : s'.ninodes ≡ s.ninodes
  pub nextb_is : s'.nextb ≡ 2 + s'.nbitblock + pieces s.ninodes blkinodes
  pub nextinode_is : s'.nextinode ≡ 0
  pub super_is : s'.super ≡ super_of s.nblocks s.ninodes s'.nbitblock

test_ones : (j : ℕ) → j < 8192 → bitvector_test 0 j (λ w. 2 ^ 32 - 1) ≡ true
test_ones j h =
    rw (test-digit 0 j (λ w. 2 ^ 32 - 1)) (ground (arith, digit_ones (j % 32) 32 (omega arith)))

module _ (s : Fs) (h : IsUnused s) where
  -- After the truncation.
  abbrev truncated : Fs
  truncated = record s { image = λ b w. 0; nbitblock = pieces s.nblocks 8192 }

  truncated-IsIdle : IsIdle truncated
  truncated-IsIdle = record {
    cache_is = record {
      distinct = λ i j p q e z. absurd (z (h.no_block i));
      unused = λ i p e. h.no_block i;
      null_unused = λ i p e. h.not_used i;
      entry_words = λ i p w. omega (arith, h.zeros i w);
      image_words = λ b w. omega arith;
      reads = h.reads;
      writes = h.writes;
    };
    idle = h.not_busy;
  }

  truncated-view : (b : ℕ) → b ≢ 0 → view truncated b ≡ (λ w. 0)
  truncated-view b z = view-Absent truncated b (λ j q e. z (sym e ∙ h.no_block j))

  module _ (fits : 2 + pieces s.nblocks 8192 + pieces s.ninodes blkinodes ≤ s.nblocks) where
    abbrev nbits : ℕ
    nbits = pieces s.nblocks 8192

    module _ (s1 : Fs) (f1 : Fills (2 + 0) (2 + 0 + nbits) (λ w. 2 ^ 32 - 1) truncated s1) where
      module _ (s2 : Fs)
          (f2 : Fills
            (2 + nbits + 0)
            (2 + nbits + 0 + pieces s.ninodes blkinodes)
            (λ w. 0)
            s1
            s2) where
        both_same : s2 ≡ record truncated { image = s2.image; cache = s2.cache; t = s2.t }
        both_same =
            let with2 : Fs → Fs = λ x. record x { image = s2.image; cache = s2.cache; t = s2.t } in
            f2.same ∙ ap with2 f1.same

        bits_kept : s2.nbitblock ≡ nbits
        bits_kept = ap (λ (x : Fs). x.nbitblock) both_same

        blocks_kept : s2.nblocks ≡ s.nblocks
        blocks_kept = ap (λ (x : Fs). x.nblocks) both_same

        inodes_kept : s2.ninodes ≡ s.ninodes
        inodes_kept = ap (λ (x : Fs). x.ninodes) both_same

        bits_after : (b : ℕ) → 2 ≤ b → b < 2 + nbits → view s2 b ≡ (λ w. 2 ^ 32 - 1)
        bits_after b p q =
            f2.outside b (omega arith) (inl (omega arith)) ∙ f1.inside b (omega arith) (omega arith)

        zeros_after : (b : ℕ) → b ≢ 0 → (b < 2) ⊎ (2 + nbits ≤ b) → view s2 b ≡ (λ w. 0)
        zeros_after b z o =
            elim (Bool-cases
              (leb (2 + nbits) b && ltb b (2 + nbits + 0 + pieces s.ninodes blkinodes))) [
                | inl there ↦ f2.inside b (ground arith) (ground arith)
                | inr other ↦
                    f2.outside b z (ground arith)
                    ∙ f1.outside b z (ground arith)
                    ∙ truncated-view b z
              ]

        abbrev set_variables : Fs
        set_variables = record s2 {
          nextb = 2 + s2.nbitblock + pieces s2.ninodes blkinodes;
          nextinode = 0;
          super = super_of s2.nblocks s2.ninodes s2.nbitblock;
        }

        view_variables : (b : ℕ) → view set_variables b ≡ view s2 b
        unfolding view
        view_variables b = refl

        test_at :
            (b : ℕ)
            → view set_variables (2 + b / 8192) ≡ (λ w. 2 ^ 32 - 1)
            → marked set_variables b ≡ true
        test_at b e = rw e (test_ones (b % 8192) (omega arith))

        opened : Opened s set_variables
        opened = record {
          idle = record {
            cache_is = record {
              distinct = f2.idle.cache_is.distinct;
              unused = f2.idle.cache_is.unused;
              null_unused = f2.idle.cache_is.null_unused;
              entry_words = f2.idle.cache_is.entry_words;
              image_words = f2.idle.cache_is.image_words;
              reads = f2.idle.cache_is.reads;
              writes = f2.idle.cache_is.writes;
            };
            idle = f2.idle.idle;
          };
          marks = λ b q.
              let l : b < nbits * 8192 = rw bits_kept at q in
              test_at b (
                view_variables (2 + b / 8192)
                ∙ bits_after (2 + b / 8192) (omega arith) (omega arith));
          zeros = λ b z o. view_variables b ∙ zeros_after b z (rw bits_kept at o);
          boot = f2.boot ∙ f1.boot;
          nbitblock_is = bits_kept;
          nblocks_is = blocks_kept;
          ninodes_is = inodes_kept;
          nextb_is = rw inodes_kept refl;
          nextinode_is = refl;
          super_is = rw (blocks_kept, inodes_kept) refl;
        }

      inodes_step :
          (s3 : Fs) × ((do open_inodes (2 + nbits) (pieces s.ninodes blkinodes) 0; open_end) s1
            ≡ some (tt, s3))
          × Opened s s3
      unfolding open_end
      inodes_step =
          let kept : s1.nblocks ≡ s.nblocks = ap (λ (x : Fs). x.nblocks) f1.same in
          let (s2, run, f2) =
            open_inodes-Fills (2 + nbits) (pieces s.ninodes blkinodes) 0 s1 f1.idle (omega arith)
              (omega arith) in
          (
            set_variables s2 f2,
            >>=-some (open_inodes (2 + nbits) (pieces s.ninodes blkinodes) 0) (λ _. open_end) s1
                run,
            opened s2 f2,
          )

    -- From the program's start, with room for the bitmap and the inodes on the disk, `opendisk` succeeds and
    -- leaves what `Opened` says.
    pub opendisk-Opened : (s' : Fs) × (opendisk s ≡ some (tt, s')) × Opened s s'
    unfolding opendisk
    opendisk-Opened =
        let (s1, run, f1) = open_bits-Fills nbits 0 truncated truncated-IsIdle (omega arith) in
        let (s3, rest, o) = inodes_step s1 f1 in
        (
          s3,
          >>=-some (open_bits nbits 0)
                (λ _. do open_inodes (2 + nbits) (pieces s.ninodes blkinodes) 0; open_end) truncated
                run
              ∙ rest,
          o,
        )
