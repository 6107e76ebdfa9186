-- ===== src/Ospfs/Resize/Sound/Write.antt =====
-- Writing a pointer, and erasing a block, keep the invariant of `Sound`.
use cs111fall.Prelude.{
  ℕ, ◌+◌, ◌*◌, ◌/◌, ◌≤◌, ◌<◌, ◌≡◌, ◌⊎◌, inl, inr, Bool, true, ◌||◌, arith, ◌∙◌, ◌==◌, update,
  Bool-cases, ==_iff,
}
use cs111fall.Ospfs.Disk.{
  Disk, ospfs_block, os_nblocks, os_firstinob, zero_out_block, oi_size, oi_direct, oi_indirect,
  oi_indirect2,
}
use cs111fall.Ospfs.Bitvector.{bitvector_test}
use cs111fall.Ospfs.Alloc.{is_free}
use cs111fall.Ospfs.Resize.Sound.{Layout, IsInode, IsPtr-word, IsSound, ospfs_block_lem}

-- Where block pointers stand: in a data block, in the inode, or (only null) in the boot block.
abbrev pub IsPlace : Layout → ℕ → (a v : ℕ) → Type 0
IsPlace l oi a v = (l.data_blk * 256 ≤ a) ⊎ ((oi + 4 ≤ a) × (a < oi + 16)) ⊎ ((a < 256) × (v ≡ 0))

-- Marks depend on the bitmap alone.
pub is_free_same :
    (l : Layout) (d d' : Disk)
    → ((a : ℕ) → 512 ≤ a → a < l.first * 256 → d' a ≡ d a)
    → (b : ℕ) → b < l.nblocks
    → is_free d' b ≡ is_free d b
unfolding is_free bitvector_test ospfs_block
is_free_same l d d' same b h =
    rw (same (512 + b / 32) (omega arith) (omega (arith, l.map_fits, l.after_super)))

module _ {l : Layout} {oi : ℕ} (at : IsInode l oi) {tables : ℕ → Bool} {d : Disk}
    (s : IsSound l oi tables d) where
  -- A write of a table's number at such a place.
  pub write_keeps :
      (a v : ℕ)
      → tables v ≡ true
      → IsPlace l oi a v
      → (a ≡ oi_indirect2 oi → (k : ℕ) → k < 256 → d (ospfs_block v + k) ≡ 0)
      → IsSound l oi tables (update d a v) × (update d a v (oi_size oi) ≡ d (oi_size oi))
  unfolding os_nblocks os_firstinob
  write_keeps a v t place fresh = (
    record {
      nblocks = ground (arith, s.nblocks, at.from, l.ordered, l.after_super);
      firstinob = ground (arith, s.firstinob, at.from, l.ordered, l.after_super);
      boot = λ b h. ground (arith, s.boot b h, at.from, l.ordered, l.after_super);
      marks = λ b h f. s.marks b h (
          rw
            (is_free_same l d (update d a v)
              (λ c p q. ground (arith, at.from, l.ordered, l.after_super)) b h)
            at f);
      direct = λ k h. ground (arith, s.direct k h, s.pointers v t);
      indirect = ground (arith, s.indirect);
      indirect2 = ground (arith, s.indirect2);
      under = λ k h. elim (Bool-cases (a == oi_indirect2 oi)) [
        | inl e ↦ rw e (
            ground (
              arith,
              s.null,
              IsPtr-word at v k (s.pointers v t) h,
              fresh ((==_iff a (oi_indirect2 oi)).0 e) k h,
              at.from,
              at.to,
              l.ordered,
              l.after_super,
            ))
        | inr e ↦ rw e (ground (arith, s.under k h))
      ];
      null = s.null;
      pointers = s.pointers;
      words = λ p k q h. ground (arith, s.words p k q h, s.pointers v t);
    },
    ground (arith, at.to, at.from, l.ordered, l.after_super),
  )

abbrev pub also : ℕ → (ℕ → Bool) → ℕ → Bool
also b tables p = (p == b) || tables p

-- Erasing a data block makes it a table of null pointers.
module _ {l : Layout} {oi : ℕ} (at : IsInode l oi) {tables : ℕ → Bool} {d : Disk}
    (s : IsSound l oi tables d) (b : ℕ) (lower : l.data_blk ≤ b) (upper : b < l.nblocks) where
  pub zero_same : (a : ℕ) → a < l.data_blk * 256 → zero_out_block b d a ≡ d a
  unfolding zero_out_block
  zero_same a h = ground (arith, ospfs_block_lem b, l.small)

  pub zero_erased : (k : ℕ) → k < 256 → zero_out_block b d (ospfs_block b + k) ≡ 0
  unfolding zero_out_block
  zero_erased k h = ground arith

  zero_cases : (a : ℕ) → (zero_out_block b d a ≡ d a) ⊎ (zero_out_block b d a ≡ 0)
  unfolding zero_out_block
  zero_cases a = ground arith

  pub zero_keeps :
      IsSound l oi (also b tables) (zero_out_block b d)
      × (zero_out_block b d (oi_size oi) ≡ d (oi_size oi))
  unfolding os_nblocks os_firstinob
  zero_keeps = (
    record {
      nblocks = zero_same 257 (omega (arith, low)) ∙ s.nblocks;
      firstinob = zero_same 259 (omega (arith, low)) ∙ s.firstinob;
      boot = λ a h. zero_same a (omega (arith, l.ordered, l.after_super)) ∙ s.boot a h;
      marks = λ c h f. s.marks c h (
          rw
            (is_free_same l d (zero_out_block b d) (λ a p q. zero_same a (omega (arith, l.ordered)))
              c h)
            at f);
      direct = λ k h. ground (arith, s.direct k h, zero_cases (oi_direct oi + k));
      indirect = ground (arith, s.indirect, s.null, zero_cases (oi_indirect oi));
      indirect2 = ground (arith, s.indirect2, s.null, zero_cases (oi_indirect2 oi));
      under = λ k h.
          rw (zero_same (oi_indirect2 oi) (omega (arith, at.to))) (
            ground
              (arith, s.under k h, s.null, zero_cases (ospfs_block (d (oi_indirect2 oi)) + k)));
      null = ground (arith, s.null);
      pointers = λ p t. ground (arith, s.pointers p);
      words =
          λ p k t h. ground (arith, zero_erased k h, zero_cases (ospfs_block p + k), s.words p k);
    },
    zero_same oi (omega (arith, at.to)),
  )
    where
      low : 260 ≤ l.data_blk * 256
      low = omega (arith, l.ordered, l.after_super)

-- The size of the file is free to change.
pub size_keeps :
    {l : Layout} {oi : ℕ} (at : IsInode l oi) {tables : ℕ → Bool} {d : Disk}
    → IsSound l oi tables d
    → (v : ℕ) → IsSound l oi tables (update d (oi_size oi) v)
unfolding os_nblocks os_firstinob
size_keeps {l} {oi} at {tables} {d} s v = record {
  nblocks = ground (arith, s.nblocks, at.from, l.after_super);
  firstinob = ground (arith, s.firstinob, at.from, l.after_super);
  boot = λ a h. ground (arith, s.boot a h, at.from, l.after_super);
  marks = λ b h f.
      s.marks b h
        (rw (is_free_same l d (update d oi v) (λ a p q. ground (arith, at.from)) b h) at f);
  direct = λ k h. ground (arith, s.direct k h);
  indirect = ground (arith, s.indirect);
  indirect2 = ground (arith, s.indirect2);
  under = λ k h. ground (
    arith,
    s.under k h,
    IsPtr-word at (d (oi_indirect2 oi)) k (s.pointers _ s.indirect2) h,
    at.from,
    at.to,
    l.after_super,
  );
  null = s.null;
  pointers = s.pointers;
  words = λ p k t h.
      ground (
        arith,
        s.words p k t h,
        IsPtr-word at p k (s.pointers p t) h,
        at.from,
        at.to,
        l.after_super,
      );
}
