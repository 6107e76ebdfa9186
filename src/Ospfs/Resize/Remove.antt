-- ===== src/Ospfs/Resize/Remove.antt =====
-- `remove_block` takes one block off the size and keeps the invariant.
use cs111fall.Prelude.{
  ℕ, ◌+◌, ◌-◌, ◌/◌, ◌%◌, ◌≤◌, ◌<◌, ◌≡◌, refl, inl, inr, Bool, true, arith, ltb, ◌==◌, Bool-cases,
  ne→==, ◌∙◌,
}
use cs111fall.Ospfs.Disk.{
  Disk, blksize, sub32, ospfs_block, ospfs_size2nblocks, oi_size, oi_direct, oi_indirect,
  oi_indirect2,
}
use cs111fall.Ospfs.Index.Slot.{direct_indices, indirect_indices, indirect2_indices}
use cs111fall.Ospfs.Resize.{
  Status, success, release, shrink, remove_indirect, remove_indirect2, remove_block,
}
use cs111fall.Ospfs.Resize.Sized.{Sized}
use cs111fall.Ospfs.Resize.Sound.{Layout, IsInode, IsPtr, IsPtr-word, IsSound, free_keeps}
use cs111fall.Ospfs.Resize.Sound.Write.{IsPlace, write_keeps, size_keeps}

-- The invariant with the same size of the file.
abbrev Kept : (l : Layout) (oi size : ℕ) → (ℕ → Bool) → Disk → Type 0
Kept l oi size tables d = IsSound l oi tables d × (d (oi_size oi) ≡ size)

module _ {l : Layout} {oi : ℕ} (at : IsInode l oi) {size : ℕ} {tables : ℕ → Bool} {d : Disk} where
  release-Kept :
      (a : ℕ)
      → Kept l oi size tables d
      → IsPtr l (d a)
      → IsPlace l oi a 0
      → Kept l oi size tables (release a d)
  unfolding release ospfs_block
  release-Kept a (s, e) p place =
      let (s', e') = free_keeps at s (d a) p in
      let kept = write_keeps at s' a 0 s'.null place (λ c k h. s'.boot (0 + k) (omega arith)) in
      (kept.0, kept.1 ∙ e' ∙ e)

  -- The word `k` of a table, which may be the boot block.
  release_word-Kept :
      (p k : ℕ)
      → Kept l oi size tables d
      → tables p ≡ true
      → k < 256
      → Kept l oi size tables (release (ospfs_block p + k) d)
  release_word-Kept p k (s, e) t h =
      release-Kept (ospfs_block p + k) (s, e) (s.words p k t h)
        (ground (arith, IsPtr-word at p k (s.pointers p t) h))

module _ {l : Layout} {oi : ℕ} (at : IsInode l oi) {size : ℕ} {tables : ℕ → Bool} {d : Disk}
    (k : Kept l oi size tables d) where
  release_direct-Kept : (n : ℕ) → n < 10 → Kept l oi size tables (release (oi_direct oi + n) d)
  release_direct-Kept n h =
      release-Kept at (oi_direct oi + n) k (k.0.direct n h) (inr (inl (omega arith, omega arith)))

  release_indirect-Kept : Kept l oi size tables (release (oi_indirect oi) d)
  release_indirect-Kept =
      release-Kept at (oi_indirect oi) k (k.0.pointers _ k.0.indirect)
        (inr (inl (omega arith, omega arith)))

  release_indirect2-Kept : Kept l oi size tables (release (oi_indirect2 oi) d)
  release_indirect2-Kept =
      release-Kept at (oi_indirect2 oi) k (k.0.pointers _ k.0.indirect2)
        (inr (inl (omega arith, omega arith)))

module _ {l : Layout} {oi : ℕ} (at : IsInode l oi) {size : ℕ} {tables : ℕ → Bool} {d : Disk}
    (k : Kept l oi size tables d) (n : ℕ) where
  remove_indirect-Kept : 10 ≤ n → n < 266 → Kept l oi size tables (remove_indirect oi n d)
  unfolding remove_indirect
  remove_indirect-Kept lo hi = rw (indirect_indices n lo hi).2 (
      let one = release_word-Kept at (d (oi_indirect oi)) (n - 10) k k.0.indirect (omega arith) in
      elim (Bool-cases (n == 10)) [
        | inl last ↦ rw last (release_indirect-Kept at one)
        | inr more ↦ rw more one
      ])

  remove_indirect2-Kept : 266 ≤ n → n < 65802 → Kept l oi size tables (remove_indirect2 oi n d)
  unfolding remove_indirect2
  remove_indirect2-Kept lo hi =
      let i = indirect2_indices n lo (omega arith) in
      let j = (n - 266) / 256 in
      let top = d (oi_indirect2 oi) in
      let one =
        release_word-Kept at (d (ospfs_block top + j)) ((n - 266) % 256) k
          (k.0.under j (omega arith)) (omega arith) in
      let two = release_word-Kept at top j one k.0.indirect2 (omega arith) in
      rw (i.1, i.2)
        (elim (Bool-cases (sub32 n 10 % 256 == 0)) [
          | inl p ↦ rw p (elim (Bool-cases (n == 266)) [
            | inl q ↦ rw q (release_indirect2-Kept at two)
            | inr q ↦ rw q two
          ])
          | inr p ↦ rw p (elim (Bool-cases (n == 266)) [
            | inl q ↦ rw q (release_indirect2-Kept at one)
            | inr q ↦ rw q one
          ])
        ])

abbrev pub Removed : Layout → ℕ → ℕ → Status × Disk → Type 0
Removed l oi size (r, d) = (r ≡ success) × Sized l oi (sub32 size blksize) d

shrink-Removed :
    {l : Layout} {oi : ℕ} (at : IsInode l oi) {size : ℕ} {tables : ℕ → Bool} {d : Disk}
    → Kept l oi size tables d
    → Removed l oi size (shrink oi d)
unfolding shrink
shrink-Removed at {tables} (s, e) =
    (refl, record { tables = tables; sound = size_keeps at s _; size_is = ground arith })

-- For a file of 1 to `maxfileblks - 1` blocks on a sound disk (`IsSound`), `remove_block` returns 0, the size is
-- one block smaller, and the disk is sound again.
pub remove_block-Removed :
    {l : Layout} {oi : ℕ} (at : IsInode l oi) {size : ℕ} {tables : ℕ → Bool} {d : Disk}
    → IsSound l oi tables d
    → d (oi_size oi) ≡ size
    → 0 < ospfs_size2nblocks size
    → ospfs_size2nblocks size < 65802
    → Removed l oi size (remove_block oi d)
unfolding remove_block
remove_block-Removed at {size} {d} s e pos_n h =
    let n = ospfs_size2nblocks size in
    rw (e, ne→== n 0 (omega arith))
      (elim (Bool-cases (ltb n 10)) [
        | inl p ↦
            let i = direct_indices n (ground arith) in
            rw (i.0, i.1) (shrink-Removed at (release_direct-Kept at (s, e) n (ground arith)))
        | inr p ↦ elim (Bool-cases (ltb n 266)) [
          | inl q ↦
              let i = indirect_indices n (ground arith) (ground arith) in
              rw (i.0, i.1)
                (shrink-Removed at (remove_indirect-Kept at (s, e) n (ground arith) (ground arith)))
          | inr q ↦
              let i = indirect2_indices n (ground arith) (omega arith) in
              rw i.0 (shrink-Removed at (remove_indirect2-Kept at (s, e) n (ground arith) h))
        ]
      ])
