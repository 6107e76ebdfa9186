-- ===== src/Ospfs/Resize/Add.antt =====
-- `add_block` adds one block to the size or reports a full disk, and keeps the invariant.
use cs111fall.Prelude.{
  ℕ, ◌+◌, ◌-◌, ◌/◌, ◌%◌, ◌≤◌, ◌<◌, ◌≡◌, refl, ◌≢◌, ◌⊎◌, inl, inr, Bool, true, arith, ltb, ◌==◌,
  Bool-cases, ◌∙◌, ne→==, le→ltb, update_self,
}
use cs111fall.Prelude.Int.{pos}
use cs111fall.Ospfs.Disk.{
  Disk, blksize, add32, ospfs_block, ospfs_size2nblocks, zero_out_block, oi_size, oi_direct,
  oi_indirect, oi_indirect2,
}
use cs111fall.Ospfs.Alloc.{allocate_block, free_block}
use cs111fall.Ospfs.Alloc.First.{FirstFree}
use cs111fall.Ospfs.Index.{direct_index}
use cs111fall.Ospfs.Index.Slot.{indirect_indices, indirect2_indices}
use cs111fall.Ospfs.Resize.{
  Status, success, enospc, grow, store_in, add_indirect_with, add_indirect, add_under_with,
  add_under, add_indirect2_with, add_indirect2, add_new, add_block,
}
use cs111fall.Ospfs.Resize.Sized.{Sized, take, erase}
use cs111fall.Ospfs.Resize.Sound.{Layout, IsInode, IsPtr, IsPtr-word, IsSound, free_keeps}
use cs111fall.Ospfs.Resize.Sound.Write.{write_keeps, size_keeps}

-- A block was added to the size, or the disk is full and the size is as before.
abbrev pub Added : Layout → ℕ → ℕ → Status × Disk → Type 0
Added l oi size (r, d) =
    ((r ≡ success) × Sized l oi (add32 size blksize) d) ⊎ ((r ≡ enospc) × Sized l oi size d)

module _ {l : Layout} {oi : ℕ} (at : IsInode l oi) {size : ℕ} where
  grow-Added :
      {tables : ℕ → Bool} {d : Disk}
      → IsSound l oi tables d
      → d (oi_size oi) ≡ size
      → Added l oi size (grow oi d)
  unfolding grow
  grow-Added {tables} {d} s e =
      inl (refl, record { tables = tables; sound = size_keeps at s _; size_is = ground arith })

  -- The word `k` of the table `indir` is set to the new block.
  store-Added :
      (indir new k n : ℕ) {tables : ℕ → Bool} {d : Disk}
      → IsSound l oi tables d
      → d (oi_size oi) ≡ size
      → tables indir ≡ true
      → indir ≢ 0
      → tables new ≡ true
      → direct_index n ≡ pos k
      → k < 256
      → Added l oi size (store_in indir oi n new d)
  unfolding store_in
  store-Added indir new k n {d} s e t ne tn i lt = rw i (
      let kept =
        write_keeps at s (ospfs_block indir + k) new tn
          (inl (ground (arith, IsPtr-word at indir k (s.pointers indir t) lt)))
          (λ c. absurd (ground (arith, IsPtr-word at indir k (s.pointers indir t) lt, at.to))) in
      grow-Added kept.0 (kept.1 ∙ e))

  free-Added :
      (b : ℕ) {tables : ℕ → Bool} {d : Disk}
      → IsSound l oi tables d
      → d (oi_size oi) ≡ size
      → IsPtr l b
      → Added l oi size (enospc, free_block b d)
  free-Added b {tables} s e h =
      let kept = free_keeps at s b h in
      inr (refl, record { tables = tables; sound = kept.0; size_is = kept.1 ∙ e })

  add_indirect_with-Added :
      (n new : ℕ) {tables : ℕ → Bool} {d : Disk} (r : ℕ × Disk)
      → IsSound l oi tables d
      → d (oi_size oi) ≡ size
      → tables new ≡ true
      → 10 ≤ n
      → n < 266
      → FirstFree d 2 l.nblocks r
      → Added l oi size (add_indirect_with oi n new r)
  unfolding add_indirect_with
  add_indirect_with-Added n new {d} (indir, d') s e tn lo hi (inl (z, same, none)) =
      rw (z, same) (free-Added new s e (s.pointers new tn))
  add_indirect_with-Added n new {tables} (indir, d') s e tn lo hi (inr t) =
      let fresh = erase at s e t in
      let kept =
        write_keeps at fresh.sound (oi_indirect oi) indir fresh.is_table
          (inr (inl (omega arith, omega arith))) (λ c. absurd (omega arith)) in
      rw (ne→== indir 0 fresh.ne_null, update_self (zero_out_block indir d') (oi_indirect oi) indir)
        (store-Added indir new (n - 10) n kept.0 (kept.1 ∙ fresh.size_is) fresh.is_table
          fresh.ne_null (ground (arith, tn)) (indirect_indices n lo hi).2 (omega arith))

  add_indirect-Added :
      (n new : ℕ) {tables : ℕ → Bool} {d : Disk}
      → IsSound l oi tables d
      → d (oi_size oi) ≡ size
      → tables new ≡ true
      → 10 ≤ n
      → n < 266
      → Added l oi size (add_indirect oi n new d)
  unfolding add_indirect
  add_indirect-Added n new {d} s e tn lo hi = elim (Bool-cases (d (oi_indirect oi) == 0)) [
    | inl z ↦ rw z (add_indirect_with-Added n new (allocate_block d) s e tn lo hi (take at s))
    | inr z ↦ rw z (
        store-Added (d (oi_indirect oi)) new (n - 10) n s e s.indirect (ground arith) tn
          (indirect_indices n lo hi).2 (omega arith))
  ]

  add_under_with-Added :
      (n new indir2 table : ℕ) {tables : ℕ → Bool} {d : Disk} (r : ℕ × Disk)
      → IsSound l oi tables d
      → d (oi_size oi) ≡ size
      → tables new ≡ true
      → IsPtr l indir2
      → tables table ≡ true
      → table ≢ 0
      → 266 ≤ n
      → n < 65802
      → FirstFree d 2 l.nblocks r
      → Added l oi size (add_under_with oi n new indir2 (ospfs_block table + (n - 266) / 256) r)
  unfolding add_under_with
  add_under_with-Added n new indir2 table {d} (indir, d') s e tn p2 tt ne lo hi
        (inl (z, same, none)) =
      let (s1, e1) = free_keeps at s new (s.pointers new tn) in
      elim (Bool-cases (indir2 == 0)) [
        | inl y ↦ rw (z, same, y) (free-Added new s e (s.pointers new tn))
        | inr y ↦ rw (z, same, y) (free-Added indir2 s1 (e1 ∙ e) p2)
      ]
  add_under_with-Added n new indir2 table {tables} (indir, d') s e tn p2 tt ne lo hi (inr t) =
      let fresh = erase at s e t in
      let word = IsPtr-word at table ((n - 266) / 256) (s.pointers table tt) (omega arith) in
      let kept =
        write_keeps at fresh.sound (ospfs_block table + (n - 266) / 256) indir fresh.is_table
          (inl (ground (arith, word))) (λ c. absurd (ground (arith, word, at.to))) in
      rw (ne→== indir 0 fresh.ne_null) (
        store-Added indir new ((n - 266) % 256) n kept.0 (kept.1 ∙ fresh.size_is) fresh.is_table
          fresh.ne_null (ground (arith, tn)) (indirect2_indices n lo (omega arith)).2 (omega arith))

  add_under-Added :
      (n new indir2 : ℕ) {tables : ℕ → Bool} {d : Disk}
      → IsSound l oi tables d
      → d (oi_size oi) ≡ size
      → tables new ≡ true
      → IsPtr l indir2
      → d (oi_indirect2 oi) ≢ 0
      → 266 ≤ n
      → n < 65802
      → Added l oi size (add_under oi n new indir2 d)
  unfolding add_under
  add_under-Added n new indir2 {d} s e tn p2 ne lo hi =
      let place = ospfs_block (d (oi_indirect2 oi)) + (n - 266) / 256 in
      rw (indirect2_indices n lo (omega arith)).1 (elim (Bool-cases (d place == 0)) [
        | inl z ↦ rw z (
            add_under_with-Added n new indir2 (d (oi_indirect2 oi)) (allocate_block d) s e tn p2
              s.indirect2 ne lo hi (take at s))
        | inr z ↦ rw z (
            store-Added (d place) new ((n - 266) % 256) n s e
              (s.under ((n - 266) / 256) (omega arith)) (ground arith) tn
              (indirect2_indices n lo (omega arith)).2 (omega arith))
      ])

  add_indirect2_with-Added :
      (n new : ℕ) {tables : ℕ → Bool} {d : Disk} (r : ℕ × Disk)
      → IsSound l oi tables d
      → d (oi_size oi) ≡ size
      → tables new ≡ true
      → 266 ≤ n
      → n < 65802
      → FirstFree d 2 l.nblocks r
      → Added l oi size (add_indirect2_with oi n new r)
  unfolding add_indirect2_with
  add_indirect2_with-Added n new {d} (indir2, d') s e tn lo hi (inl (z, same, none)) =
      rw (z, same) (free-Added new s e (s.pointers new tn))
  add_indirect2_with-Added n new {tables} (indir2, d') s e tn lo hi (inr t) =
      let fresh = erase at s e t in
      let kept =
        write_keeps at fresh.sound (oi_indirect2 oi) indir2 fresh.is_table
          (inr (inl (omega arith, omega arith))) (λ c k lt. fresh.erased k lt) in
      rw (ne→== indir2 0 fresh.ne_null) (
        add_under-Added n new indir2 kept.0 (kept.1 ∙ fresh.size_is) (ground (arith, tn))
          fresh.pointer (ground (arith, fresh.ne_null)) lo hi)

  add_indirect2-Added :
      (n new : ℕ) {tables : ℕ → Bool} {d : Disk}
      → IsSound l oi tables d
      → d (oi_size oi) ≡ size
      → tables new ≡ true
      → 266 ≤ n
      → n < 65802
      → Added l oi size (add_indirect2 oi n new d)
  unfolding add_indirect2
  add_indirect2-Added n new {tables} {d} s e tn lo hi =
      elim (Bool-cases (d (oi_indirect2 oi) == 0)) [
        | inl z ↦ rw z (add_indirect2_with-Added n new (allocate_block d) s e tn lo hi (take at s))
        | inr z ↦ rw z (add_under-Added n new 0 s e tn (inl refl) (ground arith) lo hi)
      ]

  add_new-Added :
      (n : ℕ) {tables : ℕ → Bool} {d : Disk} (r : ℕ × Disk)
      → IsSound l oi tables d
      → d (oi_size oi) ≡ size
      → n < 65802
      → FirstFree d 2 l.nblocks r
      → Added l oi size (add_new oi n r)
  unfolding add_new
  add_new-Added n {tables} {d} (new, d') s e h (inl (z, same, none)) =
      rw (z, same) (inr (refl, record { tables = tables; sound = s; size_is = e }))
  add_new-Added n {tables} {d} (new, d') s e h (inr t) =
      let fresh = erase at s e t in
      let f = fresh.sound in
      rw (ne→== new 0 fresh.ne_null) (elim (Bool-cases (ltb n 10)) [
        | inl small ↦
            let kept =
              write_keeps at f (oi_direct oi + n) new fresh.is_table
                (inr (inl (ground arith, ground arith))) (λ c. absurd (ground arith)) in
            rw small (grow-Added kept.0 (kept.1 ∙ fresh.size_is))
        | inr large ↦ rw large (elim (Bool-cases (ltb n 266)) [
          | inl mid ↦ rw mid (
              add_indirect-Added n new f fresh.size_is fresh.is_table (ground arith) (ground arith))
          | inr big ↦
              rw big (add_indirect2-Added n new f fresh.size_is fresh.is_table (ground arith) h)
        ])
      ])

  -- For a file of less than `maxfileblks` blocks on a sound disk (`IsSound`), `add_block` returns 0, with the size
  -- one block larger, or -ENOSPC, with the size as it was; and the disk is sound again.
  pub add_block-Added :
      {tables : ℕ → Bool} {d : Disk}
      → IsSound l oi tables d
      → d (oi_size oi) ≡ size
      → ospfs_size2nblocks size < 65802
      → Added l oi size (add_block oi d)
  unfolding add_block
  add_block-Added {d} s e h =
      rw (e, le→ltb 65802 (ospfs_size2nblocks size) (omega arith))
        (add_new-Added (ospfs_size2nblocks size) (allocate_block d) s e h (take at s))
