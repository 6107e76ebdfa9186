-- ===== src/Ospfs/Resize/Attach.antt =====
-- The block that `add_block` of lab3/ospfsmod.c adds is the file's: the look-up finds it, and it is marked as used.
use cs111fall.Prelude.{
  ℕ, ◌+◌, ◌-◌, ◌*◌, ◌/◌, ◌^◌, ◌≤◌, ◌<◌, ◌≡◌, refl, ◌≢◌, ◌⊎◌, inl, inr, Bool, true, false, arith,
  ltb, ◌==◌, Bool-cases, ◌∙◌, ne→==, update, update_self, if◌then◌else◌,
}
use cs111fall.Ospfs.Disk.{
  Disk, blksize, add32, ospfs_block, ospfs_size2nblocks, zero_out_block, oi_size, oi_ftype,
  oi_indirect,
}
use cs111fall.Ospfs.Alloc.{is_free, allocate_block}
use cs111fall.Ospfs.Alloc.First.{FirstFree, Takes, is_free-Takes, Takes_frame}
use cs111fall.Ospfs.Index.{ospfs_inode_blockno}
use cs111fall.Ospfs.Index.Slot.{indirect_indices}
use cs111fall.Ospfs.Resize.{
  Status, success, enospc, grow, store_in, add_indirect_with, add_indirect, add_new, add_block,
}
use cs111fall.Ospfs.Resize.Sized.{take, erase}
use cs111fall.Ospfs.Resize.Sound.{Layout, IsInode, IsPtr-word, IsSound, take_keeps}
use cs111fall.Ospfs.Resize.Sound.Write.{is_free_same, zero_same, write_keeps}

-- Every block from 2 to `hi - 1` but `x` is in use.
abbrev pub OnlyFree : Disk → (hi x : ℕ) → Type 0
OnlyFree d hi x = (j : ℕ) → 2 ≤ j → j < hi → j ≢ x → is_free d j ≡ false

-- The call reports a full disk, of which one block at most is marked as free; or a block that was marked as free on `d`
-- is marked as used, and is the block that the look-up gives for the file's block `n`.
abbrev pub Attached : (hi oi n : ℕ) → Disk → Status × Disk → Type 0
Attached hi oi n d (r, d') =
    ((r ≡ enospc) × ((x : ℕ) × OnlyFree d hi x))
    ⊎ ((r ≡ success)
        × ((new : ℕ) × (is_free d new ≡ true)
            × (is_free d' new ≡ false)
            × (ospfs_inode_blockno oi (n * blksize) d' ≡ new)))

-- The state before the size is written: the new block is marked, and its number stands where the look-up reads it.
record Ready (l : Layout) (oi size n new : ℕ) (d : Disk) : Type 0 where
  pub size_is : d oi ≡ size
  pub no_link : d (oi + 1) ≢ 2
  pub used : is_free d new ≡ false
  pub inside : new < l.nblocks
  pub direct : n < 10 → d (oi + 4 + n) ≡ new
  pub indirect : 10 ≤ n → d (ospfs_block (d (oi + 14)) + (n - 10)) ≡ new
  pub apart : 10 ≤ n → ospfs_block (d (oi + 14)) + (n - 10) ≢ oi

-- What an allocation and the erasing of its block leave: the inodes, and the marks of the other blocks.
module _ {l : Layout} {oi : ℕ} (at : IsInode l oi) {tables : ℕ → Bool} {d d' : Disk} {b : ℕ}
    (s : IsSound l oi tables d) (t : Takes d 2 l.nblocks b d') where
  erased_same : (a : ℕ) → l.first * 256 ≤ a → a < l.data_blk * 256 → zero_out_block b d' a ≡ d a
  unfolding ospfs_block
  erased_same a lo hi =
      let (s', lower, kept) = take_keeps at s t in
      zero_same at s' b lower t.upper a hi
      ∙ Takes_frame t a (omega (arith, l.map_fits, l.after_super, t.upper))

  is_free-erased :
      (j : ℕ)
      → j < l.nblocks
      → is_free (zero_out_block b d') j ≡ (if b == j then false else is_free d j)
  is_free-erased j h =
      let (s', lower, kept) = take_keeps at s t in
      is_free_same l d' (zero_out_block b d')
        (λ a p q. zero_same at s' b lower t.upper a (omega (arith, l.ordered))) j h
      ∙ is_free-Takes t j

module _ {l : Layout} {oi : ℕ} (at : IsInode l oi) (size n : ℕ) (short : n < 266)
    (last : n * 1024 < size + 1024) (small : size + 1024 < 2 ^ 32) where
  grow-Attached :
      (d0 : Disk) (new : ℕ) (d : Disk)
      → is_free d0 new ≡ true
      → Ready l oi size n new d
      → Attached l.nblocks oi n d0 (grow oi d)
  unfolding grow ospfs_inode_blockno
  grow-Attached d0 new d free h =
      let size' : add32 (d oi) 1024 ≡ size + 1024 = omega (arith, h.size_is) in
      let block : n * 1024 / 1024 ≡ n = omega arith in
      let marks =
        is_free_same l d (update d oi (add32 (d oi) 1024)) (λ a p q. ground (arith, at.from)) new
          h.inside in
      inr (
        refl,
        (
          new,
          free,
          marks ∙ h.used,
          rw (size', block)
              (elim (Bool-cases (ltb n 10)) [
                | inl few ↦ ground (arith, h.no_link, h.direct)
                | inr many ↦ ground (arith, h.no_link, h.indirect, h.apart)
              ]),
        ),
      )

  -- The word of the indirect block is set to the new block.
  store-Attached :
      (d0 : Disk) (new : ℕ) {tables : ℕ → Bool} {d : Disk}
      → IsSound l oi tables d
      → 10 ≤ n
      → d (oi + 14) ≢ 0
      → d oi ≡ size
      → d (oi + 1) ≢ 2
      → is_free d0 new ≡ true
      → is_free d new ≡ false
      → new < l.nblocks
      → Attached l.nblocks oi n d0 (store_in (d (oi + 14)) oi n new d)
  unfolding store_in
  store-Attached d0 new {d = d} s lo ne e link free used inside =
      let place = ospfs_block (d (oi + 14)) + (n - 10) in
      let word =
        IsPtr-word at (d (oi + 14)) (n - 10) (s.pointers (d (oi + 14)) s.indirect) (omega arith) in
      let high : l.data_blk * 256 ≤ place = ground (arith, word) in
      let marks =
        is_free_same l d (update d place new) (λ a p q. ground (arith, high, l.ordered)) new
          inside in
      rw (indirect_indices n lo short).2 (
        grow-Attached d0 new (update d place new) free (record {
          size_is = ground (arith, high, at.to);
          no_link = ground (arith, high, at.to);
          used = marks ∙ used;
          inside = inside;
          direct = λ q. absurd (omega arith);
          indirect = λ q. ground (arith, high, at.to);
          apart = λ q. ground (arith, high, at.to);
        }))

  -- The file needs its indirect block, which is allocated as well if the file has none.
  add_indirect-Attached :
      (d0 : Disk) (new : ℕ) {tables : ℕ → Bool} {d : Disk}
      → IsSound l oi tables d
      → 10 ≤ n
      → d oi ≡ size
      → d (oi + 1) ≢ 2
      → is_free d0 new ≡ true
      → is_free d new ≡ false
      → new < l.nblocks
      → ((j : ℕ) → j < l.nblocks → j ≢ new → is_free d0 j ≡ is_free d j)
      → Attached l.nblocks oi n d0 (add_indirect oi n new d)
  unfolding add_indirect add_indirect_with
  add_indirect-Attached d0 new {tables} {d} s lo e link free used inside others =
      elim (Bool-cases (d (oi_indirect oi) == 0)) [
        | inr some_block ↦
            rw some_block (store-Attached d0 new s lo (ground arith) e link free used inside)
        | inl no_block ↦ rw no_block (with_table (allocate_block d) (take at s))
      ]
    where
      with_table :
          (r : ℕ × Disk)
          → FirstFree d 2 l.nblocks r
          → Attached l.nblocks oi n d0 (add_indirect_with oi n new r)
      with_table (b, d') (inl (z, same, no_free)) =
          rw z (inl (refl, (new, λ j lo hi ne. others j hi ne ∙ no_free j lo hi)))
      with_table (b, d') (inr t) =
          let fresh = erase at s e t in
          let named = update (zero_out_block b d') (oi + 14) b in
          let kept =
            write_keeps at fresh.sound (oi_indirect oi) b fresh.is_table
              (inr (inl (omega arith, omega arith))) (λ c. absurd (omega arith)) in
          let marks =
            is_free_same l (zero_out_block b d') named (λ a p q. ground (arith, at.from)) new
              inside in
          let inode = erased_same at s t (oi + 1) (omega (arith, at.from)) (omega (arith, at.to)) in
          rw (ne→== b 0 fresh.ne_null) (
            store-Attached d0 new kept.0 lo (ground (arith, fresh.ne_null)) (kept.1 ∙ fresh.size_is)
              (ground (arith, inode)) free (marks ∙ is_free-erased at s t new inside ∙ ground arith)
              inside)

  add_new-Attached :
      {tables : ℕ → Bool} {d : Disk} (r : ℕ × Disk)
      → IsSound l oi tables d
      → d oi ≡ size
      → d (oi + 1) ≢ 2
      → FirstFree d 2 l.nblocks r
      → Attached l.nblocks oi n d (add_new oi n r)
  unfolding add_new
  add_new-Attached (new, d') s e link (inl (z, same, no_free)) =
      rw z (inl (refl, (0, λ j lo hi ne. no_free j lo hi)))
  add_new-Attached {d = d} (new, d') s e link (inr t) =
      let fresh = erase at s e t in
      let z = zero_out_block new d' in
      let inode = erased_same at s t (oi + 1) (omega (arith, at.from)) (omega (arith, at.to)) in
      let used : is_free z new ≡ false = is_free-erased at s t new t.upper ∙ ground arith in
      let link' : z (oi + 1) ≢ 2 = ground (arith, inode) in
      rw (ne→== new 0 fresh.ne_null) (elim (Bool-cases (ltb n 10)) [
        | inl few ↦
            let marks =
              is_free_same l z (update z (oi + 4 + n) new) (λ a p q. ground (arith, at.from)) new
                t.upper in
            rw few (
              grow-Attached d new (update z (oi + 4 + n) new) t.was_free (record {
                size_is = ground (arith, fresh.size_is);
                no_link = ground (arith, link');
                used = marks ∙ used;
                inside = t.upper;
                direct = λ q. update_self z (oi + 4 + n) new;
                indirect = λ q. absurd (ground arith);
                apart = λ q. absurd (ground arith);
              }))
        | inr many ↦
            let mid : ltb n 266 ≡ true = ground arith in
            rw (many, mid)
              (add_indirect-Attached d new fresh.sound (ground arith) fresh.size_is link' t.was_free
                used t.upper λ j h ne. ground (arith, is_free-erased at s t j h))
      ])

-- For a file of fewer than 266 blocks, no symbolic link, on a disk whose superblock and boot block are in order, where
-- all block pointers of the inode and of its tables are null or name data blocks and only data blocks are
-- marked as free: `add_block` returns -ENOSPC, and one block of the disk at most is marked as free; or it returns
-- 0, and a block that was marked as free is marked as used and is the one that `ospfs_inode_blockno` gives for
-- the offset of the new block of the file.
pub add_block-Attached :
    {l : Layout} {oi : ℕ} (at : IsInode l oi) {tables : ℕ → Bool} {d : Disk}
    → IsSound l oi tables d
    → d (oi_size oi) ≤ 265 * 1024
    → d (oi_ftype oi) ≢ 2
    → Attached l.nblocks oi (ospfs_size2nblocks (d (oi_size oi))) d (add_block oi d)
unfolding add_block ospfs_size2nblocks
add_block-Attached {oi = oi} at {d = d} s few link =
    let n = ospfs_size2nblocks (d oi) in
    let bound : ltb 65802 n ≡ false = ground arith in
    rw bound (
      add_new-Attached at (d oi) n (ground arith) (ground arith) (omega arith) (allocate_block d) s
        refl link (take at s))
