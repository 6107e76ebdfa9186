-- ===== src/Format/Root.antt =====
-- The image of an empty directory that lab3/ospfsformat.c makes, as lab3/ospfsmod.c finds it.
use cs111fall.Prelude.{
  ℕ, ◌+◌, ◌/◌, ◌%◌, ◌^◌, ◌<◌, ◌≤◌, ◌≡◌, ◌≢◌, refl, ap, ◌∙◌, false, some, [], arith, ◌==◌, update,
  update_self,
}
use cs111fall.Format.Blocks.{Words, block_inodes}
use cs111fall.Format.Cache.{
  Fs, Block, M, pure, getblk, putblk, modify, set_block, ◌>>=◌, ◌>>◌, >>=-some,
}
use cs111fall.Format.Cache.View.{view}
use cs111fall.Format.Cache.Evict.{update-update}
use cs111fall.Format.Cache.Get.{Got, getblk-Got}
use cs111fall.Format.Cache.Write.{Wrote, KeepsWords, IsIdle, after, after-Wrote}
use cs111fall.Format.Inodes.{set_word, take_inode, inode_block, inode_in, allocinode}
use cs111fall.Ospfs.Dir.Entry.{Name}
use cs111fall.Format.Program.{
  reserve_inode, make_root, tree, no_more, write_sources, write_root, write_entries, write_links,
}

abbrev pub next_inode : Fs → ℕ → Fs
next_inode s n = record s { nextinode = n }

next_inode-IsIdle : {s : Fs} → IsIdle s → (n : ℕ) → IsIdle (next_inode s n)
next_inode-IsIdle h n = record {
  cache_is = record {
    distinct = h.cache_is.distinct;
    unused = h.cache_is.unused;
    null_unused = h.cache_is.null_unused;
    entry_words = h.cache_is.entry_words;
    image_words = h.cache_is.image_words;
    reads = h.cache_is.reads;
    writes = h.cache_is.writes;
  };
  idle = h.idle;
}

-- A write to a block after another one.
modify_next :
    (i : ℕ) (b : Block) (g : Words → Words) (s : Fs)
    → modify i g (set_block i b s) ≡ some (tt, set_block i (record b { u = g b.u }) s)
unfolding modify
modify_next i b g s =
    rw (update_self s.cache i b, update-update s.cache i b (record b { u = g b.u })) refl

-- Three writes to one block after each other are one.
modify_thrice :
    {A : Type 0} (i : ℕ) (f g h : Words → Words) (a : A) (s : Fs)
    → (do modify i f; modify i g; modify i h; pure a) s
      ≡ some (a, set_block i (record (s.cache i) { u = h (g (f (s.cache i).u)) }) s)
unfolding modify
modify_thrice {A} i f g h a s =
    let b = s.cache i in
    let first : Block = record b { u = f b.u } in
    let second : Block = record b { u = g (f b.u) } in
    >>=-some (modify i g) (λ _. do modify i h; pure a) (set_block i first s)
      (modify_next i first g s)
    ∙ >>=-some (modify i h) (λ _. pure a) (set_block i second s) (modify_next i second h s)

-- `allocinode` for the inodes that no entry names.
module _ (s : Fs) (h : IsIdle s) (n : ℕ) (is_next : s.nextinode ≡ n) (some_left : n < s.ninodes)
    (small : n < 2 ^ 31) (bno : ℕ) (z : bno ≢ 0) (is_block : s.super.os_firstinob + n / 16 ≡ bno)
    (inside : bno < s.nblocks) where
  take_inode_lem : take_inode s ≡ some (n, next_inode s (n + 1))
  unfolding take_inode
  take_inode_lem =
      let t : (n == s.ninodes) ≡ false = ground arith in
      let m : (n + 1) % 2 ^ 32 ≡ n + 1 = omega arith in rw (is_next, t, m) refl

  allocinode-Got :
      (i : ℕ) × (s1 : Fs) × (allocinode (λ m. pure tt) s
        ≡ some (record { number = n; block = i; inode = inode_in i n }, s1))
      × Got (next_inode s (n + 1)) bno false i s1
  unfolding allocinode inode_block
  allocinode-Got =
      let (i, s1, run, g) =
        getblk-Got (next_inode s (n + 1)) (next_inode-IsIdle h (n + 1)).cache_is bno z inside
          (λ j q c. h.idle j) 0 (omega arith) (h.idle 0) false block_inodes in
      (
        i,
        s1,
        >>=-some take_inode
              (λ m. do
                ib ← inode_block m
                pure (record { number = m; block = ib; inode = inode_in ib m }))
              s take_inode_lem
            ∙ >>=-some (inode_block n)
                (λ ib. pure (record { number = n; block = ib; inode = inode_in ib n }))
                (next_inode s (n + 1))
                (ap (λ b. getblk b false block_inodes (next_inode s (n + 1))) is_block ∙ run),
        g,
      )

-- The words of the inode that is reserved, and of the root's: `oi_nlink`; `oi_ftype`, `oi_nlink` and `oi_mode`.
abbrev pub reserved : Words → Words
reserved u = update u 2 1

abbrev pub rooted : Words → Words
rooted u = update (update (update u 17 1) 18 1) 19 511

reserved-KeepsWords : KeepsWords reserved
reserved-KeepsWords u h w = ground (arith, h w)

rooted-KeepsWords : KeepsWords rooted
rooted-KeepsWords u h w = ground (arith, h w)

-- The part of `format` that makes the root directory and puts nothing into it, and what follows.
unfoldable pub root_part : Name → M (Unit {0}) → M (Unit {0})
root_part path next = do
  root ← make_root
  write_sources (tree path no_more) root.inode
  write_links [] root.inode
  putblk root.block
  next

module _ (s : Fs) (h : IsIdle s) (some_left : 2 ≤ s.ninodes) (first : s.super.os_firstinob ≡ 3)
    (inside : 3 < s.nblocks) where
  pub reserve_inode-Wrote :
      s.nextinode ≡ 0
      → (s' : Fs) × (reserve_inode s ≡ some (tt, s'))
        × Wrote (next_inode s 1) 3 (reserved (view s 3)) s'
  unfolding reserve_inode putblk modify view
  reserve_inode-Wrote e =
      let (i, s1, run, g) =
        allocinode-Got s h 0 e (omega arith) (omega arith) 3 (omega arith) (omega (arith, first))
          inside in
      (
        after g (omega arith) reserved reserved-KeepsWords,
        >>=-some (allocinode (λ m. pure tt)) (λ new. do set_word new.inode 2 1; putblk new.block) s
            run,
        after-Wrote g (omega arith) reserved reserved-KeepsWords,
      )

  pub root_part-Wrote :
      (path : Name)
      → s.nextinode ≡ 1
      → (s' : Fs) × ((next : M (Unit {0})) → root_part path next s ≡ next s')
        × Wrote (next_inode s 2) 3 (rooted (view s 3)) s'
  unfolding root_part make_root write_sources write_root write_entries write_links putblk modify
      view
  root_part-Wrote path e =
      let (i, s1, run, g) =
        allocinode-Got s h 1 e (omega arith) (omega arith) 3 (omega arith) (omega (arith, first))
          inside in
      (
        after g (omega arith) rooted rooted-KeepsWords,
        λ next.
            >>=-some make_root
              (λ root. do
                write_sources (tree path no_more) root.inode
                write_links [] root.inode
                putblk root.block
                next)
              s
              (>>=-some (allocinode (λ m. pure tt))
                  (λ new. do
                    set_word new.inode 1 1
                    set_word new.inode 2 1
                    set_word new.inode 3 511
                    pure new)
                  s run
                ∙ modify_thrice i (λ u. update u 17 1) (λ u. update u 18 1) (λ u. update u 19 511)
                    (record { number = 1; block = i; inode = inode_in i 1 }) s1),
        after-Wrote g (omega arith) rooted rooted-KeepsWords,
      )
