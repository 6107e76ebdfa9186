-- ===== src/Format/Fuel.antt =====
-- The loop of writefile in lab3/ospfsformat.c ends: the fuel that it is given is enough.
use cs111fall.Prelude.{
  ℕ, zero, suc, ◌+◌, ◌-◌, ◌%◌, ◌^◌, ◌<◌, ◌≤◌, ◌≡◌, refl, fun_ext, ap, true, List, [], ◌∷◌, length,
  arith, ltb, Bool-cases, inl, inr,
}
use cs111fall.Ospfs.Dir.Entry.{name_byte}
use cs111fall.Ospfs.Store.{store}
use cs111fall.Format.Blocks.{Words, block_file}
use cs111fall.Format.Cache.{M, getblk, ◌>>=◌}
use cs111fall.Format.Inodes.{Ptr}
use cs111fall.Format.Files.{
  Answer, got, failed, first_of, after_first, readn, size_of, nextb_of, words_of, copy_block,
  copy_from,
}

length-first_of-after_first :
    (n : ℕ) (l : List ℕ) → length (first_of n l) + length (after_first n l) ≡ length l
unfolding first_of after_first
length-first_of-after_first zero l = omega arith
length-first_of-after_first (suc n) [] = omega arith
length-first_of-after_first (suc n) (c ∷ l) = omega (arith, length-first_of-after_first n l)

readn-left-le : (n t : ℕ) (u : Words) (l : List Answer) → size_of (readn n t u l).left ≤ size_of l
unfolding readn
readn-left-le n t u [] = omega arith
readn-left-le n t u (failed ∷ rest) = elim (Bool-cases (ltb t n)) [
  | inl more ↦ rw more (omega (arith, readn-left-le n ((t + (2 ^ 32 - 1)) % 2 ^ 32) u rest))
  | inr full ↦ rw full (omega arith)
]
readn-left-le n t u (got l ∷ rest) =
    let bs = first_of (n - t) l in
    let again = readn-left-le n (t + length bs) (store t (length bs) (name_byte bs) u) rest in
    let parts = length-first_of-after_first (n - t) l in ground arith

readn-left-lt :
    (n t : ℕ) (u : Words) (a : Answer) (rest : List Answer)
    → t < n
    → size_of (readn n t u (a ∷ rest)).left < size_of (a ∷ rest)
unfolding readn
readn-left-lt n t u failed rest h =
    let more : ltb t n ≡ true = ground arith in
    rw more (omega (arith, readn-left-le n ((t + (2 ^ 32 - 1)) % 2 ^ 32) u rest))
readn-left-lt n t u (got l) rest h =
    let bs = first_of (n - t) l in
    let again = readn-left-le n (t + length bs) (store t (length bs) (name_byte bs) u) rest in
    let parts = length-first_of-after_first (n - t) l in ground arith

-- Only the answers that are left matter to the next round.
copy_block-next :
    (f g : List Answer → M (ℕ × ℕ)) (ino : Ptr) (nblk : ℕ) (l : List Answer) (b : ℕ) (u : Words)
    → f (readn 1024 0 u l).left ≡ g (readn 1024 0 u l).left
    → copy_block f ino nblk l b u ≡ copy_block g ino nblk l b u
unfolding copy_block
copy_block-next f g ino nblk l b u e = rw e refl

copy_block-end :
    (f g : List Answer → M (ℕ × ℕ)) (ino : Ptr) (nblk b : ℕ) (u : Words)
    → copy_block f ino nblk [] b u ≡ copy_block g ino nblk [] b u
unfolding copy_block
copy_block-end f g ino nblk b u = refl

-- With fuel above the number of answers and bytes that it is given, the loop never comes to the end of its fuel:
-- whatever is done there, and with any two such amounts, it does the same.
pub copy_from-fuel :
    (out out' : M (ℕ × ℕ)) (a b : ℕ) (ino : Ptr) (nblk : ℕ) (l : List Answer)
    → size_of l < a
    → size_of l < b
    → copy_from out a ino nblk l ≡ copy_from out' b ino nblk l
unfolding copy_from
copy_from-fuel out out' (suc a) (suc b) ino nblk [] p q =
    ap (λ k. nextb_of >>= λ m. getblk m true block_file >>= k)
      (fun_ext λ c.
        ap (λ k. words_of c >>= k)
          (fun_ext λ u.
            copy_block-end (copy_from out a ino (nblk + 1)) (copy_from out' b ino (nblk + 1)) ino
              nblk c u))
copy_from-fuel out out' (suc a) (suc b) ino nblk (x ∷ l) p q =
    ap (λ k. nextb_of >>= λ m. getblk m true block_file >>= k)
      (fun_ext λ c.
        ap (λ k. words_of c >>= k)
          (fun_ext λ u.
            copy_block-next (copy_from out a ino (nblk + 1)) (copy_from out' b ino (nblk + 1)) ino
              nblk (x ∷ l) c u
              (copy_from-fuel out out' a b ino (nblk + 1) (readn 1024 0 u (x ∷ l)).left
                (omega (arith, readn-left-lt 1024 0 u x l (omega arith)))
                (omega (arith, readn-left-lt 1024 0 u x l (omega arith))))))
copy_from-fuel out out' zero b ino nblk l p q = absurd (omega arith)
copy_from-fuel out out' (suc a) zero ino nblk l p q = absurd (omega arith)
