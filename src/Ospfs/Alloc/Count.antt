-- ===== src/Ospfs/Alloc/Count.antt =====
-- How many blocks are free, and what allocation does to the number.
use native.Mathlib.Decide.{dec_lt}
use cs111fall.Prelude.{
  ℕ, zero, suc, ◌+◌, ◌-◌, ◌≤◌, ◌<◌, ◌≡◌, refl, ◌≢◌, ◌⊎◌, inl, inr, false, true, arith, ◌==◌,
  if◌then◌else◌,
}
use cs111fall.Ospfs.Disk.{Disk, os_nblocks}
use cs111fall.Ospfs.Alloc.{is_free, allocate_block}
use cs111fall.Ospfs.Alloc.First.{NoneFree, allocate_block-FirstFree, is_free-Takes, Takes-nblocks}

-- The number of free blocks from `i` to `i + n - 1`.
unfoldable pub free_in : ℕ → ℕ → Disk → ℕ
free_in zero i d = 0
free_in (suc n) i d = free_in n (i + 1) d + (if is_free d i then 1 else 0)

-- The number of free blocks on the disk.
unfoldable pub free_blocks : Disk → ℕ
free_blocks d = free_in (os_nblocks d - 2) 2 d

module _ (b : ℕ) (d d' : Disk)
    (marks : (j : ℕ) → is_free d' j ≡ (if b == j then false else is_free d j)) where
  free_in_outside : (n i : ℕ) → b < i → free_in n i d' ≡ free_in n i d
  unfolding free_in
  free_in_outside zero i h = refl
  free_in_outside (suc n) i h = ground (arith, free_in_outside n (i + 1), marks i)

  free_in_inside :
      (n i : ℕ) → is_free d b ≡ true → i ≤ b → b < i + n → free_in n i d' + 1 ≡ free_in n i d
  unfolding free_in
  free_in_inside zero i f h k = absurd (omega arith)
  free_in_inside (suc n) i f h k = elim (dec_lt i b) [
    | yes below ↦ ground (arith, free_in_inside n (i + 1), marks i)
    | no last ↦ let e : i ≡ b = omega arith in ground (arith, free_in_outside n (i + 1), marks i, e)
  ]

free_in_zero : (n i hi : ℕ) (d : Disk) → i + n ≤ hi → NoneFree d i hi → free_in n i d ≡ 0
unfolding free_in
free_in_zero zero i hi d h none = refl
free_in_zero (suc n) i hi d h none = ground (
  arith,
  none i (omega arith) (omega arith),
  free_in_zero n (i + 1) hi d (omega arith) (λ j p q. none j (omega arith) q),
)

abbrev pub Counted : Disk → ℕ × Disk → Type 0
Counted d (b, d') =
    ((b ≡ 0) × (free_blocks d ≡ 0) × (d' ≡ d))
    ⊎ ((b ≢ 0) × (b < os_nblocks d) × (free_blocks d' + 1 ≡ free_blocks d))

-- `allocate_block` returns 0 exactly when no block is free, and then changes nothing; otherwise the
-- block that it returns lies on the disk and the number of free blocks falls by one.
pub allocate_block-free_blocks : (d : Disk) → Counted d (allocate_block d)
unfolding free_blocks
allocate_block-free_blocks d = elim (allocate_block-FirstFree d) [
  | inl (z, same, none) ↦ inl (
    z,
    free_in_zero (os_nblocks d - 2) 2 (2 + (os_nblocks d - 2)) d (omega arith)
        (λ j p q. none j p (omega arith)),
    same,
  )
  | inr t ↦ inr (
    omega (arith, t.lower),
    t.upper,
    rw (Takes-nblocks t) (
        free_in_inside (allocate_block d).0 d (allocate_block d).1 (is_free-Takes t)
          (os_nblocks d - 2) 2 t.was_free t.lower (omega (arith, t.upper, t.lower))),
  )
]
