-- ===== src/Weensy/Copy.antt =====
-- What the copying loops of weensyos1/lib.c leave in memory.
use cs111fall.Prelude.{
  ℕ, zero, suc, ◌+◌, ◌-◌, ◌≤◌, ◌<◌, ◌≡◌, ◌⊎◌, inl, inr, arith, ltb, leb, ◌&&◌, if◌then◌else◌,
  update, Bool-cases,
}
use cs111fall.Weensy.{Memory, memcpy, copy_down, memmove, memset}

-- The old contents of `[src, src + n)` stand in `[dst, dst + n)`, and nothing else has changed.
abbrev pub Moved : ℕ → ℕ → ℕ → Memory → Memory → Type 0
Moved dst src n m m' =
    (a : ℕ) → m' a ≡ (if leb dst a && ltb a (dst + n) then m (src + (a - dst)) else m a)

module _ (dst src n a : ℕ) (m : Memory) where
  -- The first byte of a copy upwards, and the rest.
  first_byte :
      (r : ℕ)
      → (dst ≤ src) ⊎ (src + suc n ≤ dst)
      → r ≡ (
          if leb (dst + 1) a && ltb a (dst + 1 + n)
          then update m dst (m src) (src + 1 + (a - (dst + 1)))
          else update m dst (m src) a)
      → r ≡ (if leb dst a && ltb a (dst + suc n) then m (src + (a - dst)) else m a)
  first_byte r h e = elim (Bool-cases (leb (dst + 1) a && ltb a (dst + 1 + n))) [
    | inl inside ↦
        let same : src + 1 + (a - (dst + 1)) ≡ src + (a - dst) = ground arith in
        let e' = rw (inside, same) at e in ground arith
    | inr outside ↦ ground arith
  ]

  next_apart : (dst ≤ src) ⊎ (src + suc n ≤ dst) → (dst + 1 ≤ src + 1) ⊎ (src + 1 + n ≤ dst + 1)
  next_apart h = ground arith

-- Copying upwards is right unless the destination starts within the source.
pub memcpy-Moved :
    (dst src n : ℕ) (m : Memory)
    → (dst ≤ src) ⊎ (src + n ≤ dst)
    → Moved dst src n m (memcpy dst src n m)
unfolding memcpy
memcpy-Moved dst src zero m h a = ground arith
memcpy-Moved dst src (suc n) m h a =
    first_byte dst src n a m (memcpy (dst + 1) (src + 1) n (update m dst (m src)) a) h
      (memcpy-Moved (dst + 1) (src + 1) n (update m dst (m src)) (next_apart dst src n a m h) a)

copy_down-Moved :
    (dst src n : ℕ) (m : Memory) → src < dst → Moved dst src n m (copy_down (dst + n) (src + n) n m)
unfolding copy_down
copy_down-Moved dst src zero m h a = ground arith
copy_down-Moved dst src (suc n) m h a =
    let d : dst + suc n - 1 ≡ dst + n = omega arith in
    let s : src + suc n - 1 ≡ src + n = omega arith in
    rw (d, s) (ground (arith, copy_down-Moved dst src n (update m (dst + n) (m (src + n))) h a))

-- `memmove` is right however the regions overlap.
pub memmove-Moved : (dst src n : ℕ) (m : Memory) → Moved dst src n m (memmove dst src n m)
unfolding memmove
memmove-Moved dst src n m a = elim (Bool-cases (ltb src dst && ltb dst (src + n))) [
  | inl over ↦ rw over (copy_down-Moved dst src n m (ground arith) a)
  | inr apart ↦ rw apart (memcpy-Moved dst src n m (ground arith) a)
]

pub memset_lem :
    (p c n : ℕ) (m : Memory) (a : ℕ)
    → memset p c n m a ≡ (if leb p a && ltb a (p + n) then c else m a)
unfolding memset
memset_lem p c zero m a = ground arith
memset_lem p c (suc n) m a = ground (arith, memset_lem (p + 1) c n (update m p c) a)
