-- ===== src/Ospfs/Store.antt =====
-- Bytes written into the disk of lab3/ospfsmod.c, as `memcpy` and `copy_from_user` write them.
use cs111fall.Prelude.{
  ℕ, ◌+◌, ◌-◌, ◌*◌, ◌/◌, ◌%◌, ◌^◌, ◌<◌, ◌≡◌, refl, sym, ap, ◌∙◌, ◌⊎◌, inl, inr, false, ◌&&◌, arith,
  ltb, leb, if◌then◌else◌, Bool-cases,
}
use cs111fall.Ospfs.Disk.{Disk}
use cs111fall.Ospfs.Read.{byte}

-- The word that has these four bytes.
abbrev pub word_of : (ℕ → ℕ) → ℕ → ℕ
word_of f w = f (4 * w) + 256 * f (4 * w + 1) + 65536 * f (4 * w + 2) + 16777216 * f (4 * w + 3)

-- The bytes of the disk with `n` bytes of `f` from address `lo` on.
abbrev pub byte_with : Disk → (lo n : ℕ) → (ℕ → ℕ) → ℕ → ℕ
byte_with d lo n f b = if leb lo b && ltb b (lo + n) then f (b - lo) else byte d b

unfoldable pub store : (lo n : ℕ) → (ℕ → ℕ) → Disk → Disk
store lo n f d w =
    if ltb (4 * w) (lo + n) && ltb lo (4 * w + 4) then word_of (byte_with d lo n f) w else d w

-- A word that no stored byte lies in keeps its value.
pub store_frame :
    (lo n w : ℕ) (f : ℕ → ℕ) (d : Disk)
    → (ltb (4 * w) (lo + n) && ltb lo (4 * w + 4)) ≡ false
    → store lo n f d w ≡ d w
unfolding store
store_frame lo n w f d h = rw h refl

module _ (x0 x1 x2 x3 : ℕ) (h0 : x0 < 256) (h1 : x1 < 256) (h2 : x2 < 256) (h3 : x3 < 256) where
  abbrev four : ℕ
  four = x0 + 256 * x1 + 65536 * x2 + 16777216 * x3

  four_bytes :
      (four / 256 ^ 0 % 256 ≡ x0)
      × (four / 256 ^ 1 % 256 ≡ x1)
      × (four / 256 ^ 2 % 256 ≡ x2)
      × (four / 256 ^ 3 % 256 ≡ x3)
  four_bytes = (omega arith, omega arith, omega arith, omega arith)

-- The bytes of a word are those it was made of.
module _ (f : ℕ → ℕ) (small : (b : ℕ) → f b < 256) where
  pub byte-word_of : (b : ℕ) → byte (word_of f) b ≡ f b
  byte-word_of b =
      let q =
        four_bytes (f (4 * (b / 4))) (f (4 * (b / 4) + 1)) (f (4 * (b / 4) + 2))
          (f (4 * (b / 4) + 3)) (small _) (small _) (small _) (small _) in
      let cases : (b % 4 ≡ 0) ⊎ (b % 4 ≡ 1) ⊎ (b % 4 ≡ 2) ⊎ (b % 4 ≡ 3) = ground arith in
      elim cases [
        | inl e ↦ let i : b ≡ 4 * (b / 4) = omega arith in rw e (q.0 ∙ ap f (sym i))
        | inr (inl e) ↦ let i : b ≡ 4 * (b / 4) + 1 = omega arith in rw e (q.1 ∙ ap f (sym i))
        | inr (inr (inl e)) ↦ let i : b ≡ 4 * (b / 4) + 2 = omega arith in rw e (q.2 ∙ ap f (sym i))
        | inr (inr (inr e)) ↦ let i : b ≡ 4 * (b / 4) + 3 = omega arith in rw e (q.3 ∙ ap f (sym i))
      ]

byte_small : (d : Disk) (b : ℕ) → byte d b < 256
byte_small d b = omega arith

-- After a store, the stored bytes are there and all others are as they were.
pub byte-store :
    (lo n : ℕ) (f : ℕ → ℕ) (d : Disk)
    → ((b : ℕ) → f b < 256)
    → (b : ℕ) → byte (store lo n f d) b ≡ byte_with d lo n f b
unfolding store
byte-store lo n f d small b =
    elim (Bool-cases (ltb (4 * (b / 4)) (lo + n) && ltb lo (4 * (b / 4) + 4))) [
      | inl touched ↦ rw touched (byte-word_of (byte_with d lo n f) bytes_small b)
      | inr apart ↦
          let outside : leb lo b && ltb b (lo + n) ≡ false = ground arith in
          rw (apart, outside) refl
    ]
  where
    bytes_small : (c : ℕ) → byte_with d lo n f c < 256
    bytes_small c = elim (Bool-cases (leb lo c && ltb c (lo + n))) [
      | inl inside ↦ rw inside (small (c - lo))
      | inr outside ↦ rw outside (byte_small d c)
    ]
