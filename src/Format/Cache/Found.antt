-- ===== src/Format/Cache/Found.antt =====
-- What the loop of getblk in lab3/ospfsformat.c finds.
use cs111fall.Prelude.{
  ℕ, zero, suc, ◌+◌, ◌<◌, ◌≡◌, ◌≢◌, ◌⊎◌, inl, inr, Option, none, some, arith, ◌==◌, ltb, ◌&&◌,
  if◌then◌else◌, Bool-cases,
}
use cs111fall.Format.Cache.{Block, Slot, hit, least, full, is_better, look_from, look}

abbrev pub Absent : ℕ → (ℕ → Block) → Type 0
Absent b c = (j : ℕ) → j < 16 → (c j).bno ≢ b

-- An entry with the block; or an entry that is not busy, or all busy, and no entry with the block.
abbrev pub Found : ℕ → (ℕ → Block) → Slot → Type 0
Found b c (hit i) = (i < 16) × ((c i).bno ≡ b)
Found b c (least i) = (i < 16) × ((c i).busy ≡ 0) × Absent b c
Found b c full = ((j : ℕ) → j < 16 → (c j).busy ≢ 0) × Absent b c

-- What the loop knows of the entries before `i`.
abbrev Best : ℕ → Option ℕ → (ℕ → Block) → Type 0
Best i none c = (j : ℕ) → j < i → (c j).busy ≢ 0
Best i (some l) c = (l < 16) × ((c l).busy ≡ 0)

module _ (b : ℕ) (c : ℕ → Block) where
  Best-next :
      (i : ℕ) (l : Option ℕ)
      → i < 16
      → Best i l c
      → Best (suc i) (if is_better c i l then some i else l) c
  Best-next i none h p = elim (Bool-cases ((c i).busy == 0)) [
    | inl idle ↦ rw idle (h, ground arith)
    | inr busy ↦ rw busy (λ j q. elim (Bool-cases (j == i)) [
      | inl same ↦ let e : j ≡ i = ground arith in rw e (ground arith)
      | inr other ↦ p j (ground arith)
    ])
  ]
  Best-next i (some l) h p = elim (Bool-cases ((c i).busy == 0 && ltb (c i).used (c l).used)) [
    | inl better ↦ rw better (h, ground arith)
    | inr worse ↦ rw worse p
  ]

  look_from-Found :
      (n i : ℕ) (l : Option ℕ)
      → i + n ≡ 16
      → ((j : ℕ) → j < i → (c j).bno ≢ b)
      → Best i l c
      → Found b c (look_from n i l b c)
  unfolding look_from
  look_from-Found zero i none h before p = (λ j q. p j (omega arith), λ j q. before j (omega arith))
  look_from-Found zero i (some l) h before p = (p.0, p.1, λ j q. before j (omega arith))
  look_from-Found (suc n) i l h before p = elim (Bool-cases ((c i).bno == b)) [
    | inl found ↦ rw found (omega arith, ground arith)
    | inr other ↦ rw other (
        look_from-Found n (suc i) _ (omega arith)
          (λ j q. elim (Bool-cases (j == i)) [
            | inl same ↦ let e : j ≡ i = ground arith in rw e (ground arith)
            | inr less ↦ before j (ground arith)
          ])
          (Best-next i l (omega arith) p))
  ]

  pub look-Found : Found b c (look b c)
  look-Found =
      look_from-Found 16 0 none (omega arith) (λ j q. absurd (omega arith))
        (λ j q. absurd (omega arith))

  -- A block is in an entry or in none.
  pub held-cases : ((i : ℕ) × (i < 16) × ((c i).bno ≡ b)) ⊎ Absent b c
  held-cases = from_found (look b c) look-Found
    where
      from_found : (s : Slot) → Found b c s → ((i : ℕ) × (i < 16) × ((c i).bno ≡ b)) ⊎ Absent b c
      from_found (hit i) f = inl (i, f.0, f.1)
      from_found (least i) f = inr f.2
      from_found full f = inr f.1
