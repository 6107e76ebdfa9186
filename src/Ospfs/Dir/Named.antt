-- ===== src/Ospfs/Dir/Named.antt =====
-- The name test of lab3/ospfsmod.c reads only the bytes of the entry, and what it takes to pass it.
use cs111fall.Prelude.{
  ℕ, zero, suc, ◌+◌, ◌<◌, ◌≡◌, refl, ◌≢◌, true, [], ◌∷◌, length, arith, ne→==, eq→==,
}
use cs111fall.Ospfs.Disk.{Disk}
use cs111fall.Ospfs.Read.{byte}
use cs111fall.Ospfs.Dir.Entry.{Name, od_ino, strlen_is, memcmp_is, is_named, name_byte}

module _ (d d' : Disk) where
  strlen_is_same :
      (n s : ℕ)
      → ((i : ℕ) → i < suc n → byte d' (s + i) ≡ byte d (s + i))
      → strlen_is d' s n ≡ strlen_is d s n
  unfolding strlen_is
  strlen_is_same zero s same = let e : byte d' s ≡ byte d s = ground (arith, same 0) in rw e refl
  strlen_is_same (suc n) s same =
      let e : byte d' s ≡ byte d s = ground (arith, same 0) in
      let rest = strlen_is_same n (suc s) (λ i h. ground (arith, same (suc i))) in rw (e, rest) refl

  memcmp_is_same :
      (name : Name) (s : ℕ)
      → ((i : ℕ) → i < length name → byte d' (s + i) ≡ byte d (s + i))
      → memcmp_is d' s name ≡ memcmp_is d s name
  unfolding memcmp_is
  memcmp_is_same [] s same = refl
  memcmp_is_same (c ∷ rest) s same =
      let e : byte d' s ≡ byte d s = ground (arith, same 0) in
      let others = memcmp_is_same rest (suc s) (λ i h. ground (arith, same (suc i))) in
      rw (e, others) refl

  pub od_ino_same :
      (e : ℕ) → ((i : ℕ) → i < 4 → byte d' (e + i) ≡ byte d (e + i)) → od_ino d' e ≡ od_ino d e
  unfolding od_ino
  od_ino_same e same = ground (arith, same 0, same 1, same 2, same 3)

  pub is_named_same :
      (name : Name) (e : ℕ)
      → ((i : ℕ) → i < 5 + length name → byte d' (e + i) ≡ byte d (e + i))
      → is_named name d' e ≡ is_named name d e
  unfolding is_named
  is_named_same name e same =
      rw
        (
          od_ino_same e (λ i h. same i (omega arith)),
          strlen_is_same (length name) (e + 4) (λ i h. ground (arith, same (4 + i))),
          memcmp_is_same name (e + 4) (λ i h. ground (arith, same (4 + i))),
        )
        refl

module _ (d : Disk) where
  strlen_is_lem :
      (n s : ℕ)
      → ((i : ℕ) → i < n → byte d (s + i) ≢ 0)
      → byte d (s + n) ≡ 0
      → strlen_is d s n ≡ true
  unfolding strlen_is
  strlen_is_lem zero s inner end =
      let e : byte d s ≡ 0 = ground arith in rw (eq→== (byte d s) 0 e) refl
  strlen_is_lem (suc n) s inner end =
      let e : byte d s ≢ 0 = λ z. inner 0 (omega arith) (ground arith) in
      rw (ne→== (byte d s) 0 e) (
        strlen_is_lem n (suc s) (λ i h z. inner (suc i) (omega arith) (ground arith))
          (ground arith))

  memcmp_is_lem :
      (name : Name) (s : ℕ)
      → ((i : ℕ) → i < length name → byte d (s + i) ≡ name_byte name i)
      → memcmp_is d s name ≡ true
  unfolding memcmp_is
  memcmp_is_lem [] s same = refl
  memcmp_is_lem (c ∷ rest) s same =
      let e : byte d s ≡ c = ground (arith, same 0) in
      rw (eq→== (byte d s) c e) (memcmp_is_lem rest (suc s) (λ i h. ground (arith, same (suc i))))

  pub is_named_lem :
      (name : Name) (e : ℕ)
      → od_ino d e ≢ 0
      → ((i : ℕ)
          → i < length name
          → (byte d (e + 4 + i) ≡ name_byte name i) × (name_byte name i ≢ 0))
      → byte d (e + 4 + length name) ≡ 0
      → is_named name d e ≡ true
  unfolding is_named
  is_named_lem name e used same end =
      rw
        (
          ne→== (od_ino d e) 0 used,
          strlen_is_lem (length name) (e + 4) (λ i h z. (same i h).1 (omega (arith, (same i h).0)))
              end,
          memcmp_is_lem name (e + 4) (λ i h. (same i h).0),
        )
        refl
