-- ===== src/Ospfs/Dir/Found.antt =====
-- The search of a directory in lab3/ospfsmod.c finds the first entry that passes its test.
use cs111fall.Prelude.{
  ℕ, zero, suc, ◌+◌, ◌*◌, ◌≤◌, ◌<◌, ◌≡◌, refl, inl, inr, Bool, true, false, Option, none, some,
  arith, ltb, Bool-cases,
}
use cs111fall.Ospfs.Disk.{Disk, oi_size}
use cs111fall.Ospfs.Index.{ospfs_inode_data}
use cs111fall.Ospfs.Dir.Entry.{Name, direntry_size, is_named, entries, first_entry, find_direntry}

-- The address of the entry number `k`.
abbrev pub nth_entry : ℕ → Disk → ℕ → ℕ
nth_entry oi d k = ospfs_inode_data oi (k * direntry_size) d

-- No entry from number `k` on passes the test, or the result is the first that does.
abbrev pub First : (oi : ℕ) → Disk → (ℕ → Bool) → (k : ℕ) → Option ℕ → Type 0
First oi d test k none =
    (j : ℕ) → k ≤ j → j * direntry_size < d (oi_size oi) → test (nth_entry oi d j) ≡ false
First oi d test k (some e) =
    (j : ℕ) × (k ≤ j)
    × (j * direntry_size < d (oi_size oi))
    × (e ≡ nth_entry oi d j)
    × (test e ≡ true)
    × ((i : ℕ) → k ≤ i → i < j → test (nth_entry oi d i) ≡ false)

module _ (oi : ℕ) (d : Disk) (test : ℕ → Bool) where
  First-next :
      (k : ℕ) (o : Option ℕ)
      → test (nth_entry oi d k) ≡ false
      → First oi d test (suc k) o
      → First oi d test k o
  First-next k none miss f = λ j le lt. elim (Bool-cases (ltb k j)) [
    | inl later ↦ f j (ground arith) lt
    | inr here ↦ let e : j ≡ k = ground arith in rw e miss
  ]
  First-next k (some e) miss (j, le, lt, a, t, before) = (
    j,
    omega (arith, le),
    lt,
    a,
    t,
    λ i p q. elim (Bool-cases (ltb k i)) [
      | inl later ↦ before i (ground arith) q
      | inr here ↦ let e : i ≡ k = ground arith in rw e miss
    ],
  )

  pub first_entry-First :
      (n k : ℕ)
      → d (oi_size oi) ≤ (k + n) * direntry_size
      → First oi d test k (first_entry n test oi (k * direntry_size) d)
  unfolding first_entry
  first_entry-First zero k enough = λ j le lt. absurd (omega arith)
  first_entry-First (suc n) k enough =
      elim (Bool-cases (ltb (k * direntry_size) (d (oi_size oi)))) [
        | inr beyond ↦ rw beyond (λ j le lt. absurd (ground arith))
        | inl within ↦ elim (Bool-cases (test (nth_entry oi d k))) [
          | inl hit ↦
              rw (within, hit)
                (k, omega arith, ground arith, refl, hit, λ i p q. absurd (omega arith))
          | inr miss ↦
              let next : k * direntry_size + direntry_size ≡ suc k * direntry_size = omega arith in
              rw (within, miss, next)
                (First-next k (first_entry n test oi (suc k * direntry_size) d) miss
                  (first_entry-First n (suc k) (omega arith)))
        ]
      ]

-- `find_direntry` returns the first entry of the directory with an inode and this name, or no entry of the
-- directory has it.
pub find_direntry-First :
    (oi : ℕ) (name : Name) (d : Disk) → First oi d (is_named name d) 0 (find_direntry oi name d)
unfolding find_direntry
find_direntry-First oi name d =
    first_entry-First oi d (is_named name d) (entries (d (oi_size oi))) 0 (omega arith)
