-- ===== src/Schedos/Choice.antt =====
-- Whom the algorithms 1 and 2 of weensyos2/schedos-kern.c choose.
use native.Mathlib.Decide.{dec_lt}
use cs111fall.Prelude.{
  ℕ, zero, suc, ◌+◌, ◌≤◌, ◌<◌, ◌≡◌, refl, ◌⊎◌, inl, inr, true, false, arith, Bool-cases, ne→==,
}
use cs111fall.Weensy.Registers.{is_runnable}
use cs111fall.Schedos.Process.{Process, Kernel, Outcome, spinning, run, nprocs}
use cs111fall.Schedos.Kernel.{first_runnable, by_number}

abbrev pub Ready : Process → Type 0
Ready p = is_runnable p.p_state ≡ true

abbrev pub Busy : Process → Type 0
Busy p = is_runnable p.p_state ≡ false

-- `j` is the first runnable process from `lo` to `hi - 1`.
pub record Lowest (k : Kernel) (lo hi j : ℕ) : Type 0 where
  pub lower : lo ≤ j
  pub upper : j < hi
  pub ready : Ready (k.proc_array j)
  pub first : (i : ℕ) → lo ≤ i → i < j → Busy (k.proc_array i)

abbrev pub None : Kernel → ℕ → ℕ → Type 0
None k lo hi = (j : ℕ) → lo ≤ j → j < hi → Busy (k.proc_array j)

module _ (k : Kernel) (hi best : ℕ) where
  abbrev Found : ℕ → ℕ → Type 0
  Found lo j = Lowest k lo hi j ⊎ (None k lo hi × (j ≡ best))

  Found-Busy : (lo j : ℕ) → Busy (k.proc_array lo) → Found (lo + 1) j → Found lo j
  Found-Busy lo j busy f =
      let here : (i : ℕ) → lo ≤ i → (lo < i → Busy (k.proc_array i)) → Busy (k.proc_array i) =
        λ i a h. elim (dec_lt lo i) [
          | yes c ↦ h c
          | no c ↦ let e : i ≡ lo = omega arith in rw e busy
        ] in
      elim f [
        | inl s ↦ inl (record {
          lower = omega (arith, s.lower);
          upper = s.upper;
          ready = s.ready;
          first = λ i a b. here i a (λ c. s.first i (omega arith) b);
        })
        | inr (n, e) ↦ inr (λ i a b. here i a (λ c. n i (omega arith) b), e)
      ]

  first_runnable-Found :
      (rounds lo : ℕ) → lo + rounds ≡ hi → Found lo (first_runnable rounds lo best k)
  unfolding first_runnable
  first_runnable-Found zero lo e = inr (λ j a b. absurd (omega arith), refl)
  first_runnable-Found (suc n) lo e = elim (Bool-cases (is_runnable (k.proc_array lo).p_state)) [
    | inl ready ↦ rw ready (
        inl (record {
          lower = omega arith;
          upper = omega arith;
          ready = ready;
          first = λ i a b. absurd (omega arith);
        }))
    | inr busy ↦ rw busy (
        Found-Busy lo (first_runnable n (lo + 1) best k) busy
          (first_runnable-Found n (lo + 1) (omega arith)))
  ]

-- The runnable process with the least number runs, or none is runnable and the kernel spins.
abbrev pub ByNumber : Kernel → Outcome → Type 0
ByNumber k out =
    ((j : ℕ) × Lowest k 1 nprocs j × (out ≡ run j k)) ⊎ (None k 1 nprocs × (out ≡ spinning))

by_number-idle : (fuel : ℕ) (k : Kernel) → None k 1 nprocs → by_number fuel 0 k ≡ spinning
unfolding by_number
by_number-idle zero k n = refl
by_number-idle (suc fuel) k n =
    let e : first_runnable 4 1 0 k ≡ 0 = elim (first_runnable-Found k nprocs 0 4 1 refl) [
      | inl s ↦ absurd (ground (arith, n (first_runnable 4 1 0 k) s.lower s.upper, s.ready))
      | inr (m, e) ↦ e
    ] in
    rw e (by_number-idle fuel k n)

pub by_number-ByNumber : (fuel : ℕ) (k : Kernel) → 1 ≤ fuel → ByNumber k (by_number fuel 0 k)
unfolding by_number
by_number-ByNumber zero k h = absurd (omega arith)
by_number-ByNumber (suc fuel) k h = elim (first_runnable-Found k nprocs 0 4 1 refl) [
  | inl s ↦ inl (
    first_runnable 4 1 0 k,
    s,
    rw (ne→== (first_runnable 4 1 0 k) 0 (omega (arith, s.lower))) refl,
  )
  | inr (n, e) ↦ inr (n, rw e (by_number-idle fuel k n))
]
