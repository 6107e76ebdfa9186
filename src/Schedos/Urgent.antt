-- ===== src/Schedos/Urgent.antt =====
-- Whom algorithm 2 of weensyos2/schedos-kern.c chooses.
use native.Mathlib.Decide.{dec_lt}
use cs111fall.Prelude.{
  ℕ, zero, suc, ◌+◌, ◌%◌, ◌^◌, ◌≤◌, ◌<◌, ◌≡◌, refl, ◌≢◌, ◌⊎◌, inl, inr, arith, ◌&&◌, Bool-cases,
  leb, ne→==,
}
use cs111fall.Weensy.Registers.{is_runnable, p_empty}
use cs111fall.Schedos.Process.{Process, Kernel, Outcome, spinning, run, nprocs}
use cs111fall.Schedos.Kernel.{most_urgent, by_priority}
use cs111fall.Schedos.Choice.{Ready, Busy}

module _ (k : Kernel) (cur : ℕ) where
  -- The process `u` places after `cur`.
  abbrev pub Turn : ℕ → Process
  Turn u = k.proc_array ((cur + u) % nprocs)

  -- Among the first `i` processes from `cur` on, `j` has the least priority number and is the last that
  -- has it.
  pub record Urgent (i j priority : ℕ) : Type 0 where
    pub turn : ℕ
    pub within : turn < i
    pub is_turn : j ≡ (cur + turn) % nprocs
    pub ready : Ready (Turn turn)
    pub priority_is : priority ≡ (Turn turn).p_priority
    pub least : (u : ℕ) → u < i → Ready (Turn u) → priority ≤ (Turn u).p_priority
    pub last : (u : ℕ) → turn < u → u < i → Ready (Turn u) → priority < (Turn u).p_priority

  -- None of them is runnable.
  abbrev pub Nobody : ℕ → Type 0
  Nobody i = (u : ℕ) → u < i → Busy (Turn u)

  abbrev Best : ℕ → ℕ × ℕ → Type 0
  Best i (j, priority) = Urgent i j priority ⊎ (Nobody i × (j ≡ 0) × (priority ≡ 0xFFFFFFFF))

  module _ (i : ℕ) where
    -- The process at turn `i` takes the place of what was found.
    Best-better :
        (j priority : ℕ)
        → Ready (Turn i)
        → (Turn i).p_priority ≤ priority
        → Best i (j, priority)
        → Best (i + 1) ((cur + i) % nprocs, (Turn i).p_priority)
    Best-better j priority ready le b = inl (record {
      turn = i;
      within = omega arith;
      is_turn = refl;
      ready = ready;
      priority_is = refl;
      least = λ u lt r. elim (dec_lt u i) [
        | yes c ↦ elim b [
          | inl s ↦ omega (arith, s.least u c r)
          | inr (n, z, m) ↦ absurd (ground (arith, n u c))
        ]
        | no c ↦ let e : u ≡ i = omega arith in rw e (omega arith)
      ];
      last = λ u a lt r. absurd (omega arith);
    })

    Best-worse :
        (j priority : ℕ)
        → (Ready (Turn i) → priority < (Turn i).p_priority)
        → (Turn i).p_priority < 2 ^ 32
        → Best i (j, priority)
        → Best (i + 1) (j, priority)
    Best-worse j priority worse small b = elim b [
      | inl s ↦ inl (record {
        turn = s.turn;
        within = omega (arith, s.within);
        is_turn = s.is_turn;
        ready = s.ready;
        priority_is = s.priority_is;
        least = λ u lt r. elim (dec_lt u i) [
          | yes c ↦ s.least u c r
          | no c ↦
              let e : u ≡ i = omega arith in let r' = rw e at r in rw e (omega (arith, worse r'))
        ];
        last = λ u a lt r. elim (dec_lt u i) [
          | yes c ↦ s.last u a c r
          | no c ↦ let e : u ≡ i = omega arith in let r' = rw e at r in rw e (worse r')
        ];
      })
      | inr (n, z, m) ↦ inr (
        λ u lt. elim (dec_lt u i) [
          | yes c ↦ n u c
          | no c ↦
              let e : u ≡ i = omega arith in
              rw e (elim (Bool-cases (is_runnable (Turn i).p_state)) [
                | inl r ↦ absurd (omega (arith, worse r))
                | inr busy ↦ busy
              ])
        ],
        z,
        m,
      )
    ]

  most_urgent-Best :
      (rounds i j priority : ℕ)
      → ((u : ℕ) → (Turn u).p_priority < 2 ^ 32)
      → Best i (j, priority)
      → Best (i + rounds) (most_urgent rounds i cur j priority k)
  unfolding most_urgent
  most_urgent-Best zero i j priority small b = let e : i + 0 ≡ i = omega arith in rw e b
  most_urgent-Best (suc n) i j priority small b =
      let e : i + suc n ≡ i + 1 + n = omega arith in
      rw e (
        most_urgent-Best n (i + 1) _ _ small
          (elim (Bool-cases (is_runnable (Turn i).p_state && leb (Turn i).p_priority priority)) [
            | inl better ↦ rw better (Best-better i j priority (ground arith) (ground arith) b)
            | inr no_better ↦ rw no_better (Best-worse i j priority (λ r. ground arith) (small i) b)
          ]))

  -- The most urgent process runs, or none is runnable and the kernel spins.
  abbrev pub ByPriority : Outcome → Type 0
  ByPriority out =
      ((j : ℕ) × (priority : ℕ) × Urgent nprocs j priority × (out ≡ run j k))
      ⊎ (Nobody nprocs × (out ≡ spinning))

  module _ (unused : (k.proc_array 0).p_state ≡ p_empty)
      (small : (u : ℕ) → (Turn u).p_priority < 2 ^ 32) where
    abbrev best : ℕ × ℕ
    best = most_urgent 5 0 cur 0 0xFFFFFFFF k

    best-Best : Best nprocs best
    best-Best =
        most_urgent-Best 5 0 0 0xFFFFFFFF small (inr (λ u h. absurd (omega arith), refl, refl))

    by_priority-idle :
        (fuel : ℕ)
        → best.0 ≡ 0
        → best.1 ≡ 0xFFFFFFFF
        → by_priority fuel cur 0 0xFFFFFFFF k ≡ spinning
    unfolding by_priority
    by_priority-idle zero z m = refl
    by_priority-idle (suc fuel) z m = rw (z, m) (by_priority-idle fuel z m)

    pub by_priority-ByPriority :
        (fuel : ℕ) → 1 ≤ fuel → ByPriority (by_priority fuel cur 0 0xFFFFFFFF k)
    unfolding by_priority
    by_priority-ByPriority zero h = absurd (omega arith)
    by_priority-ByPriority (suc fuel) h = elim best-Best [
      | inl s ↦
          let ne : best.0 ≢ 0 = λ z. ground (arith, s.is_turn, s.ready, unused) in
          inl (best.0, best.1, s, rw (ne→== best.0 0 ne) refl)
      | inr (n, z, m) ↦ inr (n, rw (z, m) (by_priority-idle fuel z m))
    ]
