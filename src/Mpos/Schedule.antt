-- ===== src/Mpos/Schedule.antt =====
-- The scheduler of weensyos1/mpos-kern.c is round-robin.
use native.Mathlib.Decide.{dec_lt}
use cs111fall.Prelude.{
  ℕ, zero, suc, ◌+◌, ◌-◌, ◌%◌, ◌≤◌, ◌<◌, ◌≡◌, refl, ◌⊎◌, inl, inr, true, false, arith, Bool-cases,
}
use cs111fall.Mpos.Kernel.{schedule_from, schedule}
use cs111fall.Mpos.Process.{Kernel, Outcome, spinning, run, nprocs}
use cs111fall.Weensy.Registers.{is_runnable}

abbrev Runs : Kernel → ℕ → ℕ → Type 0
Runs k pid j = is_runnable (k.proc_array ((pid + j) % nprocs)).p_state ≡ true

abbrev Rests : Kernel → ℕ → ℕ → Type 0
Rests k pid j = is_runnable (k.proc_array ((pid + j) % nprocs)).p_state ≡ false

-- The `j`th process after `pid` is the first that is runnable, and it runs.
pub record Picks (k : Kernel) (pid fuel : ℕ) (out : Outcome) : Type 0 where
  pub turn : ℕ
  pub after : 1 ≤ turn
  pub within : turn ≤ fuel
  pub runnable : Runs k pid turn
  pub first : (i : ℕ) → 1 ≤ i → i < turn → Rests k pid i
  pub result : out ≡ run ((pid + turn) % nprocs) k

-- None of the `fuel` processes after `pid` is runnable.
pub record Idles (k : Kernel) (pid fuel : ℕ) (out : Outcome) : Type 0 where
  pub none_runnable : (i : ℕ) → 1 ≤ i → i ≤ fuel → Rests k pid i
  pub result : out ≡ spinning

next_turn : (pid j : ℕ) → ((pid + 1) % nprocs + j) % nprocs ≡ (pid + (j + 1)) % nprocs
next_turn pid j = omega arith

previous_turn : (pid i : ℕ) → 1 ≤ i → ((pid + 1) % nprocs + (i - 1)) % nprocs ≡ (pid + i) % nprocs
previous_turn pid i h = omega arith

module _ (k : Kernel) (pid : ℕ) (now : Rests k pid 1) where
  earlier : (i : ℕ) → 1 ≤ i → (2 ≤ i → Rests k ((pid + 1) % nprocs) (i - 1)) → Rests k pid i
  earlier i a h = elim (dec_lt 1 i) [
    | yes c ↦ rw (previous_turn pid i a) at (h c)
    | no c ↦ let e : i ≡ 1 = omega arith in rw e now
  ]

  Picks-later :
      {fuel : ℕ} {out : Outcome}
      → Picks k ((pid + 1) % nprocs) fuel out
      → Picks k pid (suc fuel) out
  Picks-later p = record {
    turn = p.turn + 1;
    after = omega arith;
    within = omega (arith, p.within);
    runnable = rw (next_turn pid p.turn) at p.runnable;
    first = λ i a b. earlier i a (λ c. p.first (i - 1) (omega arith) (omega arith));
    result = rw (next_turn pid p.turn) at p.result;
  }

  Idles-later :
      {fuel : ℕ} {out : Outcome}
      → Idles k ((pid + 1) % nprocs) fuel out
      → Idles k pid (suc fuel) out
  Idles-later n = record {
    none_runnable = λ i a b. earlier i a (λ c. n.none_runnable (i - 1) (omega arith) (omega arith));
    result = n.result;
  }

schedule_from-turns :
    (fuel pid : ℕ) (k : Kernel)
    → Picks k pid fuel (schedule_from fuel pid k) ⊎ Idles k pid fuel (schedule_from fuel pid k)
unfolding schedule_from
schedule_from-turns zero pid k =
    inr (record { none_runnable = λ i a b. absurd (omega arith); result = refl })
schedule_from-turns (suc fuel) pid k =
    elim (Bool-cases (is_runnable (k.proc_array ((pid + 1) % nprocs)).p_state)) [
      | inl now ↦ rw now (
          inl (record {
            turn = 1;
            after = omega arith;
            within = omega arith;
            runnable = now;
            first = λ i a b. absurd (omega arith);
            result = refl;
          }))
      | inr busy ↦ rw busy (elim (schedule_from-turns fuel ((pid + 1) % nprocs) k) [
        | inl p ↦ inl (Picks-later k pid busy p)
        | inr n ↦ inr (Idles-later k pid busy n)
      ])
    ]

-- The turns 1 to 16 reach every descriptor.
abbrev turn_to : ℕ → ℕ → ℕ
turn_to pid j = (j + 15 + (16 - pid % nprocs)) % nprocs + 1

turn_to_lem : (pid j : ℕ) → j < nprocs → (pid + turn_to pid j) % nprocs ≡ j
turn_to_lem pid j h = omega arith

turn_back : (pid t : ℕ) → 16 < t → (pid + (t - 16)) % nprocs ≡ (pid + t) % nprocs
turn_back pid t h = omega arith

module _ {k : Kernel} {pid fuel : ℕ} {out : Outcome} where
  Picks-within : Picks k pid fuel out → Picks k pid 16 out
  Picks-within p = record {
    turn = p.turn;
    after = p.after;
    within = elim (dec_lt 16 p.turn) [
      | yes far ↦
          let again =
            rw (turn_back pid p.turn far) at (p.first (p.turn - 16) (omega arith) (omega arith)) in
          absurd (ground (arith, p.runnable))
      | no near ↦ omega arith
    ];
    runnable = p.runnable;
    first = p.first;
    result = p.result;
  }

  Idles-all :
      16 ≤ fuel
      → Idles k pid fuel out
      → (j : ℕ) → j < nprocs
      → is_runnable (k.proc_array j).p_state ≡ false
  Idles-all h n j lt =
      rw (turn_to_lem pid j lt) at (n.none_runnable (turn_to pid j) (omega arith) (omega arith))

-- With fuel for one turn round the table, `schedule` runs the first runnable process after the
-- current one in the cyclic order of the table, the current one itself last; or no process is
-- runnable, and it spins.
pub schedule-round_robin :
    (fuel : ℕ) (k : Kernel)
    → 16 ≤ fuel
    → Picks k (k.proc_array k.current).p_pid 16 (schedule fuel k)
      ⊎ (((j : ℕ) → j < nprocs → is_runnable (k.proc_array j).p_state ≡ false)
          × (schedule fuel k ≡ spinning))
unfolding schedule
schedule-round_robin fuel k h = elim (schedule_from-turns fuel (k.proc_array k.current).p_pid k) [
  | inl p ↦ inl (Picks-within p)
  | inr n ↦ inr (Idles-all h n, n.result)
]
