-- ===== src/Schedos/Fair.antt =====
-- Whom algorithm 4 of weensyos2/schedos-kern.c chooses, and that it chooses.
use native.Mathlib.Decide.{dec_lt}
use cs111fall.Prelude.{
  ℕ, zero, suc, ◌+◌, ◌-◌, ◌%◌, ◌≤◌, ◌<◌, ◌≡◌, refl, ◌≢◌, ◌⊎◌, inl, inr, Bool, true, false, arith,
  ◌&&◌, ◌==◌, if◌then◌else◌, Bool-cases, leb,
}
use cs111fall.Weensy.Registers.{is_runnable, minus_one}
use cs111fall.Schedos.Process.{
  Process, Kernel, Outcome, running, spinning, run, nprocs, set_run_count,
}
use cs111fall.Schedos.Kernel.{least_priority, run_counted, multi_level}
use cs111fall.Schedos.Choice.{Ready}

-- The current process is runnable, and it has no share, or no runnable process has a smaller priority
-- number.
abbrev pub Fair : Kernel → Type 0
Fair k =
    Ready (k.proc_array k.current)
    × (((k.proc_array k.current).p_share ≡ minus_one)
        ⊎ ((i : ℕ)
            → 1 ≤ i
            → i < nprocs
            → Ready (k.proc_array i)
            → (k.proc_array k.current).p_priority ≤ (k.proc_array i).p_priority))

-- The kernel leaves to a process, with `P`.
abbrev pub Settles : (Kernel → Type 0) → Outcome → Type 0
Settles P (running k) = P k
Settles P spinning = ⊥

least_priority-least :
    (rounds i priority : ℕ) (k : Kernel)
    → (least_priority rounds i priority k ≤ priority)
      × ((u : ℕ)
          → i ≤ u
          → u < i + rounds
          → Ready (k.proc_array u)
          → least_priority rounds i priority k ≤ (k.proc_array u).p_priority)
unfolding least_priority
least_priority-least zero i priority k = (omega arith, λ u a b r. absurd (omega arith))
least_priority-least (suc n) i priority k =
    let p = k.proc_array i in
    let next =
      if is_runnable p.p_state && leb p.p_priority priority then p.p_priority else priority in
    let (below, rest) = least_priority-least n (i + 1) next k in
    let smaller : next ≤ priority = ground arith in
    (
      omega arith,
      λ u a b r. elim (dec_lt i u) [
        | yes c ↦ rest u (omega arith) (omega arith) r
        | no c ↦ let e : u ≡ i = omega arith in rw e (ground (arith, rw e at r))
      ],
    )

module _ (k : Kernel) (pid priority : ℕ) (ready : Ready (k.proc_array pid)) where
  run-Fair : (k.proc_array pid).p_share ≡ minus_one → Settles Fair (run pid k)
  unfolding run
  run-Fair e = (ready, inl e)

  run_counted-Fair :
      (k.proc_array pid).p_priority ≤ least_priority 4 1 priority k
      → Settles Fair (run_counted pid k)
  unfolding run_counted run
  run_counted-Fair le =
      let (below, least) = least_priority-least 4 1 priority k in
      (
        ground (arith, ready),
        inr (λ i a b r.
            let r' : Ready (k.proc_array i) = ground (arith, ready) in
            ground (arith, least i a b r')),
      )

-- A process without a share that is runnable.
abbrev pub Unlimited : Process → Type 0
Unlimited p = Ready p × (p.p_share ≡ minus_one)

reset-Unlimited :
    (b : Bool) (pid j : ℕ) (k : Kernel)
    → Unlimited (k.proc_array j)
    → Unlimited ((if b then set_run_count pid 0 k else k).proc_array j)
reset-Unlimited true pid j k (r, s) = (ground (arith, r), ground (arith, s))
reset-Unlimited false pid j k u = u

if_Settles :
    (b : Bool) (x y : Outcome)
    → (b ≡ true → Settles Fair x)
    → (b ≡ false → Settles Fair y)
    → Settles Fair (if b then x else y)
if_Settles true x y p q = p refl
if_Settles false x y p q = q refl

pub multi_level-Settles :
    (fuel pid priority d : ℕ) (k : Kernel)
    → d < fuel
    → pid < nprocs
    → Unlimited (k.proc_array ((pid + d) % nprocs))
    → Settles Fair (multi_level fuel pid priority k)
unfolding multi_level
multi_level-Settles zero pid priority d k h lt u = absurd (omega arith)
multi_level-Settles (suc n) pid priority d k h lt u =
    let p = k.proc_array pid in
    let least = least_priority 4 1 priority k in
    let chosen = is_runnable p.p_state && leb p.p_priority least in
    let k' = if chosen then set_run_count pid 0 k else k in
    elim (Bool-cases (is_runnable p.p_state && p.p_share == minus_one)) [
      | inl free ↦ rw free (run-Fair k pid priority (ground arith) (ground arith))
      | inr bound ↦ rw bound (
          let far : d ≢ 0 = λ z.
            let here : (pid + d) % nprocs ≡ pid = omega (arith, z) in
            let (r, s) = rw here at u in ground (arith, r, s) in
          let same : ((pid + 1) % nprocs + (d - 1)) % nprocs ≡ (pid + d) % nprocs =
            omega (arith, far) in
          let rest : Settles Fair (multi_level n ((pid + 1) % nprocs) least k') =
            multi_level-Settles n ((pid + 1) % nprocs) least (d - 1) k' (omega (arith, far))
              (omega arith) (rw same (reset-Unlimited chosen pid ((pid + d) % nprocs) k u)) in
          if_Settles chosen _ _
            (λ c.
              if_Settles (p.p_run_count == p.p_share) _ _ (λ e. rest)
                (λ e. run_counted-Fair k pid priority (ground arith) (ground arith)))
            (λ c. rest))
    ]
