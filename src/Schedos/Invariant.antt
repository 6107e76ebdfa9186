-- ===== src/Schedos/Invariant.antt =====
-- What every entry to and exit from the kernel of weensyos2/schedos-kern.c keeps of the process table.
use cs111fall.Prelude.{
  ℕ, zero, suc, ◌+◌, ◌%◌, ◌^◌, ◌≤◌, ◌<◌, ◌≡◌, refl, ◌⊎◌, inl, inr, Bool, true, false, arith, ◌&&◌,
  ◌==◌, if◌then◌else◌, Bool-cases, leb,
}
use cs111fall.Weensy.Registers.{p_empty, p_runnable, is_runnable, minus_one}
use cs111fall.Schedos.Process.{
  Process, Kernel, Outcome, running, spinning, run, nprocs, set_proc, set_run_count,
}
use cs111fall.Schedos.Kernel.{
  round_robin, first_runnable, by_number, most_urgent, by_priority, run_counted, by_share,
  least_priority, multi_level,
}

-- Descriptor 0 is never used, the others know their index, and a descriptor is current.
pub record IsTable (k : Kernel) : Type 0 where
  pub pids : (i : ℕ) → i < nprocs → (k.proc_array i).p_pid ≡ i
  pub unused : (k.proc_array 0).p_state ≡ p_empty
  pub from : 1 ≤ k.current
  pub to : k.current < nprocs

-- At every exit to a process, that process is runnable.
pub record IsKernel (k : Kernel) : Type 0 where
  pub table : IsTable k
  pub runs : (k.proc_array k.current).p_state ≡ p_runnable

abbrev pub Leaves : (Kernel → Type 0) → Outcome → Type 0
Leaves P (running k) = P k
Leaves P spinning = Unit {0}

pub if_Leaves :
    (b : Bool) (x y : Outcome)
    → (b ≡ true → Leaves IsKernel x)
    → (b ≡ false → Leaves IsKernel y)
    → Leaves IsKernel (if b then x else y)
if_Leaves true x y p q = p refl
if_Leaves false x y p q = q refl

pub set_proc-IsTable :
    (i : ℕ) (p : Process) {k : Kernel}
    → IsTable k
    → p.p_pid ≡ (k.proc_array i).p_pid
    → (i ≡ 0 → p.p_state ≡ p_empty)
    → IsTable (set_proc i p k)
set_proc-IsTable i p t same at_zero = record {
  pids = λ j h. ground (arith, t.pids j h, same);
  unused = ground (arith, t.unused, at_zero);
  from = t.from;
  to = t.to;
}

-- Every assignment but that of the exit leaves the states alone.
pub keep-IsTable :
    (i : ℕ) (p : Process) {k : Kernel}
    → IsTable k
    → p.p_pid ≡ (k.proc_array i).p_pid
    → p.p_state ≡ (k.proc_array i).p_state
    → IsTable (set_proc i p k)
keep-IsTable i p t same state = set_proc-IsTable i p t same (λ z. ground (arith, t.unused, state))

runnable_lem : (s : _) → is_runnable s ≡ true → s ≡ p_runnable
runnable_lem s h = ground arith

module _ (k : Kernel) (t : IsTable k) where
  pub run-IsKernel :
      (i : ℕ) → i < nprocs → is_runnable (k.proc_array i).p_state ≡ true → Leaves IsKernel (run i k)
  unfolding run
  run-IsKernel i lt r = record {
    table = record { pids = t.pids; unused = t.unused; from = ground (arith, t.unused); to = lt };
    runs = runnable_lem _ r;
  }

  run_counted-IsKernel :
      (i : ℕ)
      → i < nprocs
      → is_runnable (k.proc_array i).p_state ≡ true
      → Leaves IsKernel (run_counted i k)
  unfolding run_counted run
  run_counted-IsKernel i lt r =
      let t' =
        keep-IsTable i
          (record (k.proc_array i) { p_run_count = ((k.proc_array i).p_run_count + 1) % 2 ^ 32 }) t
          refl refl in
      record {
        table = record {
          pids = t'.pids;
          unused = t'.unused;
          from = ground (arith, t.unused);
          to = lt;
        };
        runs = ground (arith, runnable_lem _ r);
      }

pub round_robin-IsKernel :
    (fuel pid : ℕ) (k : Kernel) → IsTable k → Leaves IsKernel (round_robin fuel pid k)
unfolding round_robin
round_robin-IsKernel zero pid k t = tt
round_robin-IsKernel (suc n) pid k t =
    elim (Bool-cases (is_runnable (k.proc_array ((pid + 1) % nprocs)).p_state)) [
      | inl ready ↦ rw ready (run-IsKernel k t ((pid + 1) % nprocs) (omega arith) ready)
      | inr busy ↦ rw busy (round_robin-IsKernel n ((pid + 1) % nprocs) k t)
    ]

-- 0, or a runnable descriptor.
abbrev pub IsChoice : Kernel → ℕ → Type 0
IsChoice k i = (i ≡ 0) ⊎ ((i < nprocs) × (is_runnable (k.proc_array i).p_state ≡ true))

first_runnable-IsChoice :
    (rounds i best : ℕ) (k : Kernel)
    → i + rounds ≡ nprocs
    → IsChoice k best
    → IsChoice k (first_runnable rounds i best k)
unfolding first_runnable
first_runnable-IsChoice zero i best k e h = h
first_runnable-IsChoice (suc n) i best k e h =
    elim (Bool-cases (is_runnable (k.proc_array i).p_state)) [
      | inl ready ↦ rw ready (inr (omega arith, ready))
      | inr busy ↦ rw busy (first_runnable-IsChoice n (i + 1) best k (omega arith) h)
    ]

pub by_number-IsKernel :
    (fuel best : ℕ) (k : Kernel)
    → IsTable k
    → IsChoice k best
    → Leaves IsKernel (by_number fuel best k)
unfolding by_number
by_number-IsKernel zero best k t h = tt
by_number-IsKernel (suc n) best k t h =
    let next = first_runnable-IsChoice 4 1 best k refl h in
    elim (Bool-cases (first_runnable 4 1 best k == 0)) [
      | inl nobody ↦ rw nobody (by_number-IsKernel n (first_runnable 4 1 best k) k t next)
      | inr found ↦ rw found (elim next [
        | inl z ↦ absurd (ground arith)
        | inr (lt, ready) ↦ run-IsKernel k t (first_runnable 4 1 best k) lt ready
      ])
    ]

most_urgent-IsChoice :
    (rounds i cur best priority : ℕ) (k : Kernel)
    → IsChoice k best
    → IsChoice k (most_urgent rounds i cur best priority k).0
unfolding most_urgent
most_urgent-IsChoice zero i cur best priority k h = h
most_urgent-IsChoice (suc n) i cur best priority k h =
    most_urgent-IsChoice n (i + 1) cur _ _ k
      (elim (Bool-cases (
        is_runnable (k.proc_array ((cur + i) % nprocs)).p_state
        && leb (k.proc_array ((cur + i) % nprocs)).p_priority priority)) [
          | inl better ↦ rw better (inr (omega arith, ground arith))
          | inr worse ↦ rw worse h
        ])

pub by_priority-IsKernel :
    (fuel cur best priority : ℕ) (k : Kernel)
    → IsTable k
    → IsChoice k best
    → Leaves IsKernel (by_priority fuel cur best priority k)
unfolding by_priority
by_priority-IsKernel zero cur best priority k t h = tt
by_priority-IsKernel (suc n) cur best priority k t h =
    let next = most_urgent-IsChoice 5 0 cur best priority k h in
    let b = most_urgent 5 0 cur best priority k in
    elim (Bool-cases (b.0 == 0)) [
      | inl nobody ↦ rw nobody (by_priority-IsKernel n cur b.0 b.1 k t next)
      | inr found ↦ rw found (elim next [
        | inl z ↦ absurd (ground arith)
        | inr (lt, ready) ↦ run-IsKernel k t b.0 lt ready
      ])
    ]

module _ (pid : ℕ) (lt : pid < nprocs) (k : Kernel) (t : IsTable k) where
  -- The counter is reset before the next process is looked at, or nothing changes.
  reset-IsTable : (b : Bool) → IsTable (if b then set_run_count pid 0 k else k)
  reset-IsTable true = keep-IsTable pid _ t refl refl
  reset-IsTable false = t

pub by_share-IsKernel :
    (fuel pid : ℕ) (k : Kernel) → pid < nprocs → IsTable k → Leaves IsKernel (by_share fuel pid k)
unfolding by_share
by_share-IsKernel zero pid k lt t = tt
by_share-IsKernel (suc n) pid k lt t = elim (Bool-cases (is_runnable (k.proc_array pid).p_state)) [
  | inl ready ↦ rw ready (elim (Bool-cases ((k.proc_array pid).p_share == minus_one)) [
    | inl free ↦ rw free (run-IsKernel k t pid lt ready)
    | inr bound ↦
        rw bound (elim (Bool-cases ((k.proc_array pid).p_run_count == (k.proc_array pid).p_share)) [
          | inl done ↦ rw done (
              by_share-IsKernel n ((pid + 1) % nprocs) (set_run_count pid 0 k) (omega arith)
                (reset-IsTable pid lt k t true))
          | inr left ↦ rw left (run_counted-IsKernel k t pid lt ready)
        ])
  ])
  | inr busy ↦ rw busy (by_share-IsKernel n ((pid + 1) % nprocs) k (omega arith) t)
]

pub multi_level-IsKernel :
    (fuel pid priority : ℕ) (k : Kernel)
    → pid < nprocs
    → IsTable k
    → Leaves IsKernel (multi_level fuel pid priority k)
unfolding multi_level
multi_level-IsKernel zero pid priority k lt t = tt
multi_level-IsKernel (suc n) pid priority k lt t =
    let p = k.proc_array pid in
    let least = least_priority 4 1 priority k in
    let chosen = is_runnable p.p_state && leb p.p_priority least in
    let rest =
      multi_level-IsKernel n ((pid + 1) % nprocs) least
        (if chosen then set_run_count pid 0 k else k) (omega arith)
        (reset-IsTable pid lt k t chosen) in
    elim (Bool-cases (is_runnable p.p_state && p.p_share == minus_one)) [
      | inl free ↦ rw free (run-IsKernel k t pid lt (ground arith))
      | inr bound ↦ rw bound (
          if_Leaves chosen _ _
            (λ c.
              if_Leaves (p.p_run_count == p.p_share) _ _ (λ d. rest)
                (λ d. run_counted-IsKernel k t pid lt (ground arith)))
            (λ c. rest))
    ]
