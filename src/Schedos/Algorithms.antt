-- ===== src/Schedos/Algorithms.antt =====
-- `schedule` of weensyos2/schedos-kern.c under the algorithms 1 to 4.
use cs111fall.Prelude.{ℕ, zero, suc, ◌+◌, ◌-◌, ◌%◌, ◌^◌, ◌≤◌, ◌<◌, ◌≡◌, ◌≢◌, arith}
use cs111fall.Schedos.Process.{Process, Kernel, Outcome, running, spinning, nprocs}
use cs111fall.Schedos.Kernel.{schedule}
use cs111fall.Schedos.Invariant.{IsTable, IsKernel}
use cs111fall.Schedos.Choice.{ByNumber, by_number-ByNumber}
use cs111fall.Schedos.Urgent.{ByPriority, by_priority-ByPriority}
use cs111fall.Schedos.Fair.{Fair, Settles, Unlimited, multi_level-Settles}

-- Under algorithm 1 the runnable process with the least number runs; or no process is runnable, and the
-- kernel spins.
pub schedule-ByNumber :
    (fuel : ℕ) (k : Kernel) → 1 ≤ fuel → k.scheduling_algorithm ≡ 1 → ByNumber k (schedule fuel k)
unfolding schedule
schedule-ByNumber fuel k h a = simp a (by_number-ByNumber fuel k h)

-- Under algorithm 2, with priorities of 32 bits, the runnable process with the least priority number
-- runs, the last such process in the cyclic order that starts at the current one; or no process is
-- runnable, and the kernel spins.
pub schedule-ByPriority :
    (fuel : ℕ) (k : Kernel)
    → 1 ≤ fuel
    → k.scheduling_algorithm ≡ 2
    → IsTable k
    → ((i : ℕ) → (k.proc_array i).p_priority < 2 ^ 32)
    → ByPriority k (k.proc_array k.current).p_pid (schedule fuel k)
unfolding schedule
schedule-ByPriority fuel k h a t small = simp a (
    by_priority-ByPriority k (k.proc_array k.current).p_pid t.unused
      (λ u. small (((k.proc_array k.current).p_pid + u) % nprocs)) fuel h)

-- Under algorithm 4, if a process without a share is runnable, the kernel leaves to a runnable process
-- that has no share or has the least priority number of the runnable processes.
pub schedule-Fair :
    (fuel j : ℕ) (k : Kernel)
    → 5 ≤ fuel
    → k.scheduling_algorithm ≡ 4
    → IsTable k
    → j < nprocs
    → Unlimited (k.proc_array j)
    → Settles Fair (schedule fuel k)
unfolding schedule
schedule-Fair fuel j k h a t lt u =
    let c = (k.proc_array k.current).p_pid in
    let c_lt : c < nprocs = omega (arith, t.pids k.current t.to, t.to) in
    let there : (c + (j + 5 - c) % nprocs) % nprocs ≡ j = omega arith in
    simp a (
      multi_level-Settles fuel c 0xFFFFFFFF ((j + 5 - c) % nprocs) k (omega arith) c_lt
        (rw there u))

-- `schedule` comes back to the process that it ran, `n` times.
abbrev pub then_schedule : ℕ → Outcome → Outcome
then_schedule fuel (running k) = schedule fuel k
then_schedule fuel spinning = spinning

unfoldable pub turns : ℕ → ℕ → Kernel → Outcome
turns zero fuel k = running k
turns (suc n) fuel k = then_schedule fuel (turns n fuel k)

-- The same process is current, its counter is `n`, and nothing else has changed.
pub record Quantum (k : Kernel) (n : ℕ) (k' : Kernel) : Type 0 where
  pub same : k'.current ≡ k.current
  pub algorithm : k'.scheduling_algorithm ≡ k.scheduling_algorithm
  pub counted : k'.proc_array k.current ≡ record (k.proc_array k.current) { p_run_count = n }
  pub others : (j : ℕ) → k.current ≢ j → k'.proc_array j ≡ k.proc_array j

module _ (fuel : ℕ) (k : Kernel) (s : IsKernel k) (a : k.scheduling_algorithm ≡ 3) where
  abbrev me : Process
  me = k.proc_array k.current
