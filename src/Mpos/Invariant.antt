-- ===== src/Mpos/Invariant.antt =====
-- What every entry to and exit from the kernel of weensyos1/mpos-kern.c keeps of the process table.
use cs111fall.Prelude.{
  ℕ, zero, suc, ◌+◌, ◌≤◌, ◌<◌, ◌≡◌, refl, ◌≢◌, inl, inr, true, some, arith, Bool-cases,
}
use cs111fall.Mpos.Kernel.{
  schedule, find_empty, start_child, resume, fork_into, copy_stack, thread_into,
}
use cs111fall.Mpos.Process.{
  Process, Kernel, Outcome, running, spinning, run, nprocs, set_proc, set_state, set_registers,
  set_wait_queue, set_exit_status,
}
use cs111fall.Weensy.Registers.{
  Registers, ProcState, p_empty, p_runnable, p_zombie, is_runnable, is_empty,
}
use cs111fall.Mpos.Schedule.{schedule-round_robin}

-- Descriptor 0 is never used, the others know their index, and a waiter is a descriptor or 0.
pub record IsTable (k : Kernel) : Type 0 where
  pub pids : (i : ℕ) → i < nprocs → (k.proc_array i).p_pid ≡ i
  pub queues : (i : ℕ) → i < nprocs → (k.proc_array i).wait_queue < nprocs
  pub unused : (k.proc_array 0).p_state ≡ p_empty
  pub from : 1 ≤ k.current
  pub to : k.current < nprocs

-- At every exit to a process, that process is runnable.
pub record IsKernel (k : Kernel) : Type 0 where
  pub table : IsTable k
  pub runs : (k.proc_array k.current).p_state ≡ p_runnable

abbrev pub Leaves : (Kernel → Type 0) → Outcome → Type 0
Leaves P (running k) = P k
Leaves P spinning = Unit {0}

set_proc-IsTable :
    (i : ℕ) (p : Process) {k : Kernel}
    → IsTable k
    → p.p_pid ≡ (k.proc_array i).p_pid
    → p.wait_queue < nprocs
    → (i ≡ 0 → p.p_state ≡ p_empty)
    → IsTable (set_proc i p k)
set_proc-IsTable i p t same queue at_zero = record {
  pids = λ j h. ground (arith, t.pids j h, same);
  queues = λ j h. ground (arith, t.queues j h, queue);
  unused = ground (arith, t.unused, at_zero);
  from = t.from;
  to = t.to;
}

module _ {k : Kernel} (t : IsTable k) (i : ℕ) (lt : i < nprocs) where
  pub set_registers-IsTable : (r : Registers) → IsTable (set_registers i r k)
  set_registers-IsTable r = set_proc-IsTable i _ t refl (t.queues i lt) (λ z. rw z t.unused)

  pub set_exit_status-IsTable : (v : ℕ) → IsTable (set_exit_status i v k)
  set_exit_status-IsTable v = set_proc-IsTable i _ t refl (t.queues i lt) (λ z. rw z t.unused)

  pub set_state-IsTable : (s : ProcState) → i ≢ 0 → IsTable (set_state i s k)
  set_state-IsTable s ne = set_proc-IsTable i _ t refl (t.queues i lt) (λ z. absurd (ne z))

  pub resume-IsTable : (v : ℕ) → i ≢ 0 → IsTable (resume i v k)
  resume-IsTable v ne = set_proc-IsTable i _ t refl (t.queues i lt) (λ z. absurd (ne z))

  pub exited-IsTable :
      i ≢ 0
      → IsTable (
          set_proc i
            (record (k.proc_array i) {
              p_state = p_zombie;
              p_exit_status = (k.proc_array i).p_registers.reg_eax;
            })
            k)
  exited-IsTable ne = set_proc-IsTable i _ t refl (t.queues i lt) (λ z. absurd (ne z))

  pub empty-IsTable : IsTable (set_state i p_empty k)
  empty-IsTable = set_proc-IsTable i _ t refl (t.queues i lt) (λ z. refl)

  pub set_wait_queue-IsTable : (v : ℕ) → v < nprocs → IsTable (set_wait_queue i v k)
  set_wait_queue-IsTable v h = set_proc-IsTable i _ t refl h (λ z. rw z t.unused)

record_current :
    {k : Kernel} (i : ℕ) → IsTable k → 1 ≤ i → i < nprocs → IsTable (record k { current = i })
record_current i t lo hi = record {
  pids = t.pids;
  queues = t.queues;
  unused = t.unused;
  from = lo;
  to = hi;
}

runnable_lem : (s : ProcState) → is_runnable s ≡ true → s ≡ p_runnable
runnable_lem s h = ground arith

-- A runnable process may be left to.
pub run-IsKernel :
    (i : ℕ) {k : Kernel}
    → IsTable k
    → i < nprocs
    → is_runnable (k.proc_array i).p_state ≡ true
    → Leaves IsKernel (run i k)
unfolding run
run-IsKernel i {k} t lt r = record {
  table = record_current i t (ground (arith, t.unused)) lt;
  runs = runnable_lem _ r;
}

-- `schedule` leaves to a runnable process, or spins.
pub schedule-IsKernel :
    (fuel : ℕ) {k : Kernel} → 16 ≤ fuel → IsTable k → Leaves IsKernel (schedule fuel k)
schedule-IsKernel fuel {k} h t = elim (schedule-round_robin fuel k h) [
  | inl p ↦ rw p.result (run-IsKernel _ t (omega arith) p.runnable)
  | inr (idle, out) ↦ rw out tt
]

pub find_empty_lem :
    (rounds i : ℕ) (k : Kernel) {j : ℕ}
    → find_empty rounds i k ≡ some j
    → (i ≤ j) × (j < i + rounds) × (is_empty (k.proc_array j).p_state ≡ true)
unfolding find_empty
find_empty_lem zero i k h = cc
find_empty_lem (suc n) i k {j} h = elim (Bool-cases (is_empty (k.proc_array i).p_state)) [
  | inl free ↦ ground arith
  | inr busy ↦ ground (arith, find_empty_lem n (i + 1) k {j = j})
]

-- Memory is no part of the table.
memory-IsTable : {k : Kernel} (m : ℕ → ℕ) → IsTable k → IsTable (record k { memory = m })
memory-IsTable m t = record {
  pids = t.pids;
  queues = t.queues;
  unused = t.unused;
  from = t.from;
  to = t.to;
}

module _ {k : Kernel} (t : IsTable k) (i : ℕ) (lo : 1 ≤ i) (lt : i < nprocs) where
  pub fork_into-IsTable : (parent : ℕ) → IsTable (fork_into i parent k)
  unfolding fork_into copy_stack
  fork_into-IsTable parent =
      let one : IsTable (start_child i parent k) =
        set_proc-IsTable i _ t refl (t.queues i lt) (λ z. absurd (omega arith)) in
      let two = set_registers-IsTable (memory-IsTable _ one) i lt _ in
      set_proc-IsTable i _ two refl (omega arith) (λ z. absurd (omega arith))

  pub thread_into-IsTable : (parent start : ℕ) → IsTable (thread_into i parent start k)
  unfolding thread_into
  thread_into-IsTable parent start =
      set_proc-IsTable i _ t refl (omega arith) (λ z. absurd (omega arith))
