-- ===== src/Mpos/Frame.antt =====
-- What the interrupts of weensyos1/mpos-kern.c leave of the memory outside of the stacks, where the kernel and
-- its process table lie.
use cs111fall.Prelude.{
  ℕ, zero, suc, ◌+◌, ◌*◌, ◌%◌, ◌≤◌, ◌<◌, ◌≡◌, refl, ◌⊎◌, inl, inr, ap, sym, ◌∙◌, Bool, true, false,
  Option, none, some, arith, ◌==◌, if◌then◌else◌, Bool-cases,
}
use cs111fall.Weensy.Registers.{Registers, is_runnable, is_zombie}
use cs111fall.Mpos.Process.{
  Kernel, Outcome, running, spinning, run, nprocs, proc1_stack_addr, proc_stack_size, set_registers,
  eax_of,
}
use cs111fall.Mpos.Kernel.{
  schedule_from, schedule, do_fork, do_newthread, find_empty, thread_result, thread_into, wake,
  wake_and_empty, sys_getpid, sys_fork, sys_newthread, sys_exit, exit_process, kill_target,
  sys_kill, wait_for, sys_wait, bad_target, interrupt,
}
use cs111fall.Mpos.Invariant.{IsKernel, Leaves, set_registers-IsTable}
use cs111fall.Mpos.Fork.{HasStack, Forks, do_fork-Forks}
use cs111fall.Mpos.Calls.{InStack, interrupt-IsKernel}

-- The two memories agree outside of the stacks of the processes.
abbrev pub SameOutside : Kernel → Kernel → Type 0
SameOutside k k' =
    (a : ℕ)
    → (a < proc1_stack_addr) ⊎ (proc1_stack_addr + 15 * proc_stack_size ≤ a)
    → k'.memory a ≡ k.memory a

-- A kernel that is left has the memory `m`.
abbrev HasMemory : (ℕ → ℕ) → Outcome → Type 0
HasMemory m = Leaves (λ k'. k'.memory ≡ m)

schedule-HasMemory : (fuel pid : ℕ) (k : Kernel) → HasMemory k.memory (schedule_from fuel pid k)
unfolding schedule_from run
schedule-HasMemory zero pid k = tt
schedule-HasMemory (suc fuel) pid k =
    elim (Bool-cases (is_runnable (k.proc_array ((pid + 1) % nprocs)).p_state)) [
      | inl runs ↦ rw runs refl
      | inr idle ↦ rw idle (schedule-HasMemory fuel ((pid + 1) % nprocs) k)
    ]

wake-memory : (p v : ℕ) (k : Kernel) → (wake p v k).memory ≡ k.memory
unfolding wake
wake-memory p v k = elim (Bool-cases ((k.proc_array p).wait_queue == 0)) [
  | inl nobody ↦ rw nobody refl
  | inr waiter ↦ rw waiter refl
]

wake_and_empty-memory : (p : ℕ) (k : Kernel) → (wake_and_empty p k).memory ≡ k.memory
unfolding wake_and_empty
wake_and_empty-memory p k = elim (Bool-cases ((k.proc_array p).wait_queue == 0)) [
  | inl nobody ↦ rw nobody refl
  | inr waiter ↦ rw waiter refl
]

kill_target-memory : (p : ℕ) (k : Kernel) → (kill_target p k).memory ≡ k.memory
unfolding kill_target
kill_target-memory p k = elim (Bool-cases (bad_target p k)) [
  | inl bad ↦ rw bad refl
  | inr good ↦ rw good (elim (Bool-cases (is_zombie (k.proc_array p).p_state)) [
    | inl dead ↦ rw dead (wake_and_empty-memory p _)
    | inr live ↦ rw live (wake_and_empty-memory p _)
  ])
]

wait_for-memory : (p : ℕ) (k : Kernel) → (wait_for p k).memory ≡ k.memory
unfolding wait_for
wait_for-memory p k = elim (Bool-cases (bad_target p k)) [
  | inl bad ↦ rw bad refl
  | inr good ↦ rw good (elim (Bool-cases (is_zombie (k.proc_array p).p_state)) [
    | inl dead ↦ rw dead refl
    | inr live ↦ rw live refl
  ])
]

thread_result-memory :
    (parent start : ℕ) (k : Kernel) (o : Option ℕ)
    → (thread_result parent start k o).1.memory ≡ k.memory
unfolding thread_result thread_into
thread_result-memory parent start k none = refl
thread_result-memory parent start k (some i) = refl

Forks-SameOutside :
    {k : Kernel} → HasStack k k.current → (r : ℕ × Kernel) → Forks k r → SameOutside k r.1
Forks-SameOutside {k} s (pid, k') (inl (full, e, same)) a outside =
    ap (λ (x : Kernel). x.memory a) same
Forks-SameOutside {k} s (pid, k') (inr (first, child)) a outside =
    let esp = ap (λ (x : Registers). x.reg_esp) child.registers in
    let lo = first.0 in
    let hi = first.1 in child.memory a (rw esp (ground (arith, s.above, s.below)))

run-SameOutside :
    (m : ℕ → ℕ) (k : Kernel) (o : Outcome) → k.memory ≡ m → HasMemory m o → Leaves (SameOutside k) o
run-SameOutside m k (running k') e same = λ a outside. ap (λ (f : ℕ → ℕ). f a) (same ∙ sym e)
run-SameOutside m k spinning e same = tt

if_Leaves :
    (P : Kernel → Type 0) (b : Bool) (x y : Outcome)
    → ((b ≡ true) → Leaves P x)
    → Leaves P y
    → Leaves P (if b then x else y)
if_Leaves P true x y p q = p refl
if_Leaves P false x y p q = q

-- The handler's calls, one by one; all but the fork leave the memory as it is.
module _ (fuel : ℕ) (k : Kernel) where
  schedule-SameOutside :
      (k0 : Kernel) → k0.memory ≡ k.memory → Leaves (SameOutside k) (schedule fuel k0)
  unfolding schedule
  schedule-SameOutside k0 e =
      run-SameOutside k0.memory k (schedule fuel k0) (sym e)
        (schedule-HasMemory fuel (k0.proc_array k0.current).p_pid k0)

  sys_newthread-SameOutside : Leaves (SameOutside k) (sys_newthread k)
  unfolding sys_newthread do_newthread run
  sys_newthread-SameOutside = λ a outside.
      ap (λ (f : ℕ → ℕ). f a)
        (thread_result-memory k.current (eax_of k.current k) k (find_empty 15 1 k))

  sys_exit-SameOutside : Leaves (SameOutside k) (sys_exit fuel k)
  unfolding sys_exit exit_process
  sys_exit-SameOutside = schedule-SameOutside _ (wake-memory k.current _ _)

  sys_kill-SameOutside : Leaves (SameOutside k) (sys_kill k)
  unfolding sys_kill run
  sys_kill-SameOutside =
      λ a outside. ap (λ (f : ℕ → ℕ). f a) (kill_target-memory (eax_of k.current k) k)

  sys_wait-SameOutside : Leaves (SameOutside k) (sys_wait fuel k)
  unfolding sys_wait
  sys_wait-SameOutside = schedule-SameOutside _ (wait_for-memory (eax_of k.current k) k)

  sys_fork-SameOutside : IsKernel k → HasStack k k.current → Leaves (SameOutside k) (sys_fork k)
  unfolding sys_fork run
  sys_fork-SameOutside s h = Forks-SameOutside h (do_fork k.current k) (do_fork-Forks s h)

both : (P Q : Kernel → Type 0) (o : Outcome) → Leaves P o → Leaves Q o → Leaves (λ k. P k × Q k) o
both P Q (running k) p q = (p, q)
both P Q spinning p q = tt

-- Whatever interrupt comes, from a process of a table in order, with fuel for one turn round the table and, if
-- the process forks, its stack pointer in its own stack: the kernel leaves to a runnable process with the
-- table in order, or it spins; and it writes no memory outside of the stacks of the processes.
pub interrupt-SameOutside :
    (fuel : ℕ) (reg : Registers) {k : Kernel}
    → 16 ≤ fuel
    → InStack reg k.current
    → IsKernel k
    → Leaves (λ k'. IsKernel k' × SameOutside k k') (interrupt fuel reg k)
unfolding interrupt
interrupt-SameOutside fuel reg {k} h in_stack s =
    let k0 = set_registers k.current reg k in
    let saved : IsKernel k0 = record {
      table = set_registers-IsTable s.table k.current s.table.to reg;
      runs = ground (arith, s.runs);
    } in
    let n = reg.reg_intno in
    let P : Kernel → Type 0 = SameOutside k in
    both IsKernel P (interrupt fuel reg k) (interrupt-IsKernel fuel reg h in_stack s) (
      if_Leaves P (n == 48) _ _ (λ e. unfold sys_getpid run in λ a outside. refl)
        (if_Leaves P (n == 49) _ _
          (λ e. sys_fork-SameOutside fuel k0 saved (record {
            above = ground (arith, in_stack (ground arith));
            below = ground (arith, in_stack (ground arith));
          }))
          (if_Leaves P (n == 54) _ _ (λ e. sys_newthread-SameOutside fuel k0)
            (if_Leaves P (n == 50) _ _ (λ e. schedule-SameOutside fuel k k0 refl)
              (if_Leaves P (n == 51) _ _ (λ e. sys_exit-SameOutside fuel k0)
                (if_Leaves P (n == 53) _ _ (λ e. sys_kill-SameOutside fuel k0)
                  (if_Leaves P (n == 52) _ _ (λ e. sys_wait-SameOutside fuel k0) tt)))))))
