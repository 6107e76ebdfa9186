-- ===== src/Mpos/Calls.antt =====
-- Each system call of weensyos1/mpos-kern.c keeps the invariant of the process table.
use cs111fall.Prelude.{
  ℕ, ◌+◌, ◌≤◌, ◌<◌, ◌≡◌, refl, ◌≢◌, inl, inr, Bool, true, false, Option, none, some, arith, ◌==◌,
  if◌then◌else◌, Bool-cases,
}
use cs111fall.Mpos.Kernel.{
  find_empty, fork_into, fork_result, thread_result, do_fork, copy_stack, thread_into, do_newthread,
  bad_target, stack_top, wake, wake_and_empty, sys_getpid, sys_fork, sys_newthread, sys_exit,
  kill_target, sys_kill, wait_for, sys_wait, exit_process, interrupt,
}
use cs111fall.Mpos.Process.{
  Kernel, Outcome, run, nprocs, proc_stack_size, set_registers, set_eax, eax_of,
}
use cs111fall.Weensy.Registers.{Registers, p_runnable, p_blocked, is_empty, is_zombie}
use cs111fall.Mpos.Invariant.{
  IsTable, IsKernel, Leaves, set_registers-IsTable, set_exit_status-IsTable, set_state-IsTable,
  resume-IsTable, exited-IsTable, empty-IsTable, set_wait_queue-IsTable, schedule-IsKernel,
  run-IsKernel, find_empty_lem, fork_into-IsTable, thread_into-IsTable,
}

-- The table is in order, and the current process is the same and still runnable.
abbrev Resumes : Kernel → Kernel → Type 0
Resumes k k' =
    IsTable k' × (k'.current ≡ k.current) × ((k'.proc_array k'.current).p_state ≡ p_runnable)

fork_result-Resumes :
    {k : Kernel} (o : Option ℕ)
    → IsKernel k
    → ((i : ℕ) → o ≡ some i → (1 ≤ i) × (i < 1 + 15) × (is_empty (k.proc_array i).p_state ≡ true))
    → Resumes k (fork_result k.current k o).1
unfolding fork_result
fork_result-Resumes none s f = (s.table, refl, s.runs)
fork_result-Resumes {k} (some i) s f =
    let (lo, hi, free) = f i refl in
    (
      fork_into-IsTable s.table i lo (omega arith) k.current,
      unfold fork_into copy_stack in refl,
      unfold fork_into copy_stack in ground (arith, s.runs),
    )

thread_result-Resumes :
    {k : Kernel} (start : ℕ) (o : Option ℕ)
    → IsKernel k
    → ((i : ℕ) → o ≡ some i → (1 ≤ i) × (i < 1 + 15) × (is_empty (k.proc_array i).p_state ≡ true))
    → Resumes k (thread_result k.current start k o).1
unfolding thread_result
thread_result-Resumes start none s f = (s.table, refl, s.runs)
thread_result-Resumes {k} start (some i) s f =
    let (lo, hi, free) = f i refl in
    (
      thread_into-IsTable s.table i lo (omega arith) k.current start,
      unfold thread_into in refl,
      unfold thread_into in ground (arith, s.runs),
    )

-- A process that resumes gets a value in %eax.
resume-IsKernel :
    (k : Kernel) {k' : Kernel} (v : ℕ)
    → Resumes k k'
    → Leaves IsKernel (run k'.current (set_eax k'.current v k'))
resume-IsKernel k {k' = k'} v (t, same, r) =
    run-IsKernel k'.current (set_registers-IsTable t k'.current t.to _) t.to (ground (arith, r))

module _ {k : Kernel} (s : IsKernel k) where
  sys_getpid-IsKernel : Leaves IsKernel (sys_getpid k)
  unfolding sys_getpid
  sys_getpid-IsKernel = resume-IsKernel k _ (s.table, refl, s.runs)

  sys_fork-IsKernel : Leaves IsKernel (sys_fork k)
  unfolding sys_fork do_fork
  sys_fork-IsKernel =
      resume-IsKernel k _ (fork_result-Resumes (find_empty 15 1 k) s (λ i. find_empty_lem 15 1 k))

  sys_newthread-IsKernel : Leaves IsKernel (sys_newthread k)
  unfolding sys_newthread do_newthread
  sys_newthread-IsKernel = resume-IsKernel k _ (
      thread_result-Resumes (eax_of k.current k) (find_empty 15 1 k) s (λ i. find_empty_lem 15 1 k))

-- An acceptable target is another descriptor in use.
pub bad_target_lem :
    (p : ℕ) (k : Kernel)
    → IsTable k
    → bad_target p k ≡ false
    → (1 ≤ p) × (p < nprocs) × (p ≢ k.current) × (is_empty (k.proc_array p).p_state ≡ false)
unfolding bad_target
bad_target_lem p k t h = ground (arith, t.pids k.current t.to)

module _ {k : Kernel} (t : IsTable k) (p : ℕ) (lt : p < nprocs) where
  wake-IsTable : (v : ℕ) → IsTable (wake p v k)
  unfolding wake
  wake-IsTable v = elim (Bool-cases ((k.proc_array p).wait_queue == 0)) [
    | inl nobody ↦ rw nobody t
    | inr waiter ↦
        rw waiter (resume-IsTable t (k.proc_array p).wait_queue (t.queues p lt) v (ground arith))
  ]

  wake_and_empty-Resumes :
      p ≢ k.current → (k.proc_array k.current).p_state ≡ p_runnable → Resumes k (wake_and_empty p k)
  unfolding wake_and_empty
  wake_and_empty-Resumes ne r = elim (Bool-cases ((k.proc_array p).wait_queue == 0)) [
    | inl nobody ↦ rw nobody (t, refl, r)
    | inr waiter ↦ rw waiter (
      empty-IsTable (resume-IsTable t (k.proc_array p).wait_queue (t.queues p lt) 0 (ground arith))
          p lt,
      refl,
      ground (arith, r, ne),
    )
  ]

module _ {k : Kernel} (s : IsKernel k) where
  sys_exit-IsKernel : (fuel : ℕ) → 16 ≤ fuel → Leaves IsKernel (sys_exit fuel k)
  unfolding sys_exit exit_process
  sys_exit-IsKernel fuel h =
      let t = s.table in
      schedule-IsKernel fuel h
        (wake-IsTable (exited-IsTable t k.current t.to (omega (arith, t.from))) k.current t.to _)

  kill_target-Resumes : (p : ℕ) → Resumes k (kill_target p k)
  unfolding kill_target
  kill_target-Resumes p = elim (Bool-cases (bad_target p k)) [
    | inl bad ↦
        rw bad (set_registers-IsTable s.table k.current s.table.to _, refl, ground (arith, s.runs))
    | inr good ↦
        let (lo, hi, ne, used) = bad_target_lem p k s.table good in
        let told = set_registers-IsTable s.table k.current s.table.to _ in
        rw good (elim (Bool-cases (is_zombie (k.proc_array p).p_state)) [
          | inl dead ↦ rw dead (
              wake_and_empty-Resumes (set_exit_status-IsTable told p hi 0) p hi ne
                (ground (arith, s.runs)))
          | inr live ↦ rw live (
              wake_and_empty-Resumes
                (set_registers-IsTable (set_exit_status-IsTable (empty-IsTable s.table p hi) p hi _)
                  k.current s.table.to _)
                p hi ne (ground (arith, s.runs, ne)))
        ])
  ]

  sys_kill-IsKernel : Leaves IsKernel (sys_kill k)
  unfolding sys_kill
  sys_kill-IsKernel =
      let (t, same, r) = kill_target-Resumes (eax_of k.current k) in
      run-IsKernel k.current t s.table.to (ground (arith, same, r))

  wait_for-IsTable : (p : ℕ) → IsTable (wait_for p k)
  unfolding wait_for
  wait_for-IsTable p = elim (Bool-cases (bad_target p k)) [
    | inl bad ↦ rw bad (set_registers-IsTable s.table k.current s.table.to _)
    | inr good ↦
        let (lo, hi, ne, used) = bad_target_lem p k s.table good in
        rw good (elim (Bool-cases (is_zombie (k.proc_array p).p_state)) [
          | inl dead ↦
              rw dead (empty-IsTable (set_registers-IsTable s.table k.current s.table.to _) p hi)
          | inr live ↦ rw live (
              set_wait_queue-IsTable
                (set_state-IsTable s.table k.current s.table.to p_blocked
                  (omega (arith, s.table.from)))
                p hi (k.proc_array k.current).p_pid
                (ground (arith, s.table.pids k.current s.table.to, s.table.to)))
        ])
  ]

  sys_wait-IsKernel : (fuel : ℕ) → 16 ≤ fuel → Leaves IsKernel (sys_wait fuel k)
  unfolding sys_wait
  sys_wait-IsKernel fuel h = schedule-IsKernel fuel h (wait_for-IsTable (eax_of k.current k))

if_Leaves :
    (b : Bool) (x y : Outcome)
    → Leaves IsKernel x
    → Leaves IsKernel y
    → Leaves IsKernel (if b then x else y)
if_Leaves true x y p q = p
if_Leaves false x y p q = q

-- A process that forks has its stack pointer in its own stack, so that the copy of its stack stays within the
-- stacks of the processes.
abbrev pub InStack : Registers → ℕ → Type 0
InStack reg i =
    reg.reg_intno ≡ 49 → (stack_top i ≤ reg.reg_esp + proc_stack_size) × (reg.reg_esp ≤ stack_top i)

-- Whatever interrupt comes, from a process of a table in order, with fuel for one turn round the table and, if
-- the process forks, its stack pointer in its own stack: the kernel leaves to a runnable process with the
-- table in order, or it spins.
pub interrupt-IsKernel :
    (fuel : ℕ) (reg : Registers) {k : Kernel}
    → 16 ≤ fuel
    → InStack reg k.current
    → IsKernel k
    → Leaves IsKernel (interrupt fuel reg k)
unfolding interrupt
interrupt-IsKernel fuel reg {k} h in_stack s =
    let saved : IsKernel (set_registers k.current reg k) = record {
      table = set_registers-IsTable s.table k.current s.table.to reg;
      runs = ground (arith, s.runs);
    } in
    let n = reg.reg_intno in
    if_Leaves (n == 48) _ _ (sys_getpid-IsKernel saved) (
      if_Leaves (n == 49) _ _ (sys_fork-IsKernel saved) (
        if_Leaves (n == 54) _ _ (sys_newthread-IsKernel saved) (
          if_Leaves (n == 50) _ _ (schedule-IsKernel fuel h saved.table) (
            if_Leaves (n == 51) _ _ (sys_exit-IsKernel saved fuel h) (
              if_Leaves (n == 53) _ _ (sys_kill-IsKernel saved)
                (if_Leaves (n == 52) _ _ (sys_wait-IsKernel saved fuel h) tt))))))
