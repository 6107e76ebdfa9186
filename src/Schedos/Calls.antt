-- ===== src/Schedos/Calls.antt =====
-- The scheduler and each call of weensyos2/schedos-kern.c keep the invariant of the process table.
use cs111fall.Prelude.{ℕ, ◌<◌, ◌≡◌, refl, inl, arith, ◌==◌}
use cs111fall.Weensy.Registers.{Registers}
use cs111fall.Schedos.Process.{Process, Kernel, run, nprocs, set_proc, set_registers}
use cs111fall.Schedos.Kernel.{schedule, exit_process, print_char, interrupt}
use cs111fall.Schedos.Invariant.{
  IsTable, IsKernel, Leaves, if_Leaves, set_proc-IsTable, keep-IsTable, run-IsKernel,
  round_robin-IsKernel, by_number-IsKernel, by_priority-IsKernel, by_share-IsKernel,
  multi_level-IsKernel,
}

schedule-IsKernel : (fuel : ℕ) (k : Kernel) → IsTable k → Leaves IsKernel (schedule fuel k)
unfolding schedule
schedule-IsKernel fuel k t =
    let pid = (k.proc_array k.current).p_pid in
    let lt : pid < nprocs = ground (arith, t.pids k.current t.to, t.to) in
    let a = k.scheduling_algorithm in
    if_Leaves (a == 0) _ _ (λ c. round_robin-IsKernel fuel pid k t)
      (λ c.
        if_Leaves (a == 1) _ _ (λ c. by_number-IsKernel fuel 0 k t (inl refl))
          (λ c.
            if_Leaves (a == 2) _ _ (λ c. by_priority-IsKernel fuel pid 0 0xFFFFFFFF k t (inl refl))
              (λ c.
                if_Leaves (a == 3) _ _ (λ c. by_share-IsKernel fuel pid k lt t)
                  (λ c.
                    if_Leaves (a == 4) _ _ (λ c. multi_level-IsKernel fuel pid 0xFFFFFFFF k lt t)
                      (λ c. tt)))))

module _ (k : Kernel) (s : IsKernel k) where
  -- The current process goes on after an assignment that leaves its state alone.
  resume-IsKernel :
      (p : Process)
      → p.p_pid ≡ (k.proc_array k.current).p_pid
      → p.p_state ≡ (k.proc_array k.current).p_state
      → Leaves IsKernel (run k.current (set_proc k.current p k))
  resume-IsKernel p same state =
      run-IsKernel (set_proc k.current p k) (keep-IsTable k.current p s.table same state) k.current
        s.table.to (ground (arith, state, s.runs))

  print-IsKernel : (reg : Registers) → Leaves IsKernel (run k.current (print_char reg k))
  unfolding run
  print-IsKernel reg = record {
    table = record {
      pids = s.table.pids;
      unused = s.table.unused;
      from = s.table.from;
      to = s.table.to;
    };
    runs = s.runs;
  }

  exit_process-IsTable : (reg : Registers) → IsTable (exit_process reg k)
  exit_process-IsTable reg =
      set_proc-IsTable k.current _ s.table refl (λ z. absurd (omega (arith, s.table.from)))

-- Whatever interrupt comes, with whatever registers and under whatever algorithm, from a process of a
-- table in order: the kernel leaves to a runnable process with the table in order, or it spins.
pub interrupt-Leaves :
    (fuel : ℕ) (reg : Registers) {k : Kernel} → IsKernel k → Leaves IsKernel (interrupt fuel reg k)
unfolding interrupt
interrupt-Leaves fuel reg {k} s =
    let k0 = set_registers k.current reg k in
    let saved : IsKernel k0 = record {
      table = keep-IsTable k.current _ s.table refl refl;
      runs = ground (arith, s.runs);
    } in
    let again = schedule-IsKernel fuel k0 saved.table in
    let n = reg.reg_intno in
    if_Leaves (n == 48) _ _ (λ c. again)
      (λ c.
        if_Leaves (n == 49) _ _
          (λ c. schedule-IsKernel fuel (exit_process reg k0) (exit_process-IsTable k0 saved reg))
          (λ c.
            if_Leaves (n == 50) _ _ (λ c. resume-IsKernel k0 saved _ refl refl)
              (λ c.
                if_Leaves (n == 51) _ _ (λ c. resume-IsKernel k0 saved _ refl refl)
                  (λ c.
                    if_Leaves (n == 52) _ _ (λ c. print-IsKernel k0 saved reg)
                      (λ c. if_Leaves (n == 32) _ _ (λ c. again) (λ c. tt))))))
