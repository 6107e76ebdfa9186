-- ===== src/Mpos/Tests.antt =====
-- Two process tables, and the theorems of the MiniprocOS kernel at them.
use cs111fall.Mpos.Frame.{SameOutside, interrupt-SameOutside}
use cs111fall.Prelude.{update, ℕ, ◌-◌, ◌≤◌, ◌<◌, ◌≡◌, refl, ◌⊎◌, false, arith, if◌then◌else◌, leb}
use cs111fall.Mpos.Kernel.{
  stack_top, schedule, interrupt, do_fork, do_newthread, wait_for, exit_process, bad_target,
}
use cs111fall.Mpos.Process.{Kernel, nprocs, eax_of, spinning}
use cs111fall.Weensy.Registers.{Registers, p_empty, p_runnable, p_blocked, p_zombie, is_runnable}
use cs111fall.Mpos.Schedule.{Picks, schedule-round_robin}
use cs111fall.Mpos.Invariant.{IsKernel, Leaves}
use cs111fall.Mpos.Fork.{HasStack, Forks, do_fork-Forks, Starts, do_newthread-Starts}
use cs111fall.Mpos.Boot.{empty_process, main_process, start, booted, Reaches-runs}
use cs111fall.Mpos.Process.{run, running}
use cs111fall.Mpos.Wait.{enters, wait_for-exit}

-- The registers of a process that enters with interrupt `n`, `eax` in %eax and 16 bytes of stack.
abbrev entry : ℕ → ℕ → ℕ → Registers
entry i n eax = record {
  reg_edi = 0;
  reg_esi = 0;
  reg_ebp = 0;
  reg_original_esp = 0;
  reg_ebx = 0;
  reg_edx = 0;
  reg_ecx = 0;
  reg_eax = eax;
  reg_es = 0;
  reg_padding1 = 0;
  reg_ds = 0;
  reg_padding2 = 0;
  reg_intno = n;
  reg_err = 0;
  reg_eip = 0x200000;
  reg_cs = 0;
  reg_padding3 = 0;
  reg_eflags = 0;
  reg_esp = stack_top i - 16;
  reg_ss = 0;
  reg_padding4 = 0;
}

-- Processes 1 to `n` are runnable, process 1 is current.
abbrev first_run : ℕ → Kernel
first_run n = record {
  proc_array = λ i. record {
    p_pid = i;
    p_registers = entry i 48 7;
    p_state = if leb 1 i then if leb i n then p_runnable else p_empty else p_empty;
    p_exit_status = 0;
    wait_queue = 0;
  };
  current = 1;
  memory = λ a. a;
}

first_run-IsKernel : (n : ℕ) → 1 ≤ n → IsKernel (first_run n)
first_run-IsKernel n h = record {
  table = record {
    pids = λ i lt. refl;
    queues = λ i lt. omega arith;
    unused = refl;
    from = omega arith;
    to = omega arith;
  };
  runs = ground arith;
}

first_run-HasStack : HasStack (first_run 1) 1
first_run-HasStack = record { above = omega arith; below = omega arith }

schedule-round_robin_example :
    Picks (first_run 2) 1 16 (schedule 16 (first_run 2))
    ⊎ (((j : ℕ) → j < nprocs → is_runnable ((first_run 2).proc_array j).p_state ≡ false)
        × (schedule 16 (first_run 2) ≡ spinning))
schedule-round_robin_example = schedule-round_robin 16 (first_run 2) (omega arith)

do_fork-Forks_example : Forks (first_run 1) (do_fork 1 (first_run 1))
do_fork-Forks_example = do_fork-Forks (first_run-IsKernel 1 (omega arith)) first_run-HasStack

do_newthread-Starts_example : Starts (first_run 1) 0x200040 (do_newthread 1 0x200040 (first_run 1))
do_newthread-Starts_example = do_newthread-Starts (first_run 1) 0x200040

-- Process 1 waits for process 2, which exits with status 9.
wait_for-exit_example :
    (((wait_for 2 (first_run 2)).proc_array 1).p_state ≡ p_blocked)
    × (((exit_process (enters 2 (entry 2 51 9) (wait_for 2 (first_run 2)))).proc_array 1).p_state
        ≡ p_runnable)
    × (eax_of 1 (exit_process (enters 2 (entry 2 51 9) (wait_for 2 (first_run 2)))) ≡ 9)
    × (((exit_process (enters 2 (entry 2 51 9) (wait_for 2 (first_run 2)))).proc_array 2).p_state
        ≡ p_zombie)
unfolding bad_target
wait_for-exit_example =
    wait_for-exit (first_run-IsKernel 2 (omega arith)) 2 refl (entry 2 51 9) refl

-- The kernel that the start leaves to process 1.
abbrev at_start : Kernel
at_start = record {
  proc_array = update empty_process 1 (main_process 0x200000);
  current = 1;
  memory = λ a. 0;
}

booted_test : start 0x200000 (λ a. 0) ≡ running at_start
unfolding start run
booted_test = refl

Reaches-runs_example : IsKernel at_start
Reaches-runs_example = Reaches-runs (booted booted_test)

interrupt-SameOutside_example :
    Leaves
      (λ k. IsKernel k × SameOutside (first_run 2) k)
      (interrupt 16 (entry 1 52 2) (first_run 2))
interrupt-SameOutside_example =
    interrupt-SameOutside 16 (entry 1 52 2) (omega arith) (λ e. absurd (omega arith))
      (first_run-IsKernel 2 (omega arith))
