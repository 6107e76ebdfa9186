-- ===== src/Mpos/Boot.antt =====
-- The start of weensyos1/mpos-kern.c, with `special_registers_init` of weensyos1/mpos-x86.c; and what
-- holds at every exit from the kernel from then on.
use cs111fall.Prelude.{ℕ, ◌+◌, ◌≤◌, ◌≡◌, refl, arith, update}
use cs111fall.Weensy.{Memory}
use cs111fall.Weensy.Registers.{Registers, p_empty, p_runnable, no_registers}
use cs111fall.Mpos.Process.{
  Process, Kernel, Outcome, running, run, proc1_stack_addr, proc_stack_size,
}
use cs111fall.Mpos.Kernel.{interrupt}
use cs111fall.Mpos.Invariant.{IsKernel, Leaves}
use cs111fall.Mpos.Calls.{InStack, interrupt-IsKernel}

-- `SEGSEL_APP_CODE | 3` and `SEGSEL_APP_DATA | 3`.
abbrev pub special_registers_init : Registers
special_registers_init = record no_registers {
  reg_cs = 0x1b;
  reg_ds = 0x23;
  reg_es = 0x23;
  reg_ss = 0x23;
}

-- `memset` and the loop.
abbrev pub empty_process : ℕ → Process
empty_process i = record {
  p_pid = i;
  p_registers = no_registers;
  p_state = p_empty;
  p_exit_status = 0;
  wait_queue = 0;
}

-- The first process. `entry_point` is what `program_loader` stores, `memory` what it has loaded.
abbrev pub main_process : ℕ → Process
main_process entry_point = record (empty_process 1) {
  p_registers = record special_registers_init {
    reg_eip = entry_point;
    reg_esp = proc1_stack_addr + proc_stack_size;
  };
  p_state = p_runnable;
}

unfoldable pub start : (entry_point : ℕ) → Memory → Outcome
start entry_point memory = run 1 (record {
  proc_array = update empty_process 1 (main_process entry_point);
  current = 1;
  memory = memory;
})

-- The kernels that are left to a process, from the start on: after the start, and after each
-- interrupt in such a kernel, where a process that forks has its stack pointer in its stack. In between a process may write its memory, but not the process table.
pub data Reaches (entry_point : ℕ) (memory : Memory) : Kernel → Type 0 where
  booted : {k : Kernel} → start entry_point memory ≡ running k → Reaches entry_point memory k
  computed :
      (memory' : Memory) {k : Kernel}
      → Reaches entry_point memory k
      → Reaches entry_point memory (record k { memory = memory' })
  interrupted :
      (fuel : ℕ) (reg : Registers) {k k' : Kernel}
      → 16 ≤ fuel
      → InStack reg k.current
      → Reaches entry_point memory k
      → interrupt fuel reg k ≡ running k'
      → Reaches entry_point memory k'

start-IsKernel : (entry_point : ℕ) (memory : Memory) → Leaves IsKernel (start entry_point memory)
unfolding start run
start-IsKernel entry_point memory = record {
  table = record {
    pids = λ i h. ground arith;
    queues = λ i h. ground arith;
    unused = refl;
    from = omega arith;
    to = omega arith;
  };
  runs = refl;
}

-- Whatever interrupts come after the start, with whatever registers, but for a stack pointer of a process that
-- forks outside its own stack, and whatever a process writes to memory other than the table in between: at
-- every exit to a process that process is runnable, each descriptor has its index as process ID, a
-- waiter is a descriptor or 0, and descriptor 0 stays empty.
pub Reaches-runs :
    {entry_point : ℕ} {memory : Memory} {k : Kernel} → Reaches entry_point memory k → IsKernel k
Reaches-runs {entry_point} {memory} (booted e) = rw e at (start-IsKernel entry_point memory)
Reaches-runs (computed memory' r) =
    let s = Reaches-runs r in
    record {
      table = record {
        pids = s.table.pids;
        queues = s.table.queues;
        unused = s.table.unused;
        from = s.table.from;
        to = s.table.to;
      };
      runs = s.runs;
    }
Reaches-runs (interrupted fuel reg h in_stack r e) =
    rw e at (interrupt-IsKernel fuel reg h in_stack (Reaches-runs r))
