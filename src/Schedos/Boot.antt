-- ===== src/Schedos/Boot.antt =====
-- The start of weensyos2/schedos-kern.c, with `special_registers_init` and `console_clear` of
-- weensyos2/schedos-x86.c; and what holds at every exit from the kernel from then on.
use cs111fall.Prelude.{
  ℕ, ◌+◌, ◌≤◌, ◌-◌, ◌*◌, ◌%◌, ◌≡◌, refl, arith, ◌&&◌, ◌==◌, if◌then◌else◌, leb, ltb,
}
use cs111fall.Weensy.Registers.{Registers, p_empty, p_runnable, minus_one, no_registers}
use cs111fall.Schedos.Process.{Process, Kernel, Outcome, running, run, nprocs}
use cs111fall.Schedos.Kernel.{interrupt}
use cs111fall.Schedos.Invariant.{IsKernel, Leaves}
use cs111fall.Schedos.Calls.{interrupt-Leaves}

abbrev pub proc1_start : ℕ
proc1_start = 0x200000

abbrev pub proc_size : ℕ
proc_size = 0x100000

-- `SEGSEL_APP_CODE | 3`, `SEGSEL_APP_DATA | 3` and `EFLAGS_IF`.
abbrev pub special_registers_init : Registers
special_registers_init = record no_registers {
  reg_cs = 0x1b;
  reg_ds = 0x23;
  reg_es = 0x23;
  reg_ss = 0x23;
  reg_eflags = 0x200;
}

-- Spaces in the 80 * 25 cells from 0xB8000 on.
abbrev pub console_clear : (ℕ → ℕ) → ℕ → ℕ
console_clear console a =
    if leb 0xB8000 a && ltb a (0xB8000 + 2 * (80 * 25)) && a % 2 == 0 then 0x0720 else console a

-- `memset` and the loop from 0.
abbrev pub empty_process : ℕ → Process
empty_process i = record {
  p_pid = i;
  p_registers = no_registers;
  p_state = p_empty;
  p_exit_status = 0;
  p_priority = 0;
  p_share = 0;
  p_run_count = 0;
}

-- A round of the loop from 1. `program_loader(i - 1, ...)` stores the entry point of the program.
abbrev pub init_process : (entry_point : ℕ → ℕ) → ℕ → Process
init_process entry_point i = record (empty_process i) {
  p_registers = record special_registers_init {
    reg_esp = proc1_start + i * proc_size;
    reg_eip = entry_point (i - 1);
  };
  p_state = p_runnable;
  p_priority = 0;
  p_share = minus_one;
  p_run_count = 0;
}

unfoldable pub start : (entry_point : ℕ → ℕ) → (ℕ → ℕ) → Outcome
start entry_point console = run 1 (record {
  proc_array = λ i. if leb 1 i && ltb i nprocs then init_process entry_point i else empty_process i;
  current = 0;
  scheduling_algorithm = 4;
  cursorpos = 0xB8000;
  console = console_clear console;
})

-- A character that is printed goes below address 0x100000, where the kernel and its table begin.
abbrev pub InConsole : Registers → Kernel → Type 0
InConsole reg k = reg.reg_intno ≡ 52 → (0xB8000 ≤ k.cursorpos) × (k.cursorpos + 2 ≤ 0x100000)

-- The kernels that are left to a process, from the start on: after the start, and after each
-- interrupt in such a kernel. In between a process may print, which moves the shared cursor, but it
-- does not write the process table.
pub data Reaches (entry_point : ℕ → ℕ) (console : ℕ → ℕ) : Kernel → Type 0 where
  booted : {k : Kernel} → start entry_point console ≡ running k → Reaches entry_point console k
  computed :
      (cursorpos' : ℕ) (console' : ℕ → ℕ) {k : Kernel}
      → Reaches entry_point console k
      → Reaches entry_point console (record k { cursorpos = cursorpos'; console = console' })
  interrupted :
      (fuel : ℕ) (reg : Registers) {k k' : Kernel}
      → InConsole reg k
      → Reaches entry_point console k
      → interrupt fuel reg k ≡ running k'
      → Reaches entry_point console k'

start-IsKernel : (entry_point console : ℕ → ℕ) → Leaves IsKernel (start entry_point console)
unfolding start run
start-IsKernel entry_point console = record {
  table = record {
    pids = λ i h. ground arith;
    unused = refl;
    from = omega arith;
    to = omega arith;
  };
  runs = refl;
}

-- Whatever interrupts come after the start, with whatever registers, as long as the kernel prints no character
-- outside the addresses from 0xB8000 to 0x100000, where the kernel and its table begin, and whatever a
-- process prints there in between: at every exit to a process that process is runnable, each descriptor has
-- its index as process ID, and descriptor 0 stays empty.
pub Reaches-IsKernel :
    {entry_point console : ℕ → ℕ} {k : Kernel} → Reaches entry_point console k → IsKernel k
Reaches-IsKernel {entry_point} {console} (booted e) = rw e at (start-IsKernel entry_point console)
Reaches-IsKernel (computed cursorpos' console' r) =
    let s = Reaches-IsKernel r in
    record {
      table = record {
        pids = s.table.pids;
        unused = s.table.unused;
        from = s.table.from;
        to = s.table.to;
      };
      runs = s.runs;
    }
Reaches-IsKernel (interrupted fuel reg below r e) =
    rw e at (interrupt-Leaves fuel reg (Reaches-IsKernel r))
