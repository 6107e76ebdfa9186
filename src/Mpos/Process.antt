-- ===== src/Mpos/Process.antt =====
-- weensyos1/mpos-kern.h and the state of weensyos1/mpos-kern.c: the process table, the assignments to
-- a descriptor, and `run`.
use cs111fall.Prelude.{ℕ, update}
use cs111fall.Weensy.Registers.{Registers, ProcState}
use cs111fall.Weensy.{Memory}

-- `process_t`; a signed field holds its 32-bit pattern.
pub record Process : Type 0 where
  pub p_pid : ℕ
  pub p_registers : Registers
  pub p_state : ProcState
  pub p_exit_status : ℕ
  pub wait_queue : ℕ

abbrev pub nprocs : ℕ
nprocs = 16

abbrev pub proc1_stack_addr : ℕ
proc1_stack_addr = 0x280000

abbrev pub proc_stack_size : ℕ
proc_stack_size = 0x040000

-- `proc_array`, the index of `*current` in it, and the memory that the stacks stand in.
pub record Kernel : Type 0 where
  pub proc_array : ℕ → Process
  pub current : ℕ
  pub memory : Memory

abbrev pub set_proc : ℕ → Process → Kernel → Kernel
set_proc i p k = record k { proc_array = update k.proc_array i p }

abbrev pub set_state : ℕ → ProcState → Kernel → Kernel
set_state i s k = set_proc i (record (k.proc_array i) { p_state = s }) k

abbrev pub set_exit_status : ℕ → ℕ → Kernel → Kernel
set_exit_status i v k = set_proc i (record (k.proc_array i) { p_exit_status = v }) k

abbrev pub set_wait_queue : ℕ → ℕ → Kernel → Kernel
set_wait_queue i v k = set_proc i (record (k.proc_array i) { wait_queue = v }) k

abbrev pub set_registers : ℕ → Registers → Kernel → Kernel
set_registers i r k = set_proc i (record (k.proc_array i) { p_registers = r }) k

abbrev pub eax_of : ℕ → Kernel → ℕ
eax_of i k = (k.proc_array i).p_registers.reg_eax

abbrev pub set_eax : ℕ → ℕ → Kernel → Kernel
set_eax i v k = set_registers i (record ((k.proc_array i).p_registers) { reg_eax = v }) k

abbrev pub set_esp : ℕ → ℕ → Kernel → Kernel
set_esp i v k = set_registers i (record ((k.proc_array i).p_registers) { reg_esp = v }) k

abbrev pub set_eip : ℕ → ℕ → Kernel → Kernel
set_eip i v k = set_registers i (record ((k.proc_array i).p_registers) { reg_eip = v }) k

-- The kernel leaves to the process `current`, or spins and never leaves.
pub data Outcome : Type 0 where
  running : Kernel → Outcome
  spinning : Outcome

unfoldable pub run : ℕ → Kernel → Outcome
run proc k = running (record k { current = proc })
