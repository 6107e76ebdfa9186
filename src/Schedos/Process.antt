-- ===== src/Schedos/Process.antt =====
-- weensyos2/schedos-kern.h and the state of weensyos2/schedos-kern.c: the process table, the choice of
-- the algorithm, the cursor, and `run`.
use cs111fall.Prelude.{ℕ, update}
use cs111fall.Weensy.Registers.{Registers, ProcState}

-- `process_t`; a signed field holds its 32-bit pattern.
pub record Process : Type 0 where
  pub p_pid : ℕ
  pub p_registers : Registers
  pub p_state : ProcState
  pub p_exit_status : ℕ
  pub p_priority : ℕ
  pub p_share : ℕ
  pub p_run_count : ℕ

abbrev pub nprocs : ℕ
nprocs = 5

-- `console` holds the 16-bit cells that `cursorpos` points to, by address.
pub record Kernel : Type 0 where
  pub proc_array : ℕ → Process
  pub current : ℕ
  pub scheduling_algorithm : ℕ
  pub cursorpos : ℕ
  pub console : ℕ → ℕ

abbrev pub set_proc : ℕ → Process → Kernel → Kernel
set_proc i p k = record k { proc_array = update k.proc_array i p }

abbrev pub set_registers : ℕ → Registers → Kernel → Kernel
set_registers i r k = set_proc i (record (k.proc_array i) { p_registers = r }) k

abbrev pub set_priority : ℕ → ℕ → Kernel → Kernel
set_priority i v k = set_proc i (record (k.proc_array i) { p_priority = v }) k

abbrev pub set_share : ℕ → ℕ → Kernel → Kernel
set_share i v k = set_proc i (record (k.proc_array i) { p_share = v }) k

abbrev pub set_run_count : ℕ → ℕ → Kernel → Kernel
set_run_count i v k = set_proc i (record (k.proc_array i) { p_run_count = v }) k

-- The kernel leaves to the process `current`, or spins and never leaves.
pub data Outcome : Type 0 where
  running : Kernel → Outcome
  spinning : Outcome

unfoldable pub run : ℕ → Kernel → Outcome
run proc k = running (record k { current = proc })
