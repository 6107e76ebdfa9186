-- ===== src/Mpos/Kernel.antt =====
-- weensyos1/mpos-kern.c: the scheduler, the system calls and the interrupt handler of MiniprocOS.
use cs111fall.Prelude.{
  ℕ, zero, suc, ◌+◌, ◌-◌, ◌*◌, ◌%◌, ◌^◌, Bool, ◌&&◌, ◌||◌, Option, none, some, ltb, leb, ◌==◌,
  if◌then◌else◌,
}
use cs111fall.Weensy.Registers.{
  minus_one, is_runnable, is_empty, is_zombie, Registers, p_empty, p_runnable, p_blocked, p_zombie,
}
use cs111fall.Mpos.Process.{
  nprocs, proc1_stack_addr, proc_stack_size, set_proc, set_state, set_exit_status, set_wait_queue,
  set_registers, eax_of, set_eax, set_esp, run, Kernel, Outcome, spinning,
}
use cs111fall.Weensy.{memcpy}

-- `while (1)` over the table from the process after `pid`. The table does not change, so `spinning`
-- after a whole turn is final.
unfoldable pub schedule_from : ℕ → ℕ → Kernel → Outcome
schedule_from zero pid k = spinning
schedule_from (suc fuel) pid k =
    let next = (pid + 1) % nprocs in
    let rest = schedule_from fuel next k in
    if is_runnable (k.proc_array next).p_state then run next k else rest

unfoldable pub schedule : ℕ → Kernel → Outcome
schedule fuel k = schedule_from fuel (k.proc_array k.current).p_pid k

-- The loop that `do_fork` and `do_newthread` share: the first empty descriptor from `i` on.
unfoldable pub find_empty : ℕ → ℕ → Kernel → Option ℕ
find_empty zero i k = none
find_empty (suc rounds) i k =
    let rest = find_empty rounds (i + 1) k in
    if is_empty (k.proc_array i).p_state then some i else rest

-- The top of the stack of the process in descriptor `pid`.
abbrev pub stack_top : ℕ → ℕ
stack_top pid = (proc1_stack_addr + pid * proc_stack_size) % 2 ^ 32

unfoldable pub copy_stack : ℕ → ℕ → Kernel → Kernel
copy_stack dest src k =
    let src_stack_top = stack_top (k.proc_array src).p_pid in
    let src_stack_bottom = (k.proc_array src).p_registers.reg_esp in
    let dest_stack_top = stack_top (k.proc_array dest).p_pid in
    let dest_stack_bottom = (dest_stack_top + src_stack_bottom + 2 ^ 32 - src_stack_top) % 2 ^ 32 in
    let size = (src_stack_top + 2 ^ 32 - src_stack_bottom) % 2 ^ 32 in
    set_esp dest dest_stack_bottom
      (record k { memory = memcpy dest_stack_bottom src_stack_bottom size k.memory })

-- The assignments to the child's descriptor before and after the copy of the stack.
abbrev pub start_child : ℕ → ℕ → Kernel → Kernel
start_child i parent k =
    set_proc i
      (record (k.proc_array i) {
        p_state = p_runnable;
        p_registers = (k.proc_array parent).p_registers;
      })
      k

abbrev pub finish_child : ℕ → Kernel → Kernel
finish_child i k =
    set_proc i
      (record (k.proc_array i) {
        p_registers = record ((k.proc_array i).p_registers) { reg_eax = 0 };
        wait_queue = 0;
      })
      k

unfoldable pub fork_into : ℕ → ℕ → Kernel → Kernel
fork_into i parent k = finish_child i (copy_stack i parent (start_child i parent k))

unfoldable pub fork_result : ℕ → Kernel → Option ℕ → ℕ × Kernel
fork_result parent k none = (minus_one, k)
fork_result parent k (some i) = (i, fork_into i parent k)

unfoldable pub do_fork : ℕ → Kernel → ℕ × Kernel
do_fork parent k = fork_result parent k (find_empty 15 1 k)

unfoldable pub thread_into : ℕ → ℕ → ℕ → Kernel → Kernel
thread_into i parent start_func_addr k =
    set_proc i
      (record (k.proc_array i) {
        p_state = p_runnable;
        p_registers = record ((k.proc_array parent).p_registers) {
          reg_eip = start_func_addr;
          reg_eax = 0;
          reg_esp = stack_top (i - 1);
        };
        wait_queue = 0;
      })
      k

unfoldable pub thread_result : ℕ → ℕ → Kernel → Option ℕ → ℕ × Kernel
thread_result parent start_func_addr k none = (minus_one, k)
thread_result parent start_func_addr k (some i) = (i, thread_into i parent start_func_addr k)

unfoldable pub do_newthread : ℕ → ℕ → Kernel → ℕ × Kernel
do_newthread parent start_func_addr k = thread_result parent start_func_addr k (find_empty 15 1 k)

-- `p <= 0 || p >= NPROCS || p == current->p_pid || proc_array[p].p_state == P_EMPTY`, for the signed
-- number with the bit pattern `p`.
unfoldable pub bad_target : ℕ → Kernel → Bool
bad_target p k =
    (p == 0 || leb (2 ^ 31) p)
    || (leb nprocs p && ltb p (2 ^ 31))
    || p == (k.proc_array k.current).p_pid
    || is_empty (k.proc_array p).p_state

-- The waiter `w` runs again, with `v` in %eax.
abbrev pub resume : ℕ → ℕ → Kernel → Kernel
resume w v k =
    set_proc w
      (record (k.proc_array w) {
        p_state = p_runnable;
        p_registers = record ((k.proc_array w).p_registers) { reg_eax = v };
      })
      k

-- `if (p->wait_queue != 0) { ... }` of the exit: the waiter runs again, with `v` in %eax.
unfoldable pub wake : ℕ → ℕ → Kernel → Kernel
wake p v k = let w = (k.proc_array p).wait_queue in if w == 0 then k else resume w v k

-- The same in the kill, which also empties the descriptor.
unfoldable pub wake_and_empty : ℕ → Kernel → Kernel
wake_and_empty p k =
    let w = (k.proc_array p).wait_queue in if w == 0 then k else set_state p p_empty (resume w 0 k)

unfoldable pub sys_getpid : Kernel → Outcome
sys_getpid k = run k.current (set_eax k.current (k.proc_array k.current).p_pid k)

unfoldable pub sys_fork : Kernel → Outcome
sys_fork k = let (child, k') = do_fork k.current k in run k'.current (set_eax k'.current child k')

unfoldable pub sys_newthread : Kernel → Outcome
sys_newthread k =
    let (child, k') = do_newthread k.current (eax_of k.current k) k in
    run k'.current (set_eax k'.current child k')

-- The exit of the current process, up to the call of `schedule`.
unfoldable pub exit_process : Kernel → Kernel
exit_process k =
    let p = k.proc_array k.current in
    let k1 =
      set_proc k.current (record p { p_state = p_zombie; p_exit_status = p.p_registers.reg_eax })
        k in
    wake k.current (k1.proc_array k.current).p_exit_status k1

unfoldable pub sys_exit : ℕ → Kernel → Outcome
sys_exit fuel k = schedule fuel (exit_process k)

unfoldable pub kill_target : ℕ → Kernel → Kernel
kill_target p k =
    if bad_target p k
    then set_eax k.current minus_one k
    else if is_zombie (k.proc_array p).p_state
    then wake_and_empty p (set_exit_status p 0 (set_eax k.current 0 k))
    else wake_and_empty p
        (set_eax k.current 0 (set_exit_status p minus_one (set_state p p_empty k)))

unfoldable pub sys_kill : Kernel → Outcome
sys_kill k = run k.current (kill_target (eax_of k.current k) k)

unfoldable pub wait_for : ℕ → Kernel → Kernel
wait_for p k =
    if bad_target p k
    then set_eax k.current minus_one k
    else if is_zombie (k.proc_array p).p_state
    then set_state p p_empty (set_eax k.current (k.proc_array p).p_exit_status k)
    else set_wait_queue p (k.proc_array k.current).p_pid (set_state k.current p_blocked k)

unfoldable pub sys_wait : ℕ → Kernel → Outcome
sys_wait fuel k = schedule fuel (wait_for (eax_of k.current k) k)

-- The registers are saved first; `reg_intno` names the call.
unfoldable pub interrupt : ℕ → Registers → Kernel → Outcome
interrupt fuel reg k =
    let k0 = set_registers k.current reg k in
    if reg.reg_intno == 48
    then sys_getpid k0
    else if reg.reg_intno == 49
    then sys_fork k0
    else if reg.reg_intno == 54
    then sys_newthread k0
    else if reg.reg_intno == 50
    then schedule fuel k0
    else if reg.reg_intno == 51
    then sys_exit fuel k0
    else if reg.reg_intno == 53
    then sys_kill k0
    else if reg.reg_intno == 52
    then sys_wait fuel k0
    else spinning
