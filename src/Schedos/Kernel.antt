-- ===== src/Schedos/Kernel.antt =====
-- weensyos2/schedos-kern.c: the five scheduling algorithms and the interrupt handler of SchedOS.
use cs111fall.Prelude.{ℕ, zero, suc, ◌+◌, ◌%◌, ◌^◌, ◌&&◌, leb, ◌==◌, if◌then◌else◌, update}
use cs111fall.Weensy.Registers.{Registers, p_zombie, minus_one, is_runnable}
use cs111fall.Schedos.Process.{
  nprocs, Kernel, set_proc, set_registers, set_priority, set_share, set_run_count, Outcome,
  spinning, run,
}

-- Each `while (1)` runs on fuel; `spinning` is what is left when it is used up.

-- Algorithm 0.
unfoldable pub round_robin : ℕ → ℕ → Kernel → Outcome
round_robin zero pid k = spinning
round_robin (suc fuel) pid k =
    let next = (pid + 1) % nprocs in
    let rest = round_robin fuel next k in
    if is_runnable (k.proc_array next).p_state then run next k else rest

-- Algorithm 1: the `for` loop, and the loop around it.
unfoldable pub first_runnable : (rounds i : ℕ) → ℕ → Kernel → ℕ
first_runnable zero i highest_priority_pid k = highest_priority_pid
first_runnable (suc rounds) i highest_priority_pid k =
    let rest = first_runnable rounds (i + 1) highest_priority_pid k in
    if is_runnable (k.proc_array i).p_state then i else rest

unfoldable pub by_number : ℕ → ℕ → Kernel → Outcome
by_number zero highest_priority_pid k = spinning
by_number (suc fuel) highest_priority_pid k =
    let highest = first_runnable 4 1 highest_priority_pid k in
    let rest = by_number fuel highest k in if highest == 0 then rest else run highest k

-- Algorithm 2: `highest_priority_pid` and `priority` after the `for` loop, and the loop around it.
unfoldable pub most_urgent : (rounds i : ℕ) → ℕ → ℕ → ℕ → Kernel → ℕ × ℕ
most_urgent zero i currentpid highest_priority_pid priority k = (highest_priority_pid, priority)
most_urgent (suc rounds) i currentpid highest_priority_pid priority k =
    let pid = (currentpid + i) % nprocs in
    let p = k.proc_array pid in
    let better = is_runnable p.p_state && leb p.p_priority priority in
    most_urgent rounds (i + 1) currentpid (if better then pid else highest_priority_pid)
      (if better then p.p_priority else priority) k

unfoldable pub by_priority : ℕ → ℕ → ℕ → ℕ → Kernel → Outcome
by_priority zero currentpid highest_priority_pid priority k = spinning
by_priority (suc fuel) currentpid highest_priority_pid priority k =
    let best = most_urgent 5 0 currentpid highest_priority_pid priority k in
    let rest = by_priority fuel currentpid best.0 best.1 k in
    if best.0 == 0 then rest else run best.0 k

-- `proc_array[pid].p_run_count++; run(&proc_array[pid]);`
unfoldable pub run_counted : ℕ → Kernel → Outcome
run_counted pid k = run pid (set_run_count pid (((k.proc_array pid).p_run_count + 1) % 2 ^ 32) k)

-- Algorithm 3.
unfoldable pub by_share : ℕ → ℕ → Kernel → Outcome
by_share zero pid k = spinning
by_share (suc fuel) pid k =
    let p = k.proc_array pid in
    let k' = if is_runnable p.p_state then set_run_count pid 0 k else k in
    let rest = by_share fuel ((pid + 1) % nprocs) k' in
    if is_runnable p.p_state
    then (if p.p_share == minus_one
        then run pid k
        else if p.p_run_count == p.p_share
        then rest
        else run_counted pid k)
    else rest

-- Algorithm 4: the least priority of a runnable process, and the loop.
unfoldable pub least_priority : (rounds i : ℕ) → ℕ → Kernel → ℕ
least_priority zero i priority k = priority
least_priority (suc rounds) i priority k =
    let p = k.proc_array i in
    least_priority rounds (i + 1)
      (if is_runnable p.p_state && leb p.p_priority priority then p.p_priority else priority) k

unfoldable pub multi_level : ℕ → ℕ → ℕ → Kernel → Outcome
multi_level zero pid priority k = spinning
multi_level (suc fuel) pid priority k =
    let p = k.proc_array pid in
    let least = least_priority 4 1 priority k in
    let chosen = is_runnable p.p_state && leb p.p_priority least in
    let k' = if chosen then set_run_count pid 0 k else k in
    let rest = multi_level fuel ((pid + 1) % nprocs) least k' in
    if is_runnable p.p_state && p.p_share == minus_one
    then run pid k
    else if chosen
    then (if p.p_run_count == p.p_share then rest else run_counted pid k)
    else rest

-- An unknown algorithm prints a message and spins.
unfoldable pub schedule : ℕ → Kernel → Outcome
schedule fuel k =
    let pid = (k.proc_array k.current).p_pid in
    let algorithm = k.scheduling_algorithm in
    if algorithm == 0
    then round_robin fuel pid k
    else if algorithm == 1
    then by_number fuel 0 k
    else if algorithm == 2
    then by_priority fuel pid 0 0xFFFFFFFF k
    else if algorithm == 3
    then by_share fuel pid k
    else if algorithm == 4
    then multi_level fuel pid 0xFFFFFFFF k
    else spinning

-- The current process exits.
abbrev pub exit_process : Registers → Kernel → Kernel
exit_process reg k =
    set_proc k.current
      (record (k.proc_array k.current) { p_state = p_zombie; p_exit_status = reg.reg_eax }) k

-- `*cursorpos++ = reg->reg_eax;`
abbrev pub print_char : Registers → Kernel → Kernel
print_char reg k = record k {
  console = update k.console k.cursorpos (reg.reg_eax % 2 ^ 16);
  cursorpos = (k.cursorpos + 2) % 2 ^ 32;
}

-- The registers are saved first; `reg_intno` names the call.
unfoldable pub interrupt : ℕ → Registers → Kernel → Outcome
interrupt fuel reg k =
    let k0 = set_registers k.current reg k in
    if reg.reg_intno == 48
    then schedule fuel k0
    else if reg.reg_intno == 49
    then schedule fuel (exit_process reg k0)
    else if reg.reg_intno == 50
    then run k0.current (set_priority k0.current reg.reg_eax k0)
    else if reg.reg_intno == 51
    then run k0.current (set_share k0.current reg.reg_eax k0)
    else if reg.reg_intno == 52
    then run k0.current (print_char reg k0)
    else if reg.reg_intno == 32
    then schedule fuel k0
    else spinning
