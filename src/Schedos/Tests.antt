-- ===== src/Schedos/Tests.antt =====
-- A process table, and the theorems of the SchedOS kernel at it.
use cs111fall.Schedos.Algorithms.{schedule-ByPriority}
use cs111fall.Schedos.Urgent.{ByPriority}
use cs111fall.Prelude.{ℕ, ◌-◌, ◌^◌, ◌<◌, ◌≡◌, refl, arith, ◌&&◌, ◌==◌, if◌then◌else◌, leb, ltb}
use cs111fall.Weensy.Registers.{minus_one}
use cs111fall.Schedos.Process.{Kernel, running, run, nprocs}
use cs111fall.Schedos.Kernel.{schedule}
use cs111fall.Schedos.Invariant.{IsKernel}
use cs111fall.Schedos.Fair.{Fair, Settles}
use cs111fall.Schedos.Algorithms.{schedule-Fair}
use cs111fall.Schedos.Boot.{
  empty_process, init_process, start, booted, Reaches-IsKernel, console_clear,
}

-- The four processes under the algorithm `a`, process 2 current with the share 3, process `i` with
-- the priority `7 - i`.
abbrev four : ℕ → Kernel
four a = record {
  proc_array = λ i.
      if leb 1 i && ltb i nprocs
      then record (init_process (λ j. 0) i) {
        p_priority = 7 - i;
        p_share = if i == 2 then 3 else minus_one;
      }
      else empty_process i;
  current = 2;
  scheduling_algorithm = a;
  cursorpos = 0xB8000;
  console = λ c. 0;
}

four-IsKernel : (a : ℕ) → IsKernel (four a)
four-IsKernel a = record {
  table = record {
    pids = λ i h. ground arith;
    unused = refl;
    from = omega arith;
    to = omega arith;
  };
  runs = refl;
}

four_priority : (a i : ℕ) → ((four a).proc_array i).p_priority < 2 ^ 32
four_priority a i = ground arith

schedule-Fair_example : Settles Fair (schedule 5 (four 4))
schedule-Fair_example =
    schedule-Fair 5 3 (four 4) (omega arith) refl (four-IsKernel 4).table (omega arith) (refl, refl)

-- The kernel that the start leaves to process 1.
abbrev at_start : Kernel
at_start = record {
  proc_array = λ i. if leb 1 i && ltb i nprocs then init_process (λ j. 0) i else empty_process i;
  current = 1;
  scheduling_algorithm = 4;
  cursorpos = 0xB8000;
  console = console_clear (λ c. 0);
}

booted_test : start (λ j. 0) (λ c. 0) ≡ running at_start
unfolding start run
booted_test = refl

Reaches-IsKernel_example : IsKernel at_start
Reaches-IsKernel_example = Reaches-IsKernel (booted booted_test)

schedule-ByPriority_example : ByPriority (four 2) 2 (schedule 1 (four 2))
schedule-ByPriority_example =
    schedule-ByPriority 1 (four 2) (omega arith) refl (four-IsKernel 2).table (four_priority 2)
