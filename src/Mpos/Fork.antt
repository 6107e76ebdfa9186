-- ===== src/Mpos/Fork.antt =====
-- What `do_fork` and `do_newthread` of weensyos1/mpos-kern.c make of the new process.
use native.Mathlib.Decide.{dec_lt}
use cs111fall.Prelude.{
  ℕ, zero, suc, ◌+◌, ◌-◌, ◌%◌, ◌^◌, ◌≤◌, ◌<◌, ◌≡◌, refl, ◌≢◌, ◌⊎◌, inl, inr, true, false, Option,
  none, some, arith, ◌==◌, Bool-cases, eq→==, ne→==, update_self, update_ne,
}
use cs111fall.Weensy.{memcpy}
use cs111fall.Weensy.Copy.{Moved, memcpy-Moved}
use cs111fall.Mpos.Kernel.{
  stack_top, find_empty, copy_stack, fork_into, fork_result, do_fork, thread_into, thread_result,
  do_newthread, start_child,
}
use cs111fall.Mpos.Process.{Process, Kernel, nprocs, proc_stack_size, set_esp}
use cs111fall.Weensy.Registers.{p_runnable, minus_one, is_empty}
use cs111fall.Mpos.Invariant.{IsTable, IsKernel}

-- The stack pointer of process `i` lies in its quarter megabyte.
pub record HasStack (k : Kernel) (i : ℕ) : Type 0 where
  pub above : stack_top i ≤ (k.proc_array i).p_registers.reg_esp + proc_stack_size
  pub below : (k.proc_array i).p_registers.reg_esp ≤ stack_top i

-- Process `i` of `k'` is a copy of `parent` with 0 in %eax, the parent's stack copied to the same
-- place below the top of its own, and nothing else is written.
pub record IsChild (k : Kernel) (parent i : ℕ) (k' : Kernel) : Type 0 where
  pub state : (k'.proc_array i).p_state ≡ p_runnable
  pub registers : (k'.proc_array i).p_registers ≡ record ((k.proc_array parent).p_registers) {
    reg_eax = 0;
    reg_esp = stack_top i - (stack_top parent - (k.proc_array parent).p_registers.reg_esp);
  }
  pub nobody_waits : (k'.proc_array i).wait_queue ≡ 0
  pub others : (j : ℕ) → i ≢ j → k'.proc_array j ≡ k.proc_array j
  pub stack :
      (o : ℕ)
      → o < stack_top parent - (k.proc_array parent).p_registers.reg_esp
      → k'.memory ((k'.proc_array i).p_registers.reg_esp + o)
        ≡ k.memory ((k.proc_array parent).p_registers.reg_esp + o)
  pub memory :
      (a : ℕ)
      → (a < (k'.proc_array i).p_registers.reg_esp) ⊎ (stack_top i ≤ a)
      → k'.memory a ≡ k.memory a

module _ {k : Kernel} (t : IsTable k) (parent i : ℕ) (parent_lo : 1 ≤ parent)
    (parent_hi : parent < nprocs) (lo : 1 ≤ i) (hi : i < nprocs) (ne : i ≢ parent)
    (s : HasStack k parent) where
  abbrev esp : ℕ
  esp = (k.proc_array parent).p_registers.reg_esp

  abbrev used : ℕ
  used = stack_top parent - esp

  child_bottom : (stack_top i + esp + 2 ^ 32 - stack_top parent) % 2 ^ 32 ≡ stack_top i - used
  child_bottom = omega (arith, s.above, s.below)

  stack_size : (stack_top parent + 2 ^ 32 - esp) % 2 ^ 32 ≡ used
  stack_size = omega (arith, s.above, s.below)

  apart : (stack_top i - used ≤ esp) ⊎ (esp + used ≤ stack_top i - used)
  apart = omega (arith, s.above, s.below)

  copied :
      Moved (stack_top i - used) esp used k.memory (memcpy (stack_top i - used) esp used k.memory)
  copied = memcpy-Moved (stack_top i - used) esp used k.memory apart

  abbrev child : Process
  child = record (k.proc_array i) {
    p_registers = record ((k.proc_array parent).p_registers) {
      reg_eax = 0;
      reg_esp = stack_top i - used;
    };
    p_state = p_runnable;
    wait_queue = 0;
  }

  -- The copy of the stack, with the child's descriptor set up.
  copy_stack_lem :
      copy_stack i parent (start_child i parent k)
      ≡ set_esp i (stack_top i - used) (record (start_child i parent k) {
        memory = memcpy (stack_top i - used) esp used k.memory;
      })
  unfolding copy_stack
  copy_stack_lem = rw (
    update_self k.proc_array i,
    update_ne k.proc_array i _ parent ne,
    t.pids i hi,
    t.pids parent parent_hi,
    child_bottom,
    stack_size,
  )

  fork_into-IsChild : IsChild k parent i (fork_into i parent k)
  unfolding fork_into
  fork_into-IsChild =
      let here : (i == i) ≡ true = eq→== i i refl in
      rw copy_stack_lem (record {
        state = rw here;
        registers = rw here;
        nobody_waits = rw here;
        others = λ j h. rw (ne→== i j h);
        stack = λ o h. rw here (ground (arith, copied (stack_top i - used + o), s.above, s.below));
        memory = λ a h.
            let outside : (a < stack_top i - used) ⊎ (stack_top i ≤ a) = rw here at h in
            ground (arith, copied a, s.above, s.below);
      })

-- The first empty descriptor from `lo` to `hi - 1`, or that there is none.
abbrev pub FirstEmpty : Kernel → ℕ → ℕ → Option ℕ → Type 0
FirstEmpty k lo hi none = (j : ℕ) → lo ≤ j → j < hi → is_empty (k.proc_array j).p_state ≡ false
FirstEmpty k lo hi (some i) =
    (lo ≤ i)
    × (i < hi)
    × (is_empty (k.proc_array i).p_state ≡ true)
    × ((j : ℕ) → lo ≤ j → j < i → is_empty (k.proc_array j).p_state ≡ false)

module _ (k : Kernel) where
  after_busy :
      (lo : ℕ) {hi : ℕ}
      → is_empty (k.proc_array lo).p_state ≡ false
      → ((j : ℕ) → lo + 1 ≤ j → j < hi → is_empty (k.proc_array j).p_state ≡ false)
      → (j : ℕ) → lo ≤ j
      → j < hi
      → is_empty (k.proc_array j).p_state ≡ false
  after_busy lo busy rest j a b = elim (dec_lt lo j) [
    | yes above ↦ rest j (omega arith) b
    | no here ↦ let e : j ≡ lo = omega arith in rw e busy
  ]

  FirstEmpty-next :
      (lo hi : ℕ) (o : Option ℕ)
      → is_empty (k.proc_array lo).p_state ≡ false
      → FirstEmpty k (lo + 1) hi o
      → FirstEmpty k lo hi o
  FirstEmpty-next lo hi none busy rest = after_busy lo busy rest
  FirstEmpty-next lo hi (some i) busy (a, b, free, first) =
      (omega arith, b, free, after_busy lo busy first)

  find_empty-FirstEmpty :
      (rounds lo hi : ℕ) → lo + rounds ≡ hi → FirstEmpty k lo hi (find_empty rounds lo k)
  unfolding find_empty
  find_empty-FirstEmpty zero lo hi e = λ j a b. absurd (omega arith)
  find_empty-FirstEmpty (suc n) lo hi e = elim (Bool-cases (is_empty (k.proc_array lo).p_state)) [
    | inl free ↦ rw free (omega arith, omega arith, free, λ j a b. absurd (omega arith))
    | inr busy ↦ rw busy (
        FirstEmpty-next lo hi (find_empty n (lo + 1) k) busy
          (find_empty-FirstEmpty n (lo + 1) hi (omega arith)))
  ]

-- What `do_fork` returns and leaves: -1 and the kernel as it was if no descriptor from 1 on is
-- empty; else the index of the first empty one, which is now the child.
abbrev pub Forks : Kernel → ℕ × Kernel → Type 0
Forks k (pid, k') =
    (FirstEmpty k 1 nprocs none × (pid ≡ minus_one) × (k' ≡ k))
    ⊎ (FirstEmpty k 1 nprocs (some pid) × IsChild k k.current pid k')

fork_result-Forks :
    {k : Kernel} (o : Option ℕ)
    → IsKernel k
    → HasStack k k.current
    → FirstEmpty k 1 nprocs o
    → Forks k (fork_result k.current k o)
unfolding fork_result
fork_result-Forks none s h full = inl (full, refl, refl)
fork_result-Forks {k} (some i) s h found = inr (
  found,
  fork_into-IsChild s.table k.current i s.table.from s.table.to found.0 found.1
      (λ e. ground (arith, found.2, s.runs)) h,
)

-- With the stack pointer of the current process in its own stack, `do_fork` makes the first empty
-- descriptor a copy of it, with 0 in %eax and the used part of the stack copied to the same place
-- below the top of the child's stack, and changes no other process and no other memory; or every
-- descriptor is in use, the result is -1 and nothing changes.
pub do_fork-Forks : {k : Kernel} → IsKernel k → HasStack k k.current → Forks k (do_fork k.current k)
unfolding do_fork
do_fork-Forks {k} s h =
    fork_result-Forks (find_empty 15 1 k) s h (find_empty-FirstEmpty k 15 1 16 (omega arith))

-- What `do_newthread` returns and leaves.
abbrev pub Starts : Kernel → ℕ → ℕ × Kernel → Type 0
Starts k start (pid, k') =
    (FirstEmpty k 1 nprocs none × (pid ≡ minus_one) × (k' ≡ k))
    ⊎ (FirstEmpty k 1 nprocs (some pid)
        × ((k'.proc_array pid).p_state ≡ p_runnable)
        × ((k'.proc_array pid).p_registers ≡ record ((k.proc_array k.current).p_registers) {
          reg_eip = start;
          reg_eax = 0;
          reg_esp = stack_top (pid - 1);
        })
        × ((j : ℕ) → pid ≢ j → k'.proc_array j ≡ k.proc_array j)
        × (k'.memory ≡ k.memory))

thread_result-Starts :
    (k : Kernel) (start : ℕ) (o : Option ℕ)
    → FirstEmpty k 1 nprocs o
    → Starts k start (thread_result k.current start k o)
unfolding thread_result thread_into
thread_result-Starts k start none full = inl (full, refl, refl)
thread_result-Starts k start (some i) found =
    let here : (i == i) ≡ true = eq→== i i refl in
    inr (found, rw here, rw here, λ j h. rw (ne→== i j h), refl)

-- If no descriptor from 1 on is empty, `do_newthread` returns -1 and changes nothing. Else it returns
-- the first empty one, which gets the registers of the current process, but for the start address,
-- 0 in %eax, and in %esp the top of the stack of the descriptor before it; memory and the other
-- processes stay.
pub do_newthread-Starts : (k : Kernel) (start : ℕ) → Starts k start (do_newthread k.current start k)
unfolding do_newthread
do_newthread-Starts k start =
    thread_result-Starts k start (find_empty 15 1 k) (find_empty-FirstEmpty k 15 1 16 (omega arith))
