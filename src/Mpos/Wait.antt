-- ===== src/Mpos/Wait.antt =====
-- `sys_wait` and `sys_exit` of weensyos1/mpos-kern.c together: who gets an exit status.
use cs111fall.Prelude.{ℕ, ◌≡◌, refl, sym, ◌∙◌, ◌≢◌, true, false, arith, eq→==, ne→==}
use cs111fall.Mpos.Kernel.{bad_target, wake, exit_process, wait_for}
use cs111fall.Mpos.Process.{Kernel, set_registers, set_wait_queue, set_state, eax_of}
use cs111fall.Weensy.Registers.{Registers, p_empty, p_runnable, p_blocked, p_zombie, is_zombie}
use cs111fall.Mpos.Invariant.{IsKernel}
use cs111fall.Mpos.Calls.{bad_target_lem}

-- The process `p` runs in the kernel `k` and enters it with the registers `reg`.
abbrev pub enters : ℕ → Registers → Kernel → Kernel
enters p reg k = let k' = record k { current = p } in set_registers p reg k'

-- An exit hands the status to the waiter, if it is another process.
exit_process-wakes :
    (k : Kernel) (w : ℕ)
    → (k.proc_array k.current).wait_queue ≡ w
    → w ≢ 0
    → k.current ≢ w
    → (((exit_process k).proc_array w).p_state ≡ p_runnable)
      × (eax_of w (exit_process k) ≡ eax_of k.current k)
      × (((exit_process k).proc_array k.current).p_state ≡ p_zombie)
      × ((j : ℕ) → j ≢ k.current → j ≢ w → (exit_process k).proc_array j ≡ k.proc_array j)
unfolding exit_process wake
exit_process-wakes k w e nz ne =
    rw (eq→== k.current k.current refl, e, ne→== w 0 nz, eq→== w w refl, ne→== k.current w ne)
      (
        refl,
        rw (eq→== w w refl, eax_of),
        rw (ne→== w k.current (λ q. ne (sym q)), eq→== k.current k.current refl),
        λ j a b. rw (ne→== w j (λ q. b (sym q)), ne→== k.current j (λ q. a (sym q))),
      )

module _ {k : Kernel} (s : IsKernel k) (p : ℕ) (good : bad_target p k ≡ false) where
  -- Waiting for a process that has exited returns its exit status and empties its descriptor.
  pub wait_for-zombie :
      is_zombie (k.proc_array p).p_state ≡ true
      → (eax_of k.current (wait_for p k) ≡ (k.proc_array p).p_exit_status)
        × (((wait_for p k).proc_array p).p_state ≡ p_empty)
        × ((j : ℕ) → j ≢ p → j ≢ k.current → (wait_for p k).proc_array j ≡ k.proc_array j)
  unfolding wait_for
  wait_for-zombie dead =
      let (lo, hi, ne, used) = bad_target_lem p k s.table good in
      rw (good, dead) (ground (arith, ne), ground arith, λ j a b. ground arith)

  -- A live target gets the current process as its waiter, which is blocked.
  wait_for-live :
      is_zombie (k.proc_array p).p_state ≡ false
      → wait_for p k
        ≡ set_wait_queue p (k.proc_array k.current).p_pid (set_state k.current p_blocked k)
  unfolding wait_for
  wait_for-live live = rw (good, live)

  -- If the current process waits for a live process `p`, it is blocked; and if `p` is the next to
  -- enter the kernel and exits, the waiter is runnable again with the exit status in %eax, while `p`
  -- stays a zombie.
  pub wait_for-exit :
      (reg : Registers)
      → is_zombie (k.proc_array p).p_state ≡ false
      → (((wait_for p k).proc_array k.current).p_state ≡ p_blocked)
        × (((exit_process (enters p reg (wait_for p k))).proc_array k.current).p_state ≡ p_runnable)
        × (eax_of k.current (exit_process (enters p reg (wait_for p k))) ≡ reg.reg_eax)
        × (((exit_process (enters p reg (wait_for p k))).proc_array p).p_state ≡ p_zombie)
  wait_for-exit reg live =
      let (lo, hi, ne, used) = bad_target_lem p k s.table good in
      let c = k.current in
      let queue : ((enters p reg (wait_for p k)).proc_array p).wait_queue ≡ c =
        rw (wait_for-live live, eq→== p p refl) (s.table.pids c s.table.to) in
      let (a, b, z, others) =
        exit_process-wakes (enters p reg (wait_for p k)) c queue (omega (arith, s.table.from)) ne in
      (rw (wait_for-live live, ne→== p c ne, eq→== c c refl), a, b ∙ rw (eq→== p p refl, eax_of), z)
