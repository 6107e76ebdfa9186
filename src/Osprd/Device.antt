-- ===== src/Osprd/Device.antt =====
-- lab2/osprd.c: the state of a RAM disk's lock and the ioctl handler, as the steps between which other
-- processes run.
use cs111fall.Prelude.{
  ℕ, zero, suc, ◌+◌, ◌-◌, ◌%◌, ◌^◌, Bool, true, false, ◌&&◌, ◌||◌, Option, none, some, List, [],
  ◌∷◌, ltb, ◌==◌, if◌then◌else◌, update,
}
use mathlib.Core.Bool.{not}
use Prim.Native.Nat.{bit_or, bit_and}

-- The fields of `osprd_info_t` that the lock uses; `mutex` is whether the spin lock is held. The list of
-- readers is the list of its process IDs, from the head.
pub record Device : Type 0 where
  pub mutex : Bool
  pub ticket_head : ℕ
  pub ticket_tail : ℕ
  pub write_locking_pids : ℕ
  pub num_write : ℕ
  pub read_locking_pids : List ℕ
  pub num_read : ℕ
  pub invalid_ticket_list : ℕ → ℕ
  pub num_invalid : ℕ

-- What the handler uses of `struct file`.
pub record File : Type 0 where
  pub f_flags : ℕ
  pub filp_writable : Bool

abbrev pub f_osprd_locked : ℕ
f_osprd_locked = 0x80000

-- 0 and the negative results.
pub data Code : Type 0 where
  granted : Code
  edeadlk : Code
  ebusy : Code
  einval : Code
  erestartsys : Code

-- A step returns from the handler, goes on to the next step with the process's ticket, or spins on a
-- mutex that nobody gives back.
pub data Step : Type 0 where
  returned : Code → File → Device → Step
  goes_on : ℕ → File → Device → Step
  stuck : Step

abbrev pub add32 : ℕ → ℕ → ℕ
add32 a b = (a + b) % 2 ^ 32

-- The bit pattern of -1.
abbrev pub no_pid : ℕ
no_pid = 2 ^ 32 - 1

abbrev pub lock : Device → Device
lock d = record d { mutex = true }

unfoldable pub osprd_setup : (invalid : ℕ → ℕ) → Device
osprd_setup invalid = record {
  mutex = false;
  ticket_head = 0;
  ticket_tail = 0;
  write_locking_pids = no_pid;
  num_write = 0;
  read_locking_pids = [];
  num_read = 0;
  invalid_ticket_list = invalid;
  num_invalid = 0;
}

unfoldable pub holds : ℕ → List ℕ → Bool
holds pid [] = false
holds pid (p ∷ rest) = p == pid || holds pid rest

-- The loop over the invalid tickets, which starts again after a hit; `none` is that the fuel ran out.
unfoldable pub skip_invalid : ℕ → (i tail : ℕ) → Device → Option ℕ
skip_invalid zero i tail d = none
skip_invalid (suc fuel) i tail d =
    let hit = tail == d.invalid_ticket_list i in
    let rest =
      skip_invalid fuel (if hit then 0 else i + 1) (if hit then add32 tail 1 else tail) d in
    if ltb i d.num_invalid then rest else some tail

-- `temp` and `next` start at the same node and advance together, so `temp->next = next->next` writes
-- what stands there.
unfoldable pub unlink_reader : ℕ → List ℕ → List ℕ
unlink_reader pid [] = []
unlink_reader pid (p ∷ rest) = if p == pid then p ∷ rest else p ∷ unlink_reader pid rest

unfoldable pub append_reader : ℕ → List ℕ → List ℕ
append_reader pid [] = pid ∷ []
append_reader pid (p ∷ rest) = p ∷ append_reader pid rest

-- OSPRDIOCACQUIRE: the first critical section takes a ticket, the second, of a writer, looks for the
-- process among the readers.
unfoldable pub acquire_start : ℕ → File → Device → Step
acquire_start pid f d =
    let d1 = record d { ticket_head = add32 d.ticket_head 1 } in
    if d.mutex
    then stuck
    else if pid == d.write_locking_pids
    then returned edeadlk f d1
    else goes_on d.ticket_head f d1

unfoldable pub acquire_readers : ℕ → ℕ → File → Device → Step
acquire_readers my_ticket pid f d =
    if f.filp_writable
    then (if d.mutex
        then stuck
        else if holds pid d.read_locking_pids
        then returned edeadlk f d
        else goes_on my_ticket f d)
    else goes_on my_ticket f d

-- The condition of `wait_event_interruptible`.
unfoldable pub may_enter : ℕ → File → Device → Bool
may_enter my_ticket f d =
    if f.filp_writable
    then d.ticket_tail == my_ticket && d.num_write == 0 && d.num_read == 0
    else d.ticket_tail == my_ticket && d.num_write == 0

-- What a step does with the ticket that `skip_invalid` has found.
abbrev pub with_tail : Code → File → Device → Option ℕ → Option Step
with_tail r f d none = none
with_tail r f d (some tail) = some (returned r f (record d { ticket_tail = tail }))

-- The wait ends by a signal.
unfoldable pub acquire_interrupted : ℕ → ℕ → File → Device → Option Step
acquire_interrupted fuel my_ticket f d =
    if d.ticket_tail == my_ticket
    then with_tail erestartsys f d (skip_invalid fuel 0 (add32 d.ticket_tail 1) d)
    else some (
        returned erestartsys f (record d {
          invalid_ticket_list = update d.invalid_ticket_list d.num_invalid my_ticket;
          num_invalid = d.num_invalid + 1;
        }))

-- The assignments that grant a lock.
abbrev pub grant : ℕ → File → Device → Device
grant pid f d =
    if f.filp_writable
    then record d { num_write = add32 d.num_write 1; write_locking_pids = pid }
    else record d {
      num_read = add32 d.num_read 1;
      read_locking_pids = append_reader pid d.read_locking_pids;
    }

abbrev pub locked_file : File → File
locked_file f = record f { f_flags = bit_or f.f_flags f_osprd_locked }

-- The wait ends by its condition.
unfoldable pub acquire_finish : ℕ → ℕ → File → Device → Option Step
acquire_finish fuel pid f d =
    if d.mutex
    then some stuck
    else with_tail granted (locked_file f) (grant pid f d)
        (skip_invalid fuel 0 (add32 d.ticket_tail 1) d)

-- OSPRDIOCTRYACQUIRE, its two critical sections.
unfoldable pub try_start : ℕ → File → Device → Step
try_start pid f d =
    if d.mutex
    then stuck
    else if d.write_locking_pids == pid
    then returned edeadlk f d
    else goes_on d.ticket_head f d

-- `> 0` for a signed number.
abbrev pub positive : ℕ → Bool
positive n = ltb 0 n && ltb n (2 ^ 31)

-- A reader that finds the lock taken leaves without giving the mutex back.
unfoldable pub try_finish : ℕ → ℕ → File → Device → Step
try_finish my_ticket pid f d =
    if d.mutex
    then stuck
    else if f.filp_writable
    then (if positive d.num_write || positive d.num_read || not (my_ticket == d.ticket_tail)
        then returned ebusy f d
        else returned granted (locked_file f) (grant pid f d))
    else if not (d.num_write == 0) || not (my_ticket == d.ticket_tail)
    then returned ebusy f (lock d)
    else returned granted (locked_file f) (grant pid f d)

-- The lock is given back; `!F_OSPRD_LOCKED` is 0.
abbrev pub give_back : ℕ → File → Device → Device
give_back pid f d =
    if f.filp_writable then record d { num_write = 0; write_locking_pids = no_pid } else record d {
      num_read = (d.num_read + (2 ^ 32 - 1)) % 2 ^ 32;
      read_locking_pids = unlink_reader pid d.read_locking_pids;
    }

abbrev pub released_file : File → File
released_file f = record f { f_flags = bit_and f.f_flags 0 }

-- OSPRDIOCRELEASE.
unfoldable pub release : ℕ → File → Device → Step
release pid f d =
    if d.mutex
    then stuck
    else if bit_and f.f_flags f_osprd_locked == 0
    then returned einval f (lock d)
    else returned granted (released_file f) (give_back pid f d)

-- The last close of a file.
unfoldable pub osprd_close_last : ℕ → File → Device → Step
osprd_close_last pid f d =
    if d.mutex
    then stuck
    else if bit_and f.f_flags f_osprd_locked == 0
    then returned granted f d
    else returned granted (released_file f) (give_back pid f d)
