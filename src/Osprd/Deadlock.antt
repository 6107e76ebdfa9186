-- ===== src/Osprd/Deadlock.antt =====
-- Two faults of lab2/osprd.c: a process that once held a read lock, and a mutex that is not given back.
use mathlib.Core.Bool.{not}
use mathlib.Core.Option.{some-injective}
use cs111fall.Prelude.{
  ℕ, ◌≡◌, ◌≢◌, refl, ◌⊎◌, inl, inr, true, false, ◌||◌, Option, none, some, arith, ◌==◌, Bool-cases,
  eq→==,
}
use cs111fall.Osprd.Device.{
  Device, File, granted, edeadlk, ebusy, Step, returned, goes_on, stuck, holds, with_tail,
  skip_invalid, acquire_start, acquire_readers, acquire_interrupted, acquire_finish, grant,
  try_start, try_finish, release, osprd_close_last, locked_file, lock, add32,
}
use cs111fall.Osprd.Readers.{
  Listed, Keeps, KeepsSome, if_KeepsSome, holds-append_reader, acquire_start-Listed,
  acquire_readers-Listed, try_start-Listed, try_finish-Listed, release-Listed,
  osprd_close_last-Listed, acquire_interrupted-Listed, acquire_finish-Listed,
}

-- The state that a step leaves.
abbrev pub left : Step → Option Device
left (returned r f d) = some d
left (goes_on t f d) = some d
left stuck = none

-- One step of any process with any file.
pub data Moves (d d' : Device) : Type 0 where
  starts : (p : ℕ) (f : File) → left (acquire_start p f d) ≡ some d' → Moves d d'
  looks : (t p : ℕ) (f : File) → left (acquire_readers t p f d) ≡ some d' → Moves d d'
  gives_up :
      (fuel t : ℕ) (f : File) (s : Step)
      → acquire_interrupted fuel t f d ≡ some s
      → left s ≡ some d'
      → Moves d d'
  acquires :
      (fuel p : ℕ) (f : File) (s : Step)
      → acquire_finish fuel p f d ≡ some s
      → left s ≡ some d'
      → Moves d d'
  tries : (p : ℕ) (f : File) → left (try_start p f d) ≡ some d' → Moves d d'
  tried : (t p : ℕ) (f : File) → left (try_finish t p f d) ≡ some d' → Moves d d'
  releases : (p : ℕ) (f : File) → left (release p f d) ≡ some d' → Moves d d'
  closes : (p : ℕ) (f : File) → left (osprd_close_last p f d) ≡ some d' → Moves d d'

pub data Later (d : Device) : Device → Type 0 where
  now : Later d d
  after : {d' d'' : Device} → Later d d' → Moves d' d'' → Later d d''

module _ (pid : ℕ) where
  left-Listed : (s : Step) {d : Device} → Keeps (Listed pid) s → left s ≡ some d → Listed pid d
  left-Listed (returned r f d') {d} k e = rw (some-injective d' d e) at k
  left-Listed (goes_on t f d') {d} k e = rw (some-injective d' d e) at k
  left-Listed stuck k e = cc

  left-some-Listed :
      {o : Option Step} {s : Step} {d : Device}
      → KeepsSome (Listed pid) o
      → o ≡ some s
      → left s ≡ some d
      → Listed pid d
  left-some-Listed {s = s} k e l = left-Listed s (rw e at k) l

  Moves-Listed : {d d' : Device} → Listed pid d → Moves d d' → Listed pid d'
  Moves-Listed {d} h (starts p f e) = left-Listed _ (acquire_start-Listed pid p f d h) e
  Moves-Listed {d} h (looks t p f e) = left-Listed _ (acquire_readers-Listed pid p f d h t) e
  Moves-Listed {d} h (gives_up fuel t f s e l) =
      left-some-Listed (acquire_interrupted-Listed pid 0 f d h fuel t) e l
  Moves-Listed {d} h (acquires fuel p f s e l) =
      left-some-Listed (acquire_finish-Listed pid p f d h fuel) e l
  Moves-Listed {d} h (tries p f e) = left-Listed _ (try_start-Listed pid p f d h) e
  Moves-Listed {d} h (tried t p f e) = left-Listed _ (try_finish-Listed pid p f d h t) e
  Moves-Listed {d} h (releases p f e) = left-Listed _ (release-Listed pid p f d h) e
  Moves-Listed {d} h (closes p f e) = left-Listed _ (osprd_close_last-Listed pid p f d h) e

  Later-Listed : {d d' : Device} → Listed pid d → Later d d' → Listed pid d'
  Later-Listed h now = h
  Later-Listed h (after l m) = Moves-Listed (Later-Listed h l) m

  -- A read lock puts the process on the list.
  with_tail-reader :
      (f : File) (d : Device) (o : Option ℕ)
      → f.filp_writable ≡ false
      → KeepsSome (Listed pid) (with_tail granted (locked_file f) (grant pid f d) o)
  with_tail-reader f d none r = tt
  with_tail-reader f d (some tail) r =
      rw (r, holds-append_reader pid pid d.read_locking_pids, eq→== pid pid refl) refl

  reader-Listed :
      (fuel : ℕ) (f f' : File) (d d' : Device)
      → f.filp_writable ≡ false
      → acquire_finish fuel pid f d ≡ some (returned granted f' d')
      → Listed pid d'
  unfolding acquire_finish
  reader-Listed fuel f f' d d' r e =
      let o = skip_invalid fuel 0 (add32 d.ticket_tail 1) d in
      let k : KeepsSome (Listed pid) (acquire_finish fuel pid f d) =
        if_KeepsSome pid d.mutex (some stuck) (with_tail granted (locked_file f) (grant pid f d) o)
          tt (with_tail-reader f d o r) in
      rw e at k

-- A process that has once got a read lock by OSPRDIOCACQUIRE is refused with -EDEADLK whenever it asks for the
-- write lock by OSPRDIOCACQUIRE later, whatever any process has done in between, its own release and close
-- included: the second critical section of the request returns -EDEADLK and leaves the device as it is, or spins
-- on the mutex.
pub acquire_readers-edeadlk :
    (fuel my_ticket pid : ℕ) (f f' g : File) (d d1 d2 : Device)
    → f.filp_writable ≡ false
    → acquire_finish fuel pid f d ≡ some (returned granted f' d1)
    → Later d1 d2
    → g.filp_writable ≡ true
    → (d2.mutex ≡ false × (acquire_readers my_ticket pid g d2 ≡ returned edeadlk g d2))
      ⊎ (d2.mutex ≡ true × (acquire_readers my_ticket pid g d2 ≡ stuck))
unfolding acquire_readers
acquire_readers-edeadlk fuel t pid f f' g d d1 d2 r e l w =
    let h : holds pid d2.read_locking_pids ≡ true =
      Later-Listed pid (reader-Listed pid fuel f f' d d1 r e) l in
    elim (Bool-cases d2.mutex) [
      | inl held ↦ inr (held, simp (w, held) refl)
      | inr free ↦ inl (free, simp (w, free, h) refl)
    ]

-- The parts of the handlers that take the mutex spin, for every process and file.
abbrev pub Blocked : Device → Type 0
Blocked d =
    (p t fuel : ℕ) (f : File)
    → (acquire_start p f d ≡ stuck)
      × (acquire_finish fuel p f d ≡ some stuck)
      × (try_start p f d ≡ stuck)
      × (try_finish t p f d ≡ stuck)
      × (release p f d ≡ stuck)
      × (osprd_close_last p f d ≡ stuck)

Blocked_lem : (d : Device) → d.mutex ≡ true → Blocked d
unfolding acquire_start acquire_finish try_start try_finish release osprd_close_last
Blocked_lem d held p t fuel f =
    (simp held refl, simp held refl, simp held refl, simp held refl, simp held refl, simp held refl)

-- If a reader's OSPRDIOCTRYACQUIRE finds the mutex free but the lock taken, by a writer or by an earlier
-- ticket, it returns -EBUSY with the mutex held: in that state the start and the end of an acquire, both
-- parts of a try, a release and a close spin, for any process and file.
pub try_finish-Blocked :
    (my_ticket pid : ℕ) (f : File) (d : Device)
    → d.mutex ≡ false
    → f.filp_writable ≡ false
    → (d.num_write ≢ 0) ⊎ (my_ticket ≢ d.ticket_tail)
    → (d' : Device) × (try_finish my_ticket pid f d ≡ returned ebusy f d') × Blocked d'
unfolding try_finish
try_finish-Blocked t pid f d free r busy =
    let e : (not (d.num_write == 0) || not (t == d.ticket_tail)) ≡ true = ground (arith, busy) in
    (lock d, simp (free, r, e) refl, Blocked_lem (lock d) refl)
