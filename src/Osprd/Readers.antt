-- ===== src/Osprd/Readers.antt =====
-- What becomes of the readers that lab2/osprd.c keeps for the detection of deadlocks.
use mathlib.Core.Bool.{not}
use Prim.Native.Nat.{bit_and}
use cs111fall.Prelude.{
  ℕ, ◌≡◌, refl, inl, inr, Bool, true, false, ◌||◌, Option, none, some, List, [], ◌∷◌, arith, ◌==◌,
  if◌then◌else◌, Bool-cases,
}
use cs111fall.Osprd.Device.{
  Device, File, Code, granted, Step, returned, goes_on, stuck, holds, unlink_reader, append_reader,
  skip_invalid, with_tail, acquire_start, acquire_readers, acquire_interrupted, acquire_finish,
  grant, give_back, try_start, try_finish, release, osprd_close_last, positive, lock, ebusy, einval,
  erestartsys, locked_file, released_file, f_osprd_locked, add32,
}

-- The loop that should take a process off the list leaves the list as it is.
unlink_reader_lem : (pid : ℕ) (l : List ℕ) → unlink_reader pid l ≡ l
unfolding unlink_reader
unlink_reader_lem pid [] = refl
unlink_reader_lem pid (p ∷ rest) = elim (Bool-cases (p == pid)) [
  | inl here ↦ rw here refl
  | inr there ↦ rw (there, unlink_reader_lem pid rest) refl
]

pub holds-append_reader :
    (pid q : ℕ) (l : List ℕ) → holds pid (append_reader q l) ≡ (q == pid || holds pid l)
unfolding holds append_reader
holds-append_reader pid q [] = ground arith
holds-append_reader pid q (p ∷ rest) = rw (holds-append_reader pid q rest) (ground arith)

-- Every state that a step leaves has `P`.
abbrev pub Keeps : (Device → Type 0) → Step → Type 0
Keeps P (returned r f d) = P d
Keeps P (goes_on t f d) = P d
Keeps P stuck = Unit {0}

abbrev pub KeepsSome : (Device → Type 0) → Option Step → Type 0
KeepsSome P none = Unit {0}
KeepsSome P (some s) = Keeps P s

module _ (pid : ℕ) where
  -- The process is on the list of readers.
  abbrev pub Listed : Device → Type 0
  Listed d = holds pid d.read_locking_pids ≡ true

  if_Keeps :
      (b : Bool) (x y : Step) → Keeps Listed x → Keeps Listed y → Keeps Listed (if b then x else y)
  if_Keeps true x y p q = p
  if_Keeps false x y p q = q

  pub if_KeepsSome :
      (b : Bool) (x y : Option Step)
      → KeepsSome Listed x
      → KeepsSome Listed y
      → KeepsSome Listed (if b then x else y)
  if_KeepsSome true x y p q = p
  if_KeepsSome false x y p q = q

  module _ (p : ℕ) (f : File) (d : Device) (h : Listed d) where
    grant-Listed : Listed (grant p f d)
    grant-Listed = elim (Bool-cases f.filp_writable) [
      | inl w ↦ rw w h
      | inr r ↦ rw (r, holds-append_reader pid p d.read_locking_pids, h) (ground arith)
    ]

    give_back-Listed : Listed (give_back p f d)
    give_back-Listed = elim (Bool-cases f.filp_writable) [
      | inl w ↦ rw w h
      | inr r ↦ rw (r, unlink_reader_lem p d.read_locking_pids) h
    ]

    pub acquire_start-Listed : Keeps Listed (acquire_start p f d)
    unfolding acquire_start
    acquire_start-Listed = if_Keeps d.mutex _ _ tt (if_Keeps (p == d.write_locking_pids) _ _ h h)

    pub acquire_readers-Listed : (t : ℕ) → Keeps Listed (acquire_readers t p f d)
    unfolding acquire_readers
    acquire_readers-Listed t =
        if_Keeps f.filp_writable _ _
          (if_Keeps d.mutex _ _ tt (if_Keeps (holds p d.read_locking_pids) _ _ h h)) h

    pub try_start-Listed : Keeps Listed (try_start p f d)
    unfolding try_start
    try_start-Listed = if_Keeps d.mutex _ _ tt (if_Keeps (d.write_locking_pids == p) _ _ h h)

    pub try_finish-Listed : (t : ℕ) → Keeps Listed (try_finish t p f d)
    unfolding try_finish
    try_finish-Listed t = if_Keeps d.mutex _ _ tt (
        if_Keeps f.filp_writable _ _
          (if_Keeps (positive d.num_write || positive d.num_read || not (t == d.ticket_tail))
            (returned ebusy f d) (returned granted (locked_file f) (grant p f d)) h grant-Listed)
          (if_Keeps (not (d.num_write == 0) || not (t == d.ticket_tail)) (returned ebusy f (lock d))
            (returned granted (locked_file f) (grant p f d)) h grant-Listed))

    pub release-Listed : Keeps Listed (release p f d)
    unfolding release
    release-Listed = if_Keeps d.mutex _ _ tt (
        if_Keeps (bit_and f.f_flags f_osprd_locked == 0) (returned einval f (lock d))
          (returned granted (released_file f) (give_back p f d)) h give_back-Listed)

    pub osprd_close_last-Listed : Keeps Listed (osprd_close_last p f d)
    unfolding osprd_close_last
    osprd_close_last-Listed = if_Keeps d.mutex _ _ tt (
        if_Keeps (bit_and f.f_flags f_osprd_locked == 0) (returned granted f d)
          (returned granted (released_file f) (give_back p f d)) h give_back-Listed)

    with_tail-Listed :
        (r : Code) (g : File) (d' : Device) (o : Option ℕ)
        → Listed d'
        → KeepsSome Listed (with_tail r g d' o)
    with_tail-Listed r g d' none q = tt
    with_tail-Listed r g d' (some tail) q = q

    pub acquire_interrupted-Listed :
        (fuel t : ℕ) → KeepsSome Listed (acquire_interrupted fuel t f d)
    unfolding acquire_interrupted
    acquire_interrupted-Listed fuel t = elim (Bool-cases (d.ticket_tail == t)) [
      | inl mine ↦ rw mine (with_tail-Listed erestartsys f d _ h)
      | inr other ↦ rw other h
    ]

    pub acquire_finish-Listed : (fuel : ℕ) → KeepsSome Listed (acquire_finish fuel p f d)
    unfolding acquire_finish
    acquire_finish-Listed fuel =
        if_KeepsSome d.mutex (some stuck)
          (with_tail granted (locked_file f) (grant p f d)
            (skip_invalid fuel 0 (add32 d.ticket_tail 1) d))
          tt (with_tail-Listed granted (locked_file f) (grant p f d) _ grant-Listed)
