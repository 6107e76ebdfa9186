-- ===== src/Osprd/Tests.antt =====
-- A device after setup, and the theorems of the RAM disk's lock at it.
use cs111fall.Prelude.{
  ℕ, ◌+◌, ◌*◌, Bool, ◌&&◌, leb, ltb, false, ◌-◌, ◌^◌, ◌≡◌, ◌⊎◌, inr, refl, true, some, [], ◌∷◌,
  arith,
}
use cs111fall.Osprd.Device.{
  Device, File, granted, edeadlk, ebusy, returned, stuck, acquire_readers, acquire_finish, release,
  try_finish, skip_invalid, append_reader, unlink_reader,
}
use cs111fall.Osprd.Deadlock.{
  now, after, releases, acquire_readers-edeadlk, Blocked, try_finish-Blocked,
}
use cs111fall.Osprd.Request.{
  Request, RamDisk, Service, osprd_process_request, transfer, end_with, OnDisk,
  osprd_process_request-within, osprd_process_request-read_back,
}

abbrev fresh : Device
fresh = record {
  mutex = false;
  ticket_head = 1;
  ticket_tail = 0;
  write_locking_pids = 2 ^ 32 - 1;
  num_write = 0;
  read_locking_pids = [];
  num_read = 0;
  invalid_ticket_list = λ i. 0;
  num_invalid = 0;
}

-- Process 7 has a read lock.
abbrev reading : Device
reading = record fresh { ticket_tail = 1; num_read = 1; read_locking_pids = 7 ∷ [] }

-- It has given the lock back.
abbrev given_back : Device
given_back = record reading { num_read = 0 }

abbrev reader : File
reader = record { f_flags = 0; filp_writable = false }

abbrev reader_locked : File
reader_locked = record { f_flags = 0x80000; filp_writable = false }

abbrev writer : File
writer = record { f_flags = 0; filp_writable = true }

acquire_finish_test :
    acquire_finish 1 7 reader fresh ≡ some (returned granted reader_locked reading)
unfolding acquire_finish skip_invalid append_reader
acquire_finish_test = refl

release_test : release 7 reader_locked reading ≡ returned granted reader given_back
unfolding release unlink_reader
release_test = refl

acquire_readers-edeadlk_example :
    (given_back.mutex ≡ false
      × (acquire_readers 1 7 writer given_back ≡ returned edeadlk writer given_back))
    ⊎ (given_back.mutex ≡ true × (acquire_readers 1 7 writer given_back ≡ stuck))
unfolding release unlink_reader
acquire_readers-edeadlk_example =
    acquire_readers-edeadlk 1 1 7 reader reader_locked writer fresh reading given_back refl
      acquire_finish_test (after now (releases 7 reader_locked refl)) refl

try_finish-Blocked_example :
    (d' : Device) × (try_finish 1 7 reader fresh ≡ returned ebusy reader d') × Blocked d'
try_finish-Blocked_example = try_finish-Blocked 1 7 reader fresh refl refl (inr (λ e. omega arith))

-- A disk of 4 sectors at address 1000, and requests for its sectors 1 and 2.
abbrev four_sectors : RamDisk
four_sectors = record { «data» = 1000; nsectors = 4 }

abbrev request : (direction buffer : ℕ) → Request
request direction buffer = record {
  blk_fs_request = true;
  rq_data_dir = direction;
  sector = 1;
  current_nr_sectors = 2;
  buffer = buffer;
}

abbrev asked : Request → Service
asked r = record { memory = λ a. a + 7; req = r; ended = [] }

-- An `end_request` that goes on to the next sectors of the same length.
abbrev next_segment : Bool → Request → Request
next_segment uptodate r = record r {
  sector = r.sector + r.current_nr_sectors;
  buffer = r.buffer + r.current_nr_sectors * 512;
}

request-OnDisk : (direction : ℕ) → OnDisk next_segment four_sectors (request direction 5000)
request-OnDisk direction = record {
  fs = refl;
  fits = omega arith;
  apart = inr (omega arith);
  array = omega arith;
}

second-OnDisk : (direction : ℕ) → OnDisk next_segment four_sectors (request direction 9000)
second-OnDisk direction = record {
  fs = refl;
  fits = omega arith;
  apart = inr (omega arith);
  array = omega arith;
}

osprd_process_request-read_back_example :
    (osprd_process_request next_segment four_sectors
        (record (osprd_process_request next_segment four_sectors (asked (request 1 5000))) {
          req = request 0 9000;
        })).memory
      9020
    ≡ 5027
osprd_process_request-read_back_example =
    osprd_process_request-read_back next_segment four_sectors (asked (request 1 5000))
      (request 0 9000) (request-OnDisk 1) (second-OnDisk 0) refl refl refl refl 20 (omega arith)

osprd_process_request-within_example :
    ((osprd_process_request next_segment four_sectors (asked (request 1 5000))).ended ≡ true ∷ [])
    × ((a : ℕ)
        → (leb 1000 a && ltb a 3048) ≡ false
        → (osprd_process_request next_segment four_sectors (asked (request 1 5000))).memory a
          ≡ a + 7)
osprd_process_request-within_example =
    osprd_process_request-within next_segment four_sectors (asked (request 1 5000))
      (request-OnDisk 1) (inr refl)

-- A write of two sectors from the last one on is ended twice, and has copied the next segment into the
-- array's last sector and past its end.
abbrev beyond : Service
beyond =
    osprd_process_request next_segment four_sectors (asked (record (request 1 5000) { sector = 3 }))

beyond_ended_test : beyond.ended ≡ true ∷ false ∷ []
unfolding osprd_process_request transfer end_with
beyond_ended_test = refl

-- Address 3048 is the first after the array.
beyond_memory_test : beyond.memory 3048 ≡ 6543
unfolding osprd_process_request transfer end_with
beyond_memory_test = refl
