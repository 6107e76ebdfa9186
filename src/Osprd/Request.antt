-- ===== src/Osprd/Request.antt =====
-- lab2/osprd.c: osprd_process_request, which copies sectors between the disk's array and a buffer, with
-- the numbers of 32 bits.
use cs111fall.Prelude.{
  ℕ, ◌+◌, ◌-◌, ◌*◌, ◌%◌, ◌^◌, ◌<◌, ◌≤◌, ◌≡◌, refl, ap, ◌∙◌, Bool, true, false, ◌&&◌, ◌⊎◌, inl, inr,
  List, ◌∷◌, arith, ltb, leb, ◌==◌, if◌then◌else◌,
}
use cs111fall.Weensy.{Memory}

abbrev pub sector_size : ℕ
sector_size = 512

-- What the function uses of `struct request`: `blk_fs_request`, `rq_data_dir` and three fields.
pub record Request : Type 0 where
  pub blk_fs_request : Bool
  pub rq_data_dir : ℕ
  pub sector : ℕ
  pub current_nr_sectors : ℕ
  pub buffer : ℕ

-- The address of the array and the module's parameter.
pub record RamDisk : Type 0 where
  pub «data» : ℕ
  pub nsectors : ℕ

-- The memory, the request, and the values that `end_request` was called with, the last first.
pub record Service : Type 0 where
  pub memory : Memory
  pub req : Request
  pub ended : List Bool

-- The memory after `memcpy`, for regions that do not overlap.
abbrev pub copied : (dst src n : ℕ) → Memory → Memory
copied dst src n m a = if leb dst a && ltb a (dst + n) then m (src + (a - dst)) else m a

copied_at :
    (dst src n : ℕ) (m : Memory) (i : ℕ) → i < n → copied dst src n m (dst + i) ≡ m (src + i)
copied_at dst src n m i b =
    let same : dst + i - dst ≡ i = omega arith in
    let inside : leb dst (dst + i) && ltb (dst + i) (dst + n) ≡ true = ground arith in
    rw (inside, same) refl

-- The length of a copy in bytes.
abbrev pub bytes_of : Request → ℕ
bytes_of r = r.current_nr_sectors * sector_size % 2 ^ 32

abbrev pub data_ptr : RamDisk → Request → ℕ
data_ptr d r = (d.«data» + r.sector * sector_size % 2 ^ 32) % 2 ^ 32

-- The test of the end of the disk.
abbrev pub is_beyond : RamDisk → Request → Bool
is_beyond d r = ltb d.nsectors ((r.current_nr_sectors + r.sector) % 2 ^ 32)

-- `end_request` is Linux's; it may change the request.
module _ (end_request : Bool → Request → Request) where
  unfoldable pub end_with : Bool → Service → Service
  end_with uptodate s = record s { req = end_request uptodate s.req; ended = uptodate ∷ s.ended }

  -- The copy; the direction and the address in the array were read at the start.
  unfoldable pub transfer : (request_type ptr : ℕ) → Service → Service
  transfer request_type ptr s =
      if request_type == 0
      then record s { memory = copied s.req.buffer ptr (bytes_of s.req) s.memory }
      else if request_type == 1
      then record s { memory = copied ptr s.req.buffer (bytes_of s.req) s.memory }
      else end_with false s

  unfoldable pub osprd_process_request : RamDisk → Service → Service
  osprd_process_request d s =
      if s.req.blk_fs_request
      then end_with true (
          transfer s.req.rq_data_dir (data_ptr d s.req)
            (if is_beyond d s.req then end_with false s else s))
      else end_with false s

  -- A request of the file system that lies on the disk, whose array lies in memory, with a
  -- buffer outside of it.
  pub record OnDisk (d : RamDisk) (r : Request) : Type 0 where
    pub fs : r.blk_fs_request ≡ true
    pub fits : r.current_nr_sectors + r.sector ≤ d.nsectors
    pub apart :
        (r.buffer + r.current_nr_sectors * 512 ≤ d.«data»)
        ⊎ (d.«data» + d.nsectors * 512 ≤ r.buffer)
    pub array : d.«data» + d.nsectors * 512 < 2 ^ 32

  module _ (d : RamDisk) (s : Service) (h : OnDisk d s.req) where
    fits_not_beyond : is_beyond d s.req ≡ false
    fits_not_beyond = let f = h.fits in let b = h.array in ground arith

    data_ptr-array : data_ptr d s.req ≡ d.«data» + s.req.sector * 512
    data_ptr-array = let f = h.fits in let b = h.array in omega arith

    bytes_of-sectors : bytes_of s.req ≡ s.req.current_nr_sectors * 512
    bytes_of-sectors = let f = h.fits in let b = h.array in omega arith

    -- A write puts the buffer's bytes into the array.
    process-write :
        s.req.rq_data_dir ≡ 1
        → (osprd_process_request d s).memory
          ≡ copied
              (d.«data» + s.req.sector * 512)
              s.req.buffer
              (s.req.current_nr_sectors * 512)
              s.memory
    unfolding osprd_process_request transfer end_with
    process-write w = rw (h.fs, w, fits_not_beyond, data_ptr-array, bytes_of-sectors) refl

    -- A read puts the array's bytes into the buffer.
    process-read :
        s.req.rq_data_dir ≡ 0
        → (osprd_process_request d s).memory
          ≡ copied s.req.buffer
              (d.«data» + s.req.sector * 512)
              (s.req.current_nr_sectors * 512)
              s.memory
    unfolding osprd_process_request transfer end_with
    process-read w = rw (h.fs, w, fits_not_beyond, data_ptr-array, bytes_of-sectors) refl

    once_read : s.req.rq_data_dir ≡ 0 → (osprd_process_request d s).ended ≡ true ∷ s.ended
    unfolding osprd_process_request transfer end_with
    once_read w = rw (h.fs, w, fits_not_beyond) refl

    once_write : s.req.rq_data_dir ≡ 1 → (osprd_process_request d s).ended ≡ true ∷ s.ended
    unfolding osprd_process_request transfer end_with
    once_write w = rw (h.fs, w, fits_not_beyond) refl

    -- The bytes that the request may change.
    abbrev pub within : ℕ → Bool
    within a =
        if s.req.rq_data_dir == 1
        then leb d.«data» a && ltb a (d.«data» + d.nsectors * 512)
        else leb s.req.buffer a && ltb a (s.req.buffer + s.req.current_nr_sectors * 512)

    frame_read :
        s.req.rq_data_dir ≡ 0
        → (a : ℕ) → within a ≡ false
        → (osprd_process_request d s).memory a ≡ s.memory a
    frame_read w a o = let o' = rw w at o in rw (process-read w) (ground arith)

    frame_write :
        s.req.rq_data_dir ≡ 1
        → (a : ℕ) → within a ≡ false
        → (osprd_process_request d s).memory a ≡ s.memory a
    frame_write w a o = let o' = rw w at o in let f = h.fits in rw (process-write w) (ground arith)

    -- A request of the file system on the disk, with one of the two directions and a buffer outside the
    -- array, is ended once, with success; a write changes nothing outside the disk's array, and a read
    -- nothing outside the buffer.
    pub osprd_process_request-within :
        (s.req.rq_data_dir ≡ 0) ⊎ (s.req.rq_data_dir ≡ 1)
        → ((osprd_process_request d s).ended ≡ true ∷ s.ended)
          × ((a : ℕ) → within a ≡ false → (osprd_process_request d s).memory a ≡ s.memory a)
    osprd_process_request-within direction = elim direction [
      | inl read ↦ (once_read read, λ a o. frame_read read a o)
      | inr write ↦ (once_write write, λ a o. frame_write write a o)
    ]

  -- What a request has written to the disk, a later one reads back: the second request, of the same
  -- sectors, leaves in its buffer the bytes that the first one's buffer held; both are requests of the
  -- file system on the disk, with buffers outside the array.
  pub osprd_process_request-read_back :
      (d : RamDisk) (s : Service) (r : Request)
      → OnDisk d s.req
      → OnDisk d r
      → s.req.rq_data_dir ≡ 1
      → r.rq_data_dir ≡ 0
      → r.sector ≡ s.req.sector
      → r.current_nr_sectors ≡ s.req.current_nr_sectors
      → (i : ℕ) → i < r.current_nr_sectors * 512
      → (osprd_process_request d (record (osprd_process_request d s) { req = r })).memory
          (r.buffer + i)
        ≡ s.memory (s.req.buffer + i)
  osprd_process_request-read_back d s r hs hr w e sectors count i b =
      let first = process-write d s hs w in
      let second = process-read d (record (osprd_process_request d s) { req = r }) hr e in
      let stored =
        copied_at (d.«data» + s.req.sector * 512) s.req.buffer (s.req.current_nr_sectors * 512)
          s.memory i (omega arith) in
      ap (λ m. m (r.buffer + i)) second
      ∙ copied_at r.buffer (d.«data» + r.sector * 512) (r.current_nr_sectors * 512)
          (osprd_process_request d s).memory i b
      ∙ rw (sectors, first) stored
