-- ===== src/Peer/Queue.antt =====
-- The queue of bytes that read_to_taskbuf and write_from_taskbuf of lab4/osppeer.c keep in the buffer.
use cs111fall.Prelude.{
  ℕ, zero, suc, ◌+◌, ◌-◌, ◌%◌, ◌^◌, ◌<◌, ◌≤◌, ◌≡◌, refl, ap, true, false, ◌&&◌, ◌⊎◌, inl, inr,
  arith, ltb, leb, ◌==◌, if◌then◌else◌, Bool-cases,
}
use cs111fall.Peer.Buffer.{
  taskbufsiz, Task, tbuf_error, tbuf_end, tbuf_ok, tbuf_again, Answer, amount, try_later, failed,
  Done, read_length, write_length, read_into, after_read, read_to_taskbuf, after_write,
  write_from_taskbuf,
}

-- The queue of bytes: how many there are, and the byte at a position from the front.
abbrev pub held : Task → ℕ
held t = (t.tail + (2 ^ 32 - t.head)) % 2 ^ 32

abbrev pub content : Task → ℕ → ℕ
content t i = t.buf ((t.head + i) % taskbufsiz)

pub record IsBuffer (t : Task) : Type 0 where
  pub head_word : t.head < 2 ^ 32
  pub tail_word : t.tail < 2 ^ 32
  pub fits : held t ≤ taskbufsiz

-- `t'` is the queue of `t` with `n` bytes at its end.
pub record Appended (t : Task) (n : ℕ) (bytes : ℕ → ℕ) (t' : Task) : Type 0 where
  pub buffer : IsBuffer t'
  pub longer : held t' ≡ held t + n
  pub content_is :
      (i : ℕ)
      → i < held t + n
      → content t' i ≡ (if ltb i (held t) then content t i else bytes (i - held t))

-- `t'` is the queue of `t` without its first `n` bytes.
pub record Dropped (t : Task) (n : ℕ) (t' : Task) : Type 0 where
  pub buffer : IsBuffer t'
  pub shorter : held t' + n ≡ held t
  pub content_is : (i : ℕ) → content t' i ≡ content t (n + i)

module _ (head k i n tp r : ℕ) (p : tp ≡ (head + k) % 4096) (b : n ≤ r) where
  place_apart :
      i < k
      → r + k ≤ 4096
      → (leb tp ((head + i) % 4096) && ltb ((head + i) % 4096) (tp + n)) ≡ false
  place_apart c l = ground arith

  place_after : k ≤ i → i < k + n → tp + r ≤ 4096 → (head + i) % 4096 ≡ tp + (i - k)
  place_after from to l = omega arith

read_into_at :
    (buf : ℕ → ℕ) (place n : ℕ) (bytes : ℕ → ℕ) (j : ℕ)
    → j < n
    → read_into buf place n bytes (place + j) ≡ bytes j
read_into_at buf place n bytes j b =
    let same : place + j - place ≡ j = omega arith in
    let inside : leb place (place + j) && ltb (place + j) (place + n) ≡ true = ground arith in
    rw (inside, same) refl

module _ (t : Task) (h : IsBuffer t) where
  read_length-fits :
      (read_length t + held t ≤ taskbufsiz) × (t.tail % taskbufsiz + read_length t ≤ taskbufsiz)
  unfolding read_length
  read_length-fits = let f = h.fits in let hw = h.head_word in let tw = h.tail_word in ground arith

  write_length-held : (t.head == t.tail) ≡ false → write_length t ≤ held t
  unfolding write_length
  write_length-held e =
      let f = h.fits in let hw = h.head_word in let tw = h.tail_word in ground arith

  shifted :
      (n i : ℕ)
      → n ≤ held t
      → (((t.head + n) % 2 ^ 32) + i) % taskbufsiz ≡ (t.head + (n + i)) % taskbufsiz
  shifted n i b = let hw = h.head_word in omega arith

  dropped :
      (n : ℕ)
      → n ≤ held t
      → Dropped t n (record t {
        head = (t.head + n) % 2 ^ 32;
        total_written = (t.total_written + n) % 2 ^ 32;
      })
  dropped n b = record {
    buffer = record {
      head_word = omega arith;
      tail_word = h.tail_word;
      fits = (let f = h.fits in let hw = h.head_word in let tw = h.tail_word in omega arith);
    };
    shorter = (let f = h.fits in let hw = h.head_word in let tw = h.tail_word in omega arith);
    content_is = λ i. ap t.buf (shifted n i b);
  }

  -- The tail's place is that of the position after the last.
  tail_place : t.tail % taskbufsiz ≡ (t.head + held t) % taskbufsiz
  tail_place = let hw = h.head_word in let tw = h.tail_word in omega arith

  old_place :
      (n i : ℕ)
      → n ≤ read_length t
      → i < held t
      → leb (t.tail % taskbufsiz) ((t.head + i) % taskbufsiz)
          && ltb ((t.head + i) % taskbufsiz) (t.tail % taskbufsiz + n)
        ≡ false
  old_place n i b c =
      place_apart t.head (held t) i n (t.tail % taskbufsiz) (read_length t) tail_place b c
        read_length-fits.0

  new_place :
      (n i : ℕ)
      → n ≤ read_length t
      → held t ≤ i
      → i < held t + n
      → (t.head + i) % taskbufsiz ≡ t.tail % taskbufsiz + (i - held t)
  new_place n i b from to =
      place_after t.head (held t) i n (t.tail % taskbufsiz) (read_length t) tail_place b from to
        read_length-fits.1

  appended_byte :
      (n : ℕ) (bytes : ℕ → ℕ)
      → n ≤ read_length t
      → (i : ℕ) → i < held t + n
      → read_into t.buf (t.tail % taskbufsiz) n bytes ((t.head + i) % taskbufsiz)
        ≡ (if ltb i (held t) then content t i else bytes (i - held t))
  appended_byte n bytes b i c = elim (Bool-cases (ltb i (held t))) [
    | inl old ↦ rw (old, old_place n i b (ground arith)) refl
    | inr new ↦
        let place = new_place n i b (ground arith) c in
        rw (new, place)
          (read_into_at t.buf (t.tail % taskbufsiz) n bytes (i - held t) (ground arith))
  ]

  appended :
      (n : ℕ) (bytes : ℕ → ℕ)
      → n ≤ read_length t
      → Appended t n bytes (record t {
        buf = read_into t.buf (t.tail % taskbufsiz) n bytes;
        tail = (t.tail + n) % 2 ^ 32;
      })
  appended n bytes b = record {
    buffer = record {
      head_word = h.head_word;
      tail_word = omega arith;
      fits =
          (let l = read_length-fits.0 in
            let hw = h.head_word in let tw = h.tail_word in omega arith);
    };
    longer =
        let l = read_length-fits.0 in let hw = h.head_word in let tw = h.tail_word in omega arith;
    content_is = λ i c. appended_byte n bytes b i c;
  }

-- What a call makes of the system call's answer: a change by the amount, or the task as it was with
-- the result that says why.
pub data Served (t : Task) (By : ℕ → Task → Type 0) : Answer → Done → Type 0 where
  moved :
      (n : ℕ) (t' : Task)
      → By (suc n) t'
      → Served t By (amount (suc n)) (record { result = tbuf_ok; task = t' })
  ended : Served t By (amount 0) (record { result = tbuf_end; task = t })
  later : Served t By try_later (record { result = tbuf_again; task = t })
  broken : Served t By failed (record { result = tbuf_error; task = t })

-- An answer to a length: an amount is at most the length.
abbrev pub AtMost : ℕ → Answer → Type 0
AtMost len a = (n : ℕ) → a ≡ amount n → n ≤ len

module _ (t : Task) (h : IsBuffer t) where
  after_read-Served :
      (a : Answer) (bytes : ℕ → ℕ)
      → AtMost (read_length t) a
      → Served t (λ n t'. Appended t n bytes t') a (after_read a bytes t)
  unfolding after_read
  after_read-Served (amount zero) bytes b = ended
  after_read-Served (amount (suc n)) bytes b =
      let positive : (suc n == 0) ≡ false = ground arith in
      rw positive (moved n _ (appended t h (suc n) bytes (b (suc n) refl)))
  after_read-Served try_later bytes b = later
  after_read-Served failed bytes b = broken

  after_write-Served :
      (a : Answer)
      → AtMost (write_length t) a
      → (t.head == t.tail) ≡ false
      → Served t (Dropped t) a (after_write a t)
  unfolding after_write
  after_write-Served (amount zero) b e = ended
  after_write-Served (amount (suc n)) b e =
      let w = write_length-held t h e in
      let n_fits = b (suc n) refl in
      let positive : (suc n == 0) ≡ false = ground arith in
      rw positive (moved n _ (dropped t h (suc n) (omega arith)))
  after_write-Served try_later b e = later
  after_write-Served failed b e = broken

  -- On a buffer in order, if `read` brings no more than it was asked for: a positive amount appends the bytes
  -- read to the queue, and the call returns TBUF_OK; any other answer leaves the task as it was, with TBUF_END
  -- for 0, TBUF_AGAIN or TBUF_ERROR. What is asked for fits behind the queue.
  pub read_to_taskbuf-Served :
      (answers : ℕ → Answer) (bytes : ℕ → ℕ)
      → ((len : ℕ) → AtMost len (answers len))
      → Served t
          (λ n t'. Appended t n bytes t')
          (answers (read_length t))
          (read_to_taskbuf answers bytes t)
        × (read_length t + held t ≤ taskbufsiz)
  unfolding read_to_taskbuf
  read_to_taskbuf-Served answers bytes b = (
    after_read-Served (answers (read_length t)) bytes (b (read_length t)),
    (read_length-fits t h).0,
  )

  contiguous :
      (j : ℕ)
      → (t.head == t.tail) ≡ false
      → j < write_length t
      → t.buf (t.head % taskbufsiz + j) ≡ content t j
  unfolding write_length
  contiguous j e b =
      let inside : t.head % taskbufsiz + j < taskbufsiz = ground arith in
      let same : t.head % taskbufsiz + j ≡ (t.head + j) % taskbufsiz = omega arith in ap t.buf same

  -- On a buffer in order: if the queue is empty, the call returns TBUF_END and changes nothing. Otherwise
  -- `write` is given the first bytes of the queue; if it takes no more than it is given, a positive amount
  -- drops as many bytes from the front, with TBUF_OK, and any other answer leaves the task as it was.
  pub write_from_taskbuf-Served :
      (answers : ℕ → Answer)
      → ((len : ℕ) → AtMost len (answers len))
      → ((held t ≡ 0) × (write_from_taskbuf answers t ≡ record { result = tbuf_end; task = t }))
        ⊎ (((j : ℕ) → j < write_length t → t.buf (t.head % taskbufsiz + j) ≡ content t j)
            × Served t (Dropped t) (answers (write_length t)) (write_from_taskbuf answers t))
  unfolding write_from_taskbuf
  write_from_taskbuf-Served answers b = elim (Bool-cases (t.head == t.tail)) [
    | inl empty ↦
        let hw = h.head_word in let none : held t ≡ 0 = ground arith in inl (none, rw empty refl)
    | inr some ↦ inr (
      λ j c. contiguous j some c,
      rw some (after_write-Served (answers (write_length t)) (b (write_length t)) some),
    )
  ]
