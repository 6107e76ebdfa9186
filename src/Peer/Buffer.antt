-- ===== src/Peer/Buffer.antt =====
-- lab4/osppeer.c: read_to_taskbuf and write_from_taskbuf. `head` and
-- `tail` are unsigned numbers of 32 bits, and so is `total_written`.
use cs111fall.Prelude.{ℕ, ◌+◌, ◌-◌, ◌%◌, ◌^◌, ◌&&◌, ◌||◌, ltb, leb, ◌==◌, if◌then◌else◌}

abbrev pub taskbufsiz : ℕ
taskbufsiz = 4096

-- The fields of `task_t` that the buffer uses.
pub record Task : Type 0 where
  pub buf : ℕ → ℕ
  pub head : ℕ
  pub tail : ℕ
  pub total_written : ℕ

pub data TaskBufResult : Type 0 where
  tbuf_error : TaskBufResult
  tbuf_end : TaskBufResult
  tbuf_ok : TaskBufResult
  tbuf_again : TaskBufResult

-- What `read` and `write` answer: an amount, or -1 with an error number that says to try again, or
-- with another one.
pub data Answer : Type 0 where
  amount : ℕ → Answer
  try_later : Answer
  failed : Answer

pub record Done : Type 0 where
  pub result : TaskBufResult
  pub task : Task

-- The length that is asked for, and the place in the buffer.
unfoldable pub read_length : Task → ℕ
read_length t =
    let headpos = t.head % taskbufsiz in
    let tailpos = t.tail % taskbufsiz in
    if t.head == t.tail || ltb headpos tailpos then taskbufsiz - tailpos else headpos - tailpos

unfoldable pub write_length : Task → ℕ
write_length t =
    let headpos = t.head % taskbufsiz in
    let tailpos = t.tail % taskbufsiz in
    if ltb headpos tailpos then tailpos - headpos else taskbufsiz - headpos

-- The buffer with `n` bytes read to a place.
abbrev pub read_into : (ℕ → ℕ) → (place n : ℕ) → (ℕ → ℕ) → ℕ → ℕ
read_into buf place n bytes a =
    if leb place a && ltb a (place + n) then bytes (a - place) else buf a

-- `answers` is what the system call does with a length, `bytes` what a read brings.
unfoldable pub after_read : Answer → (bytes : ℕ → ℕ) → Task → Done
after_read try_later bytes t = record { result = tbuf_again; task = t }
after_read failed bytes t = record { result = tbuf_error; task = t }
after_read (amount n) bytes t = if n == 0 then record { result = tbuf_end; task = t } else record {
  result = tbuf_ok;
  task = record t {
    buf = read_into t.buf (t.tail % taskbufsiz) n bytes;
    tail = (t.tail + n) % 2 ^ 32;
  };
}

unfoldable pub read_to_taskbuf : (answers : ℕ → Answer) → (bytes : ℕ → ℕ) → Task → Done
read_to_taskbuf answers bytes t = after_read (answers (read_length t)) bytes t

unfoldable pub after_write : Answer → Task → Done
after_write try_later t = record { result = tbuf_again; task = t }
after_write failed t = record { result = tbuf_error; task = t }
after_write (amount n) t = if n == 0 then record { result = tbuf_end; task = t } else record {
  result = tbuf_ok;
  task = record t { head = (t.head + n) % 2 ^ 32; total_written = (t.total_written + n) % 2 ^ 32 };
}

-- The bytes that `write` is given start at `head % taskbufsiz`.
unfoldable pub write_from_taskbuf : (answers : ℕ → Answer) → Task → Done
write_from_taskbuf answers t =
    if t.head == t.tail
    then record { result = tbuf_end; task = t }
    else after_write (answers (write_length t)) t
