-- ===== src/Peer/Tests.antt =====
-- A buffer of lab4 whose contents go round its end, and whose counters have gone round 2^32.
use cs111fall.Prelude.{
  ℕ, ◌+◌, ◌-◌, ◌%◌, ◌^◌, ◌<◌, ◌≤◌, ◌≡◌, ◌⊎◌, refl, ap, arith, leb, if◌then◌else◌,
}
use cs111fall.Peer.Buffer.{
  taskbufsiz, Task, tbuf_end, amount, try_later, failed, Answer, read_length, write_length,
  read_to_taskbuf, write_from_taskbuf, after_read, after_write,
}
use cs111fall.Peer.Queue.{
  held, content, IsBuffer, Appended, Dropped, Served, AtMost, read_to_taskbuf-Served,
  write_from_taskbuf-Served,
}

-- 96 bytes before the end of the buffer and 10 after it.
abbrev round_end : Task
round_end = record { buf = λ a. a + 1; head = 2 ^ 32 - 96; tail = 10; total_written = 0 }

round_end-IsBuffer : IsBuffer round_end
round_end-IsBuffer = record { head_word = omega arith; tail_word = omega arith; fits = omega arith }

-- At most 50 bytes at a time.
abbrev fifty : ℕ → Answer
fifty len = amount (if leb 50 len then 50 else len)

abbrev amount_of : Answer → ℕ
amount_of (amount n) = n
amount_of try_later = 0
amount_of failed = 0

fifty-AtMost : (len : ℕ) → AtMost len (fifty len)
fifty-AtMost len n e = let q : (if leb 50 len then 50 else len) ≡ n = ap amount_of e in ground arith

read_to_taskbuf-Served_example :
    Served round_end
      (λ n t'. Appended round_end n (λ a. 7) t')
      (fifty (read_length round_end))
      (read_to_taskbuf fifty (λ a. 7) round_end)
    × (read_length round_end + held round_end ≤ taskbufsiz)
read_to_taskbuf-Served_example =
    read_to_taskbuf-Served round_end round_end-IsBuffer fifty (λ a. 7) fifty-AtMost

write_from_taskbuf-Served_example :
    ((held round_end ≡ 0)
      × (write_from_taskbuf fifty round_end ≡ record { result = tbuf_end; task = round_end }))
    ⊎ (((j : ℕ)
          → j < write_length round_end
          → round_end.buf (round_end.head % taskbufsiz + j) ≡ content round_end j)
        × Served round_end
            (Dropped round_end)
            (fifty (write_length round_end))
            (write_from_taskbuf fifty round_end))
write_from_taskbuf-Served_example =
    write_from_taskbuf-Served round_end round_end-IsBuffer fifty fifty-AtMost

read_to_taskbuf_test : (read_to_taskbuf fifty (λ a. 7) round_end).task.tail ≡ 60
unfolding read_to_taskbuf after_read read_length
read_to_taskbuf_test = refl

write_from_taskbuf_test : (write_from_taskbuf fifty round_end).task.head ≡ 2 ^ 32 - 46
unfolding write_from_taskbuf after_write write_length
write_from_taskbuf_test = refl

-- A full buffer asks for 0 bytes, which is answered as an end of file.
abbrev full : Task
full = record round_end { tail = 4000 }

full_test : (read_to_taskbuf fifty (λ a. 7) full).result ≡ tbuf_end
unfolding read_to_taskbuf after_read read_length
full_test = refl
