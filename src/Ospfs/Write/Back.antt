-- ===== src/Ospfs/Write/Back.antt =====
-- `ospfs_read` of lab3/ospfsmod.c after `ospfs_write`.
use Prim.Native.Nat.{min}
use cs111fall.Prelude.{
  ℕ, ◌+◌, ◌-◌, ◌≤◌, ◌<◌, ◌≡◌, ◌∙◌, ap, Bool, true, false, ◌&&◌, Option, none, some, arith, ltb, leb,
}
use cs111fall.Weensy.{Memory}
use cs111fall.Ospfs.Disk.{Disk, oi_size}
use cs111fall.Ospfs.Read.{Amount, bytes, ospfs_read}
use cs111fall.Ospfs.Read.Bytes.{Reads, ospfs_read-Reads}
use cs111fall.Ospfs.Write.{Written, User, ospfs_write}
use cs111fall.Ospfs.Write.File.{IsFile, IsFile-Agree, size_same}
use cs111fall.Ospfs.Write.Bytes.{Wrote, Writes, ospfs_write-Writes}

-- A read returns `count` bytes, and the memory from `to` on has what `m` has from `from` on.
abbrev pub Copies : (m : Memory) → (from to count : ℕ) → Option (Amount × ℕ × Memory) → Type 0
Copies m from to count none = ⊥
Copies m from to count (some (r, f_pos, m')) =
    (r ≡ bytes count) × ((k : ℕ) → k < count → m' (to + k) ≡ m (from + k))

-- So does a read of the disk that a write leaves.
abbrev pub ReadsBack :
    (oi : ℕ) (faults : ℕ → ℕ → Bool) (fuel : ℕ) (m m' : Memory) (from to count f_pos : ℕ)
    → Option (Written × ℕ × Disk)
    → Type 0
ReadsBack oi faults fuel m m' from to count f_pos none = ⊥
ReadsBack oi faults fuel m m' from to count f_pos (some (r, p, d)) =
    Copies m from to count (ospfs_read fuel faults oi to count f_pos d m')

module _ (u : User) (oi : ℕ) (m m' : Memory) (byte_wide : (a : ℕ) → m a < 256)
    (sound : (b n : ℕ) → u.faults b n ≡ false) (faults : ℕ → ℕ → Bool)
    (sound' : (b n : ℕ) → faults b n ≡ false) where
  module _ (fuel from to count f_pos : ℕ) (d : Disk) (fits : f_pos + count ≤ d (oi_size oi)) where
    Reads-Copies :
        (d' : Disk) (o : Option (Amount × ℕ × Memory))
        → Wrote oi d from f_pos count m d'
        → Reads oi d' to f_pos count 0 m' o
        → Copies m from to count o
    Reads-Copies d' none w r = r
    Reads-Copies d' (some (a, p, m3)) w (e, e', h) = (
      e ∙ ap bytes (omega arith),
      λ k lt.
          let inside : leb to (to + k) && ltb (to + k) (to + count) ≡ true = ground arith in
          let hit : leb f_pos (f_pos + (to + k - to)) && ltb (f_pos + (to + k - to)) (f_pos + count)
              ≡ true =
            ground arith in
          let index : f_pos + (to + k - to) - f_pos ≡ k = omega arith in
          let read = rw inside at (h (to + k)) in
          let wrote = rw (hit, index) at (w (f_pos + (to + k - to)) (omega (arith, fits))) in
          read ∙ wrote,
    )

    Writes-ReadsBack :
        (o : Option (Written × ℕ × Disk))
        → IsFile oi d
        → count < fuel
        → Writes oi d from f_pos count 0 m o
        → ReadsBack oi faults fuel m m' from to count f_pos o
    Writes-ReadsBack none file enough w = w
    Writes-ReadsBack (some (r, p, d')) file enough (e, e', agree, w, only) =
        let file' = IsFile-Agree file agree in
        let size = size_same file agree in
        let all : min count (d' (oi_size oi) - f_pos) ≡ count = ground (arith, size, fits) in
        Reads-Copies d' (ospfs_read fuel faults oi to count f_pos d' m') w (
          rw all at (
            ospfs_read-Reads oi d' (omega (arith, file'.fits)) faults sound' file'.mapped fuel to
              count f_pos m' (omega (arith, size, fits)) enough))

    -- What `ospfs_write` has written within a file `ospfs_read` gives back, if no copy from or to the user
    -- faults and with more fuel than the count: it returns the count, and the bytes at its destination are
    -- those that were written.
    pub ospfs_read-ospfs_write :
        IsFile oi d
        → count < fuel
        → ReadsBack oi faults fuel m m' from to count f_pos
            (ospfs_write u oi count m fuel false from f_pos d)
    ospfs_read-ospfs_write file enough =
        Writes-ReadsBack (ospfs_write u oi count m fuel false from f_pos d) file enough
          (ospfs_write-Writes u oi m byte_wide sound count fuel from f_pos d file fits enough)
