-- ===== src/Ospfs/Resize.antt =====
-- lab3/ospfsmod.c: `add_block`, `remove_block` and `change_size`.
pub mod Sound
pub mod Sized
pub mod Add
pub mod Remove
pub mod Change
pub mod Leak
pub mod Attach
use cs111fall.Prelude.{
  ℕ, zero, suc, ◌+◌, ◌-◌, ◌%◌, ◌≡◌, Bool, true, false, Option, none, some, ltb, leb, ◌==◌,
  if◌then◌else◌, update,
}
use cs111fall.Prelude.Int.{ℤ, pos, negsuc, int_eq, offset}
use cs111fall.Ospfs.Disk.{
  Disk, blksize, ndirect, nindirect, maxfileblks, add32, sub32, ospfs_block, ospfs_size2nblocks,
  zero_out_block, oi_size, oi_direct, oi_indirect, oi_indirect2,
}
use cs111fall.Ospfs.Alloc.{allocate_block, free_block}
use cs111fall.Ospfs.Index.{indir2_index, indir_index, direct_index}

-- 0, -ENOSPC and -EIO.
pub data Status : Type 0 where
  success : Status
  enospc : Status
  eio : Status

-- `oi->oi_size += OSPFS_BLKSIZE; return 0;`
unfoldable pub grow : ℕ → Disk → Status × Disk
grow oi d = (success, update d (oi_size oi) (add32 (d (oi_size oi)) blksize))

unfoldable pub store_in : (indir : ℕ) → ℕ → ℕ → ℕ → Disk → Status × Disk
store_in indir oi n new d = grow oi (update d (offset (ospfs_block indir) (direct_index n)) new)

-- The file needs its indirect block, and perhaps has none yet.
unfoldable pub add_indirect_with : ℕ → ℕ → ℕ → ℕ × Disk → Status × Disk
add_indirect_with oi n new (indir, d) =
    if indir == 0
    then (enospc, free_block new d)
    else (let d = update (zero_out_block indir d) (oi_indirect oi) indir in
        store_in (d (oi_indirect oi)) oi n new d)

unfoldable pub add_indirect : ℕ → ℕ → ℕ → Disk → Status × Disk
add_indirect oi n new d =
    if d (oi_indirect oi) == 0
    then add_indirect_with oi n new (allocate_block d)
    else store_in (d (oi_indirect oi)) oi n new d

-- Under the doubly indirect block; `indir2` is the block that this call has allocated for it, or 0.
-- `slot` is the address of the pointer to the indirect block.
unfoldable pub add_under_with : ℕ → ℕ → ℕ → ℕ → (slot : ℕ) → ℕ × Disk → Status × Disk
add_under_with oi n new indir2 slot (indir, d) =
    if indir == 0
    then (enospc, (if indir2 == 0 then free_block new d else free_block indir2 (free_block new d)))
    else store_in indir oi n new (update (zero_out_block indir d) slot indir)

unfoldable pub add_under : ℕ → ℕ → ℕ → ℕ → Disk → Status × Disk
add_under oi n new indir2 d =
    let slot = offset (ospfs_block (d (oi_indirect2 oi))) (indir_index n) in
    if d slot == 0
    then add_under_with oi n new indir2 slot (allocate_block d)
    else store_in (d slot) oi n new d

unfoldable pub add_indirect2_with : ℕ → ℕ → ℕ → ℕ × Disk → Status × Disk
add_indirect2_with oi n new (indir2, d) =
    if indir2 == 0
    then (enospc, free_block new d)
    else add_under oi n new indir2 (update (zero_out_block indir2 d) (oi_indirect2 oi) indir2)

unfoldable pub add_indirect2 : ℕ → ℕ → ℕ → Disk → Status × Disk
add_indirect2 oi n new d =
    if d (oi_indirect2 oi) == 0
    then add_indirect2_with oi n new (allocate_block d)
    else add_under oi n new 0 d

unfoldable pub add_new : ℕ → ℕ → ℕ × Disk → Status × Disk
add_new oi n (new, d) =
    let d0 = zero_out_block new d in
    if new == 0
    then (enospc, d)
    else if ltb n ndirect
    then grow oi (update d0 (oi_direct oi + n) new)
    else if ltb n (ndirect + nindirect)
    then add_indirect oi n new d0
    else add_indirect2 oi n new d0

unfoldable pub add_block : ℕ → Disk → Status × Disk
add_block oi d =
    let n = ospfs_size2nblocks (d (oi_size oi)) in
    if ltb maxfileblks n then (enospc, d) else add_new oi n (allocate_block d)

-- `free_block(*a); *a = 0;`
unfoldable pub release : ℕ → Disk → Disk
release a d = update (free_block (d a) d) a 0

-- `oi->oi_size -= OSPFS_BLKSIZE; return 0;`
unfoldable pub shrink : ℕ → Disk → Status × Disk
shrink oi d = (success, update d (oi_size oi) (sub32 (d (oi_size oi)) blksize))

unfoldable pub remove_indirect : ℕ → ℕ → Disk → Disk
remove_indirect oi n d =
    let d1 = release (offset (ospfs_block (d (oi_indirect oi))) (direct_index n)) d in
    if n == ndirect then release (oi_indirect oi) d1 else d1

unfoldable pub remove_indirect2 : ℕ → ℕ → Disk → Disk
remove_indirect2 oi n d =
    let indir = offset (ospfs_block (d (oi_indirect2 oi))) (indir_index n) in
    let d1 = release (offset (ospfs_block (d indir)) (direct_index n)) d in
    let d2 = if sub32 n ndirect % nindirect == 0 then release indir d1 else d1 in
    if n == ndirect + nindirect then release (oi_indirect2 oi) d2 else d2

unfoldable pub remove_block : ℕ → Disk → Status × Disk
remove_block oi d =
    let n = ospfs_size2nblocks (d (oi_size oi)) in
    if n == 0
    then (eio, d)
    else shrink oi (
        if int_eq (indir2_index n) (negsuc 0)
        then (if int_eq (indir_index n) (negsuc 0)
            then release (oi_direct oi + n) d
            else if int_eq (indir_index n) (pos 0)
            then remove_indirect oi n d
            else d)
        else remove_indirect2 oi n d)

abbrev pub nblocks_of : ℕ → Disk → ℕ
nblocks_of oi d = ospfs_size2nblocks (d (oi_size oi))

-- The inner loop of a growth that fails: back to the number of blocks of `old_size`. The loops run
-- on fuel; `none` means that it ran out.
unfoldable pub shrink_back : ℕ → ℕ → ℕ → Disk → Option Disk
shrink_back zero oi old_size d = none
shrink_back (suc fuel) oi old_size d =
    let rest = shrink_back fuel oi old_size (remove_block oi d).1 in
    if ltb (ospfs_size2nblocks old_size) (nblocks_of oi d) then rest else some d

-- How a loop of `change_size` ends: by its test, or by a `return` within it.
pub data Loop : Type 0 where
  ended : Disk → Loop
  returned : Status → Disk → Loop
  out_of_fuel : Loop

-- What the growing loop does with the result of `add_block`; `next` is the rest of the loop.
unfoldable pub after_add : ℕ → ℕ → ℕ → Status × Disk → (Disk → Loop) → Loop
after_add fuel oi old_size (success, d) next = next d
after_add fuel oi old_size (eio, d) next = returned eio d
after_add fuel oi old_size (enospc, d) next = elim (shrink_back fuel oi old_size d) [
  | none ↦ out_of_fuel
  | some d ↦ returned enospc (update d (oi_size oi) old_size)
]

-- `back` is the fuel for the inner loop.
unfoldable pub grow_loop : (fuel back : ℕ) → ℕ → ℕ → ℕ → Disk → Loop
grow_loop zero back oi old_size new_size d = out_of_fuel
grow_loop (suc fuel) back oi old_size new_size d =
    let rest =
      after_add back oi old_size (add_block oi d) (grow_loop fuel back oi old_size new_size) in
    if ltb (nblocks_of oi d) (ospfs_size2nblocks new_size) then rest else ended d

unfoldable pub after_remove : Status × Disk → (Disk → Loop) → Loop
after_remove (success, d) next = next d
after_remove (enospc, d) next = returned enospc d
after_remove (eio, d) next = returned eio d

unfoldable pub shrink_loop : ℕ → ℕ → ℕ → Disk → Loop
shrink_loop zero oi new_size d = out_of_fuel
shrink_loop (suc fuel) oi new_size d =
    let rest = after_remove (remove_block oi d) (shrink_loop fuel oi new_size) in
    if ltb (ospfs_size2nblocks new_size) (nblocks_of oi d) then rest else ended d

-- After the two loops the size is set.
unfoldable pub then_shrink : ℕ → ℕ → ℕ → Loop → Loop
then_shrink fuel oi new_size (ended d) = shrink_loop fuel oi new_size d
then_shrink fuel oi new_size (returned r d) = returned r d
then_shrink fuel oi new_size out_of_fuel = out_of_fuel

unfoldable pub set_size : ℕ → ℕ → Loop → Option (Status × Disk)
set_size oi new_size (ended d) = some (success, update d (oi_size oi) new_size)
set_size oi new_size (returned r d) = some (r, d)
set_size oi new_size out_of_fuel = none

unfoldable pub change_size : ℕ → ℕ → ℕ → Disk → Option (Status × Disk)
change_size fuel oi new_size d =
    set_size oi new_size
      (then_shrink fuel oi new_size (grow_loop fuel fuel oi (d (oi_size oi)) new_size d))
