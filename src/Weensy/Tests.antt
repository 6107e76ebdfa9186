-- ===== src/Weensy/Tests.antt =====
-- The memory functions of weensyos1/lib.c at a small memory.
use cs111fall.Weensy.Copy.{Moved, memmove-Moved}
use cs111fall.Prelude.{◌≡◌, refl, some, ◌==◌, if◌then◌else◌}
use cs111fall.Weensy.{Memory, memmove, copy_down, strlen, strlen_from}

-- The string "\4\5\6" at address 3.
abbrev three : Memory
three a = if a == 3 then 4 else if a == 4 then 5 else if a == 5 then 6 else 0

-- The destination starts within the source.
memmove_test : memmove 4 3 3 three 6 ≡ 6
unfolding memmove copy_down
memmove_test = refl

strlen_test : strlen 5 3 three ≡ some 3
unfolding strlen strlen_from
strlen_test = refl

memmove-Moved_example : Moved 4 3 3 three (memmove 4 3 3 three)
memmove-Moved_example = memmove-Moved 4 3 3 three
