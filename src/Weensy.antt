-- ===== src/Weensy.antt =====
-- weensyos1/lib.c, of which weensyos2/lib.c is a copy: memory and string functions of the kernels.
pub mod Copy
pub mod Registers
mod Tests
use cs111fall.Prelude.{
  ℕ, zero, suc, ◌+◌, ◌-◌, ltb, leb, ◌&&◌, if◌then◌else◌, update, ◌==◌, Option, none, some,
}

-- Byte memory by address.
abbrev pub Memory : Type 0
Memory = ℕ → ℕ

-- `while (n-- > 0) *d++ = *s++;`
unfoldable pub memcpy : ℕ → ℕ → ℕ → Memory → Memory
memcpy dst src zero m = m
memcpy dst src (suc n) m = memcpy (dst + 1) (src + 1) n (update m dst (m src))

-- `while (n-- > 0) *--d = *--s;`, from the ends of both regions.
unfoldable pub copy_down : ℕ → ℕ → ℕ → Memory → Memory
copy_down d s zero m = m
copy_down d s (suc n) m = copy_down (d - 1) (s - 1) n (update m (d - 1) (m (s - 1)))

unfoldable pub memmove : ℕ → ℕ → ℕ → Memory → Memory
memmove dst src n m =
    if ltb src dst && ltb dst (src + n)
    then copy_down (dst + n) (src + n) n m
    else memcpy dst src n m

-- `while (n-- > 0) *p++ = c;`
unfoldable pub memset : ℕ → ℕ → ℕ → Memory → Memory
memset p c zero m = m
memset p c (suc n) m = memset (p + 1) c n (update m p c)

-- The loops end at a null byte; fuel bounds the walk, and `none` means that it ran out.
unfoldable pub strlen_from : ℕ → ℕ → ℕ → Memory → Option ℕ
strlen_from zero s n m = none
strlen_from (suc fuel) s n m =
    let rest = strlen_from fuel (s + 1) (n + 1) m in if m s == 0 then some n else rest

unfoldable pub strlen : ℕ → ℕ → Memory → Option ℕ
strlen fuel s m = strlen_from fuel s 0 m

-- `maxlen` counts down what `n != maxlen` leaves.
unfoldable pub strnlen_from : ℕ → ℕ → ℕ → Memory → ℕ
strnlen_from zero s n m = n
strnlen_from (suc left) s n m =
    let rest = strnlen_from left (s + 1) (n + 1) m in if m s == 0 then n else rest

unfoldable pub strnlen : ℕ → ℕ → Memory → ℕ
strnlen maxlen s m = strnlen_from maxlen s 0 m
