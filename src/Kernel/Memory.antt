-- ===== src/Kernel/Memory.antt =====
-- The memory functions of pset4/lib.c on a memory with a byte at each address.
pub mod Copy
mod Tests
use cs61_f16_psets_team_md.Base.{ℕ, zero, suc, ◌+◌, ◌-◌, ◌%◌, ◌&&◌, ltb, ◌==◌, if◌then◌else◌}

abbrev pub Memory : Type 0
Memory = ℕ → ℕ

-- `*p = c`.
unfoldable pub store : Memory → ℕ → ℕ → Memory
store m p c q = if q == p then c else m q

-- The loop `*d++ = *s++`, `n` times.
unfoldable pub copy_up : Memory → ℕ → ℕ → ℕ → Memory
unfolding store
copy_up m d s zero = m
copy_up m d s (suc n) = copy_up (store m d (m s)) (d + 1) (s + 1) n

-- The loop `*--d = *--s`, `n` times, from the ends of both areas.
unfoldable pub copy_down : Memory → ℕ → ℕ → ℕ → Memory
unfolding store
copy_down m d s zero = m
copy_down m d s (suc n) = copy_down (store m (d + n) (m (s + n))) d s n

unfoldable pub memmove : Memory → ℕ → ℕ → ℕ → Memory
unfolding copy_up copy_down
memmove m dst src n =
    if ltb src dst && ltb dst (src + n) then copy_down m dst src n else copy_up m dst src n

-- `c` is converted to a byte.
unfoldable pub memset : Memory → ℕ → ℕ → ℕ → Memory
unfolding store
memset m v c zero = m
memset m v c (suc n) = memset (store m v (c % 256)) (v + 1) c n
