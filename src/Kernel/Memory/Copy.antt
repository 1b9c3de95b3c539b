-- ===== src/Kernel/Memory/Copy.antt =====
-- What memory holds behind the copies of pset4/lib.c.
use cs61_f16_psets_team_md.Base.{
  ℕ, zero, suc, ◌+◌, ◌-◌, ◌≤◌, ◌<◌, ◌≡◌, ◌⊎◌, inl, inr, ◌∙◌, tests, ◌&&◌, Bool-cases, ltb, leb,
  if◌then◌else◌, ◌%◌,
}
use cs61_f16_psets_team_md.Kernel.Memory.{Memory, store, copy_up, copy_down, memmove, memset}

-- What a copy of `n` bytes from `s` to `d` leaves at the address `q`.
abbrev pub moved : Memory → ℕ → ℕ → ℕ → ℕ → ℕ
moved m d s n q = if leb d q && ltb q (d + n) then m (q - d + s) else m q

-- A round of a copy upwards does not reach bytes that are still to be read.
moved-up :
    (m : Memory) (d s n q : ℕ)
    → (d ≤ s) ⊎ (s + suc n ≤ d)
    → moved (store m d (m s)) (d + 1) (s + 1) n q ≡ moved m d s (suc n) q
unfolding store
moved-up m d s n q h = grind (tests, h)

pub copy_up-moved :
    (m : Memory) (d s n q : ℕ) → (d ≤ s) ⊎ (s + n ≤ d) → copy_up m d s n q ≡ moved m d s n q
unfolding copy_up
copy_up-moved m d s zero q h = grind (tests)
copy_up-moved m d s (suc n) q h =
    copy_up-moved (store m d (m s)) (d + 1) (s + 1) n q (grind (tests, h)) ∙ moved-up m d s n q h

moved-down :
    (m : Memory) (d s n q : ℕ)
    → s < d
    → moved (store m (d + n) (m (s + n))) d s n q ≡ moved m d s (suc n) q
unfolding store
moved-down m d s n q h = grind (tests, h)

copy_down-moved : (m : Memory) (d s n q : ℕ) → s < d → copy_down m d s n q ≡ moved m d s n q
unfolding copy_down
copy_down-moved m d s zero q h = grind (tests)
copy_down-moved m d s (suc n) q h =
    copy_down-moved (store m (d + n) (m (s + n))) d s n q h ∙ moved-down m d s n q h

-- `memmove` leaves the `n` bytes that stood at `src` at `dst`, however the two areas overlap, and
-- every other byte as it was.
pub memmove-moved : (m : Memory) (dst src n q : ℕ) → memmove m dst src n q ≡ moved m dst src n q
unfolding memmove
memmove-moved m dst src n q = elim (Bool-cases (ltb src dst && ltb dst (src + n))) [
  | inl e ↦ rw e (copy_down-moved m dst src n q (grind (tests, e)))
  | inr e ↦ rw e (copy_up-moved m dst src n q (grind (tests, e)))
]

-- `memset` leaves the byte of `c` at the `n` addresses from `v` on, and every other byte as it was.
pub memset_lem :
    (m : Memory) (v c n q : ℕ)
    → memset m v c n q ≡ (if leb v q && ltb q (v + n) then c % 256 else m q)
unfolding memset store
memset_lem m v c zero q = grind (tests)
memset_lem m v c (suc n) q = memset_lem (store m v (c % 256)) (v + 1) c n q ∙ grind (tests)
