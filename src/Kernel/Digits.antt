-- ===== src/Kernel/Digits.antt =====
-- `fill_numbuf` of pset4/lib.c: the digits of a number, without the NUL behind them.
mod Value
mod Tests
use cs61_f16_psets_team_md.Base.{
  ℕ, zero, suc, ◌+◌, ◌-◌, ◌*◌, ◌/◌, ◌%◌, Bool, ltb, ◌==◌, if◌then◌else◌, Option, none, some, Bytes,
  [], ◌∷◌,
}

-- The strings `upper_digits` and `lower_digits`, which differ by the letter that stands for ten.
unfoldable pub digit : Bool → ℕ → ℕ
digit lower n = if ltb n 10 then 48 + n else if lower then 87 + n else 55 + n

-- The loop, with the digits written so far. `none` is a run out of fuel.
unfoldable pub fill_digits : ℕ → Bool → ℕ → ℕ → Bytes → Option Bytes
unfolding digit
fill_digits zero lower val base done = none
fill_digits (suc fuel) lower val base done =
    let done' = digit lower (val % base) ∷ done in
    let rest = fill_digits fuel lower (val / base) base done' in
    if val / base == 0 then some done' else rest
