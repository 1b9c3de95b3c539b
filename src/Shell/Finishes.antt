-- ===== src/Shell/Finishes.antt =====
-- Trees of calls that end: no branch of them runs out of fuel.
use cs61_f16_psets_team_md.Base.{
  ℕ, ◌≤◌, Bool, true, false, if◌then◌else◌, Option, List, [], ◌∷◌, Bytes, length, ℤ,
}
use cs61_f16_psets_team_md.Shell.System.{
  Status, OpenMode, Action, Shell, forks, waits, execs, pipes, opens, chdirs, acts, returns, exits,
  undefined,
}
use cs61_f16_psets_team_md.Shell.Run.{Cell, set_prev, Loop}

pub data Finishes : Shell → Type 0 where
  forking : {k : ℤ → Shell} → ((pid : ℤ) → Finishes (k pid)) → Finishes (forks k)
  waiting :
      {pid : ℤ} {k : Option Status → Shell}
      → ((w : Option Status) → Finishes (k w))
      → Finishes (waits pid k)
  executing :
      {argv : List Bytes} {failing : Shell} → Finishes failing → Finishes (execs argv failing)
  piping :
      {k : Option (ℤ × ℤ) → Shell} → ((r : Option (ℤ × ℤ)) → Finishes (k r)) → Finishes (pipes k)
  opening :
      {mode : OpenMode} {file : Bytes} {k : ℤ → Shell}
      → ((fd : ℤ) → Finishes (k fd))
      → Finishes (opens mode file k)
  changing :
      {dir : Option Bytes} {k : Bool → Shell}
      → ((done : Bool) → Finishes (k done))
      → Finishes (chdirs dir k)
  acting : {action : Action} {then_do : Shell} → Finishes then_do → Finishes (acts action then_do)
  returning : Finishes returns
  exiting : (n : ℕ) → Finishes (exits n)
  stuck : Finishes undefined

pub if_Finishes : (b : Bool) (x y : Shell) → Finishes x → Finishes y → Finishes (if b then x else y)
if_Finishes true x y hx hy = hx
if_Finishes false x y hx hy = hy

-- A loop that ends on every list of `n` commands at most.
abbrev pub FinishesOn : ℕ → Loop → Type 0
FinishesOn n loop =
    (pid : ℤ) (status : Status) (cells : List Cell)
    → length cells ≤ n
    → Finishes (loop pid status cells)

pub set_prev_le :
    (status : Status) (cells : List Cell) (n : ℕ)
    → length cells ≤ n
    → length (set_prev status cells) ≤ n
set_prev_le status [] n h = h
set_prev_le status (c ∷ cs) n h = h
