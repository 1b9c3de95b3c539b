-- ===== src/Shell/RunList/Chain/Parent.antt =====
-- The branches that the shell takes on the commands of a chain of conditionals.
use cs61_f16_psets_team_md.Base.{
  ℕ, suc, ◌≡◌, refl, arith, tests, Bool, true, false, if◌then◌else◌, ◌==◌, Option, none, some, List,
  Bytes, pos,
}
use cs61_f16_psets_team_md.Shell.Lexer.{TokenType}
use cs61_f16_psets_team_md.Shell.System.{Status, exited, forks, waits}
use cs61_f16_psets_team_md.Shell.Run.{
  Cell, new_cell, is_background, is_and_or, waited, set_prev, Loop, skips, run_command, end_chain,
  run_chained, run_conditional,
}
use cs61_f16_psets_team_md.Shell.RunList.Chain.{operator, command_of}

suc_not_zero : (p : ℕ) → (suc p == 0) ≡ false
suc_not_zero p = grind (arith, tests)

-- The branches of the shell itself, at a command of a chain and at its last one.
pub run_conditional-inner :
    (loop : Loop) (p : ℕ) (status prev : Status) (b b' : Bool) (argv : List Bytes)
    (rest : List Cell)
    → run_conditional loop
        (pos (suc p))
        status
        (record (new_cell (command_of (some (operator b)) argv (some (operator b')))) {
          prev_status = prev;
        })
        rest
      ≡ loop (pos (suc p)) status rest
unfolding run_conditional run_chained
run_conditional-inner loop p status prev true true argv rest = rw (suc_not_zero p) refl
run_conditional-inner loop p status prev true false argv rest = rw (suc_not_zero p) refl
run_conditional-inner loop p status prev false true argv rest = rw (suc_not_zero p) refl
run_conditional-inner loop p status prev false false argv rest = rw (suc_not_zero p) refl

-- At the last command the shell waits for the child, unless the chain is in the background.
pub run_conditional-last :
    (loop : Loop) (p : ℕ) (status prev : Status) (b : Bool) (argv : List Bytes)
    (control : Option TokenType) (rest : List Cell)
    → is_and_or control ≡ false
    → run_conditional loop
        (pos (suc p))
        status
        (record (new_cell (command_of (some (operator b)) argv control)) { prev_status = prev })
        rest
      ≡ (if is_background control
          then loop (pos 0) status rest
          else waits (pos (suc p)) (λ w. loop (pos 0) (waited w status) rest))
unfolding run_conditional run_chained end_chain
run_conditional-last loop p status prev true argv control rest e = rw (e, suc_not_zero p) refl
run_conditional-last loop p status prev false argv control rest e = rw (e, suc_not_zero p) refl

-- The first command forks.
pub run_conditional-first :
    (loop : Loop) (status : Status) (b : Bool) (argv : List Bytes) (rest : List Cell)
    → run_conditional loop (pos 0) status (new_cell (command_of none argv (some (operator b)))) rest
      ≡ forks (run_chained loop status (new_cell (command_of none argv (some (operator b)))) rest)
unfolding run_conditional
run_conditional-first loop status true argv rest = refl
run_conditional-first loop status false argv rest = refl

pub run_chained-child :
    (loop : Loop) (status : Status) (b : Bool) (argv : List Bytes) (rest : List Cell)
    → run_chained loop status (new_cell (command_of none argv (some (operator b)))) rest (pos 0)
      ≡ run_command loop
          (pos 0)
          status
          (new_cell (command_of none argv (some (operator b))))
          (set_prev (exited 0) rest)
unfolding run_chained skips end_chain
run_chained-child loop status true argv rest = refl
run_chained-child loop status false argv rest = refl

pub run_chained-parent :
    (loop : Loop) (status : Status) (b : Bool) (argv : List Bytes) (rest : List Cell) (p : ℕ)
    → run_chained loop status
        (new_cell (command_of none argv (some (operator b))))
        rest
        (pos (suc p))
      ≡ loop (pos (suc p)) status rest
unfolding run_chained
run_chained-parent loop status true argv rest p = rw (suc_not_zero p) refl
run_chained-parent loop status false argv rest p = rw (suc_not_zero p) refl
