-- ===== src/Shell/RunList/Chain.antt =====
-- Chains of commands joined by && and ||, at the end of a line, and the branches of a round of
-- `run_list` that they take.
pub mod Whole
pub mod Child
pub mod Parent
use cs61_f16_psets_team_md.Base.{
  ℕ, zero, suc, ◌+◌, ◌≤◌, ◌<◌, ◌≡◌, refl, sym, ap, subst, ◌∙◌, arith, tests, inl, inr, Bool, true,
  false, not, ◌&&◌, ◌||◌, if◌then◌else◌, ◌==◌, Option, none, some, List, [], ◌∷◌, ◌++◌, Bytes, map,
  length, Bool-cases, is_empty, ℤ, pos, negsuc,
}
use cs61_f16_psets_team_md.Shell.Lexer.{TokenType, and, or}
use cs61_f16_psets_team_md.Shell.CommandList.{Command}
use cs61_f16_psets_team_md.Shell.System.{Status, exited, signaled, Shell, forks, returns}
use cs61_f16_psets_team_md.Shell.Run.{
  Cell, new_cell, is_pipe, is_redirection, is_background, is_and, is_or, is_and_or, is_zero,
  interrupted, waited, set_prev, Loop, skips, start_command, run_command, end_chain, run_chained,
  run_conditional,
}
use cs61_f16_psets_team_md.Shell.Pipeline.{run_pipeline}
use cs61_f16_psets_team_md.Shell.Redirect.{is_cd, run_redirection}
use cs61_f16_psets_team_md.Shell.RunList.{run_round, run_loop, run_list}
use cs61_f16_psets_team_md.Shell.Behaviour.{
  Outcome, behind_child, Ending, ended, returned, learn, status_of, behave,
}
use cs61_f16_psets_team_md.Shell.RunList.Step.{
  cells, run_round-empty, set_prev-cells, set_prev-map, length-cells, Runs, Runs-behind,
  Runs-returns, executed, behave-run_command,
}

-- A command behind an operator, && for `true`.
abbrev pub Link : Type 0
Link = Bool × List Bytes

abbrev pub operator : Bool → TokenType
operator true = and
operator false = or

-- The commands of a chain, where `control` is the operator behind its last one, and `tail` what
-- follows.
abbrev pub command_of : Option TokenType → List Bytes → Option TokenType → Command
command_of conditional argv control = record {
  argv = argv;
  control = control;
  conditional = conditional;
  redirect_token = none;
}

unfoldable pub chain :
    Option TokenType → List Bytes → List Link → Option TokenType → List Command → List Command
chain conditional argv [] control tail = command_of conditional argv control ∷ tail
chain conditional argv ((b, argv') ∷ links) control tail =
    command_of conditional argv (some (operator b))
    ∷ chain (some (operator b)) argv' links control tail

-- The rules of the shell's language: a command behind && runs if the status so far is 0, and one
-- behind || if it is not. A command that is skipped leaves the status.
abbrev pub link_runs : Bool → ℕ → Bool
link_runs true status = status == 0
link_runs false status = not (status == 0)

unfoldable pub links_started : (List Bytes → ℕ) → ℕ → List Link → List (List Bytes)
links_started code status [] = []
links_started code status ((b, argv) ∷ links) =
    if link_runs b status
    then argv ∷ links_started code (code argv) links
    else links_started code status links

-- Whether the last command of a chain runs.
unfoldable pub last_runs : (List Bytes → ℕ) → ℕ → Bool → List Bytes → List Link → Bool
last_runs code status b argv [] = link_runs b status
last_runs code status b argv ((b', argv') ∷ links) =
    last_runs code (if link_runs b status then code argv else status) b' argv' links

-- What a command of a chain has to be.
pub record IsProgram (found : List Bytes → Bool) (argv : List Bytes) : Type 0 where
  pub executable : found argv ≡ true
  pub words : is_empty argv ≡ false
  pub no_cd : is_cd argv ≡ false

pub data AllPrograms (found : List Bytes → Bool) : List Link → Type 0 where
  none_left : AllPrograms found []
  program_behind :
      (b : Bool) (argv : List Bytes) (links : List Link)
      → IsProgram found argv
      → AllPrograms found links
      → AllPrograms found ((b, argv) ∷ links)

-- What stands behind the last command: an operator that ends the chain.
pub record EndsChain (control : Option TokenType) : Type 0 where
  pub no_redirection : is_redirection control ≡ false
  pub no_pipe : is_pipe control ≡ false
  pub no_operator : is_and_or control ≡ false

-- The end of the list, or the empty command that follows a last operator.
pub data Stops : List Command → Type 0 where
  at_end : Stops []
  at_empty : (c : Command) (cs : List Command) → is_empty c.argv ≡ true → Stops (c ∷ cs)

pub run_round-program :
    (loop : Loop) (pid : ℤ) (status : Status) (current : Cell) (rest : List Cell)
    → is_empty current.command.argv ≡ false
    → is_cd current.command.argv ≡ false
    → is_redirection current.command.control ≡ false
    → is_pipe current.command.control ≡ false
    → interrupted status ≡ false
    → run_round loop pid status current rest ≡ run_conditional loop pid status current rest
unfolding run_round
run_round-program loop pid status current rest words no_cd no_redirection no_pipe going =
    rw (words, going, no_redirection, no_cd, no_pipe) refl

pub operator-is_and_or : (b : Bool) → is_and_or (some (operator b)) ≡ true
operator-is_and_or true = refl
operator-is_and_or false = refl

abbrev pub link_cell : Bool → List Bytes → Option TokenType → ℕ → Cell
link_cell b argv control m = record (new_cell (command_of (some (operator b)) argv control)) {
  prev_status = exited m;
}

and_false : (x : Bool) → (x && false) ≡ false
and_false true = refl
and_false false = refl

not-false : (x : Bool) → not x ≡ false → x ≡ true
not-false true e = refl
not-false false e = absurd (grind (tests, e))

not-true : (x : Bool) → not x ≡ true → x ≡ false
not-true true e = absurd (grind (tests, e))
not-true false e = refl

-- In the child, a link that is skipped hands the status on.
pub run_conditional-skipped :
    (loop : Loop) (status : Status) (b : Bool) (argv : List Bytes) (control : Option TokenType)
    (m : ℕ) (rest : List Cell)
    → link_runs b m ≡ false
    → run_conditional loop (pos 0) status (link_cell b argv control m) rest
      ≡ loop (pos 0) status (set_prev (exited m) rest)
unfolding run_conditional run_chained skips
run_conditional-skipped loop status true argv control m rest e =
    rw (and_false (is_and_or control), e) refl
run_conditional-skipped loop status false argv control m rest e =
    let zero_status : (m == 0) ≡ true = not-false (m == 0) e in
    rw (and_false (is_and_or control), zero_status) refl

pub run_conditional-run :
    (loop : Loop) (status : Status) (b : Bool) (argv : List Bytes) (control : Option TokenType)
    (m : ℕ) (rest : List Cell)
    → link_runs b m ≡ true
    → run_conditional loop (pos 0) status (link_cell b argv control m) rest
      ≡ end_chain loop (pos 0) status (link_cell b argv control m) (set_prev (exited m) rest)
unfolding run_conditional run_chained skips
run_conditional-run loop status true argv control m rest e =
    rw (and_false (is_and_or control), e) refl
run_conditional-run loop status false argv control m rest e =
    let other_status : (m == 0) ≡ false = not-true (m == 0) e in
    rw (and_false (is_and_or control), other_status) refl

pub end_chain-inner :
    (loop : Loop) (pid : ℤ) (status : Status) (b b' : Bool) (argv : List Bytes) (m : ℕ)
    (rest : List Cell)
    → end_chain loop pid status (link_cell b argv (some (operator b')) m) rest
      ≡ run_command loop pid status (link_cell b argv (some (operator b')) m) rest
unfolding end_chain
end_chain-inner loop pid status true true argv m rest = refl
end_chain-inner loop pid status true false argv m rest = refl
end_chain-inner loop pid status false true argv m rest = refl
end_chain-inner loop pid status false false argv m rest = refl

pub operator_no_redirection : (b : Bool) → is_redirection (some (operator b)) ≡ false
operator_no_redirection true = refl
operator_no_redirection false = refl

pub operator_no_pipe : (b : Bool) → is_pipe (some (operator b)) ≡ false
operator_no_pipe true = refl
operator_no_pipe false = refl
