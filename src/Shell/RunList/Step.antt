-- ===== src/Shell/RunList/Step.antt =====
-- What a round of `run_list` executes.
use cs61_f16_psets_team_md.Base.{
  ℤ, ℕ, suc, ◌≡◌, refl, ap, arith, tests, inl, inr, true, false, if◌then◌else◌, ◌==◌, Option, List,
  [], ◌∷◌, Bytes, map, length, length-map, Bool-cases, is_empty, pos,
}
use cs61_f16_psets_team_md.Shell.CommandList.{Command}
use cs61_f16_psets_team_md.Shell.System.{Status, exited, returns}
use cs61_f16_psets_team_md.Shell.Run.{
  Cell, new_cell, is_background, interrupted, set_prev, Loop, start_command, run_command,
}
use cs61_f16_psets_team_md.Shell.RunList.{run_round}
use cs61_f16_psets_team_md.Shell.Behaviour.{World, Outcome, behind_child, ended, learn, behave}

-- The state in which the loop comes to the rest of the list.
abbrev pub cells : Status → List Command → List Cell
cells prev [] = []
cells prev (c ∷ cs) = record (new_cell c) { prev_status = prev } ∷ map new_cell cs

pub run_round-empty :
    (loop : Loop) (status : Status) (current : Cell) (rest : List Cell)
    → is_empty current.command.argv ≡ true
    → run_round loop (pos 0) status current rest ≡ returns
unfolding run_round
run_round-empty loop status current rest e = rw e refl

pub run_round-interrupted :
    (loop : Loop) (status : Status) (current : Cell) (rest : List Cell)
    → is_empty current.command.argv ≡ false
    → interrupted status ≡ true
    → run_round loop (pos 0) status current rest ≡ returns
unfolding run_round
run_round-interrupted loop status current rest words e = rw (words, e) refl

pub set_prev-cells : (s s' : Status) (cs : List Command) → set_prev s (cells s' cs) ≡ cells s cs
set_prev-cells s s' [] = refl
set_prev-cells s s' (c ∷ cs) = refl

pub set_prev-map : (s : Status) (cs : List Command) → set_prev s (map new_cell cs) ≡ cells s cs
set_prev-map s [] = refl
set_prev-map s (c ∷ cs) = refl

pub cells_new : (cs : List Command) → map new_cell cs ≡ cells (exited 0) cs
cells_new [] = refl
cells_new (c ∷ cs) = refl

pub length-cells : (s : Status) (cs : List Command) → length (cells s cs) ≡ length cs
length-cells s [] = refl
length-cells s (c ∷ cs) = ap suc (length-map cs new_cell)

-- The programs that are executed, and the number of processes that go on as a shell.
pub record Runs (o : Outcome) (programs : List (List Bytes)) (shells : ℕ) : Type 0 where
  pub programs_started : o.started ≡ programs
  pub shells_left : o.shells ≡ shells

-- A child that has executed `argv`.
abbrev pub executed : World → List Bytes → ℕ → Outcome
executed program argv n = record {
  started = argv ∷ [];
  shells = 0;
  ending = ended (program.status argv);
  next_pid = n;
  awaited = [];
}

pub Runs-behind :
    (program : World) (argv : List Bytes) (n : ℕ) (o : Outcome) (programs : List (List Bytes))
    (shells : ℕ)
    → Runs o programs shells
    → Runs (behind_child (executed program argv n) o) (argv ∷ programs) shells
Runs-behind program argv n o programs shells r = record {
  programs_started = ap (◌∷◌ argv) r.programs_started;
  shells_left = omega (arith, r.shells_left);
}

-- What a process waits for changes nothing of this.
pub Runs-awaited :
    (o : Outcome) (programs : List (List Bytes)) (shells : ℕ) (pids : List ℤ)
    → Runs o programs shells
    → Runs (record o { awaited = pids }) programs shells
Runs-awaited o programs shells pids r = record {
  programs_started = r.programs_started;
  shells_left = r.shells_left;
}

pub Runs-returns :
    (program : World) (known : ℕ → Option Status) (n : ℕ)
    → Runs (behave program known n returns) [] 1
unfolding behave
Runs-returns program known n = record { programs_started = refl; shells_left = refl }

module _ (program : World) where
  -- `run_command` starts its command, and goes on with its status.
  pub behave-run_command :
      (known : ℕ → Option Status) (n : ℕ) (loop : Loop) (status : Status) (current : Cell)
      (rest : List Cell) (programs : List (List Bytes)) (shells : ℕ)
      → program.found current.command.argv ≡ true
      → ((known' : ℕ → Option Status) (n' : ℕ)
          → Runs
              (behave program known' (suc n') (
                if is_background current.command.control
                then loop (pos 0) status rest
                else loop
                    (pos 0)
                    (program.status current.command.argv)
                    (set_prev (program.status current.command.argv) rest)))
              programs
              shells)
      → Runs
          (behave program known (suc n) (run_command loop (pos 0) status current rest))
          (current.command.argv ∷ programs)
          shells
  unfolding behave run_command start_command
  behave-run_command known n loop status current rest programs shells ok h =
      let fresh : (suc n == 0) ≡ false = grind (arith, tests) in
      let same : (suc n == suc n) ≡ true = grind (arith, tests) in
      let known' = learn known (suc n) (program.status current.command.argv) in
      let after = h known' (suc n) in
      elim (Bool-cases (is_background current.command.control)) [
        | inl e ↦
            rw (fresh, ok, e)
              (Runs-behind program current.command.argv (suc (suc n)) _ programs shells
                (rw e at after))
        | inr e ↦
            rw (fresh, ok, e, same)
              (Runs-behind program current.command.argv (suc (suc n)) _ programs shells
                (Runs-awaited _ programs shells _ (rw e at after)))
      ]
