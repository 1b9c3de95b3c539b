-- ===== src/Shell/RunList/Chain/Child.antt =====
-- The child that runs a chain of conditionals.
use cs61_f16_psets_team_md.Base.{
  ℕ, zero, suc, ◌+◌, ◌<◌, ◌≡◌, refl, sym, ap, subst, ℤ, ◌∙◌, arith, tests, inl, inr, Bool, true,
  false, if◌then◌else◌, ◌==◌, Option, some, List, [], ◌∷◌, Bytes, map, length, Bool-cases, pos,
}
use cs61_f16_psets_team_md.Shell.Lexer.{TokenType}
use cs61_f16_psets_team_md.Shell.CommandList.{Command}
use cs61_f16_psets_team_md.Shell.System.{Status, exited, Shell, returns}
use cs61_f16_psets_team_md.Shell.Run.{
  Cell, new_cell, is_background, is_and_or, interrupted, set_prev, Loop, start_command, run_command,
  end_chain,
}
use cs61_f16_psets_team_md.Shell.RunList.{run_loop}
use cs61_f16_psets_team_md.Shell.Behaviour.{World, Outcome, behave}
use cs61_f16_psets_team_md.Shell.RunList.Step.{
  cells, run_round-empty, set_prev-cells, set_prev-map, Runs, Runs-returns, behave-run_command,
}
use cs61_f16_psets_team_md.Shell.RunList.Chain.{
  Link, operator, chain, link_runs, links_started, last_runs, IsProgram, AllPrograms, none_left,
  program_behind, EndsChain, Stops, at_end, at_empty, run_round-program, operator-is_and_or,
  operator_no_redirection, operator_no_pipe, link_cell, run_conditional-skipped,
  run_conditional-run, end_chain-inner,
}

-- A process that starts nothing and goes on as a shell, and what it waits for.
pub record Passes (o : Outcome) (pids : List ℤ) : Type 0 where
  pub runs : Runs o [] 1
  pub waits_for : o.awaited ≡ pids

pub Passes-returns :
    (program : World) (known : ℕ → Option Status) (n : ℕ)
    → Passes (behave program known n returns) []
unfolding behave
Passes-returns program known n = record { runs = Runs-returns program known n; waits_for = refl }

module _ (code : List Bytes → ℕ) where
  links_started-run :
      (m : ℕ) (b : Bool) (argv : List Bytes) (links : List Link)
      → link_runs b m ≡ true
      → links_started code m ((b, argv) ∷ links) ≡ argv ∷ links_started code (code argv) links
  unfolding links_started
  links_started-run m b argv links e = rw e refl

  links_started-skip :
      (m : ℕ) (b : Bool) (argv : List Bytes) (links : List Link)
      → link_runs b m ≡ false
      → links_started code m ((b, argv) ∷ links) ≡ links_started code m links
  unfolding links_started
  links_started-skip m b argv links e = rw e refl

  -- The processes that go on as a shell where the last command runs, and where it does not.
  abbrev pub extra_shells : ℕ → Bool → List Bytes → List Link → ℕ
  extra_shells m b argv links = if last_runs code m b argv links then 0 else 1

  last_shells :
      (m : ℕ) (b r : Bool) (argv : List Bytes)
      → link_runs b m ≡ r
      → extra_shells m b argv [] ≡ (if r then 0 else 1)
  unfolding last_runs
  last_shells m b r argv e = ap (λ x. if x then 0 else 1) e

  inner_shells :
      (m : ℕ) (b r b' : Bool) (argv argv' : List Bytes) (links : List Link)
      → link_runs b m ≡ r
      → extra_shells m b argv ((b', argv') ∷ links)
        ≡ extra_shells (if r then code argv else m) b' argv' links
  unfolding last_runs
  inner_shells m b r b' argv argv' links e =
      ap (λ x. extra_shells (if x then code argv else m) b' argv' links) e

module _ (code : List Bytes → ℕ) (found : List Bytes → Bool) where
  abbrev pub program : World
  program = record { found = found; status = λ argv. exited (code argv) }

  pub Runs-as :
      (known : ℕ → Option Status) (n : ℕ) (t t' : Shell) (ws ws' : List (List Bytes)) (k k' : ℕ)
      → t' ≡ t
      → ws' ≡ ws
      → k' ≡ k
      → Runs (behave program known n t) ws k
      → Runs (behave program known n t') ws' k'
  Runs-as known n t t' ws ws' k k' et ew ek r = record {
    programs_started =
        ap (λ x. (behave program known n x).started) et ∙ r.programs_started ∙ sym ew;
    shells_left = ap (λ x. (behave program known n x).shells) et ∙ r.shells_left ∙ sym ek;
  }

  pub behave-Stops :
      (known : ℕ → Option Status) (fuel n : ℕ) (status prev : Status) (tail : List Command)
      → Stops tail
      → 0 < fuel
      → Passes (behave program known n (run_loop fuel (pos 0) status (cells prev tail))) []
  unfolding run_loop
  behave-Stops known zero n status prev tail s lt = absurd (omega (arith, lt))
  behave-Stops known (suc fuel) n status prev _ at_end lt = Passes-returns program known n
  behave-Stops known (suc fuel) n status prev _ (at_empty c cs e) lt =
      let cell : Cell = record (new_cell c) { prev_status = prev } in
      subst (λ t. Passes (behave program known n t) [])
        (sym (run_round-empty (run_loop fuel) status cell (map new_cell cs) e))
        (Passes-returns program known n)

  -- The last command of a chain runs in a child of the child, which then exits.
  behave-last :
      (known : ℕ → Option Status) (n : ℕ) (loop : Loop) (status : Status) (b : Bool)
      (argv : List Bytes) (control : Option TokenType) (m : ℕ) (rest : List Cell)
      → found argv ≡ true
      → is_and_or control ≡ false
      → Runs
          (behave program known
            (suc n)
            (end_chain loop (pos 0) status (link_cell b argv control m) rest))
          (argv ∷ [])
          0
  unfolding end_chain start_command behave
  behave-last known n loop status b argv control m rest ok e =
      let fresh : (suc n == 0) ≡ false = grind (arith, tests) in
      rw (operator-is_and_or b, e, fresh, ok)
        (record { programs_started = refl; shells_left = refl })

  background_operator : (b : Bool) → is_background (some (operator b)) ≡ false
  background_operator true = refl
  background_operator false = refl

  -- A command of a chain that another follows runs, and hands on its status.
  pub behave-foreground :
      (known : ℕ → Option Status) (n : ℕ) (loop : Loop) (status : Status) (current : Cell)
      (b : Bool) (rest : List Cell) (programs : List (List Bytes)) (shells : ℕ)
      → found current.command.argv ≡ true
      → current.command.control ≡ some (operator b)
      → ((known' : ℕ → Option Status) (n' : ℕ)
          → Runs
              (behave program known' (suc n') (
                loop
                  (pos 0)
                  (program.status current.command.argv)
                  (set_prev (program.status current.command.argv) rest)))
              programs
              shells)
      → Runs
          (behave program known (suc n) (run_command loop (pos 0) status current rest))
          (current.command.argv ∷ programs)
          shells
  behave-foreground known n loop status current b rest programs shells ok e h =
      behave-run_command program known n loop status current rest programs shells ok
        (λ known' n'. rw (e, background_operator b) (h known' n'))

  -- The child of a chain, at a command behind an operator, with the status so far.
  pub behave-links :
      (fuel n m : ℕ) (known : ℕ → Option Status) (status : Status) (b : Bool) (argv : List Bytes)
      (links : List Link) (control : Option TokenType) (tail : List Command)
      → IsProgram found argv
      → AllPrograms found links
      → EndsChain control
      → Stops tail
      → interrupted status ≡ false
      → length links + 1 < fuel
      → Runs
          (behave program known (suc n) (
            run_loop fuel
              (pos 0)
              status
              (cells (exited m) (chain (some (operator b)) argv links control tail))))
          (links_started code m ((b, argv) ∷ links))
          (extra_shells code m b argv links)
  unfolding run_loop chain links_started
  behave-links zero n m known status b argv links control tail p all ends stops going lt =
      absurd (omega (arith, lt))
  behave-links (suc fuel) n m known status b argv [] control tail p none_left ends stops going lt =
      let current = link_cell b argv control m in
      let loop : Loop = run_loop fuel in
      let rest = map new_cell tail in
      let entered =
        run_round-program loop (pos 0) status current rest p.words p.no_cd ends.no_redirection
          ends.no_pipe going in
      elim (Bool-cases (link_runs b m)) [
        | inl e ↦
            Runs-as known (suc n) _ _ _ _ _ _
              (entered ∙ run_conditional-run loop status b argv control m rest e)
              (links_started-run code m b argv [] e) (last_shells code m b true argv e)
              (behave-last known n loop status b argv control m _ p.executable ends.no_operator)
        | inr e ↦
            Runs-as known (suc n) _ _ _ _ _ _
              (entered
                ∙ run_conditional-skipped loop status b argv control m rest e
                ∙ ap (loop (pos 0) status) (set_prev-map (exited m) tail))
              (links_started-skip code m b argv [] e) (last_shells code m b false argv e)
              (behave-Stops known fuel (suc n) status (exited m) tail stops
                (omega (arith, lt))).runs
      ]
  behave-links (suc fuel) n m known status b argv _ control tail p
        (program_behind b' argv' links p' all) ends stops going lt =
      let cs = chain (some (operator b')) argv' links control tail in
      let current = link_cell b argv (some (operator b')) m in
      let loop : Loop = run_loop fuel in
      let entered =
        run_round-program loop (pos 0) status current (map new_cell cs) p.words p.no_cd
          (operator_no_redirection b') (operator_no_pipe b') going in
      elim (Bool-cases (link_runs b m)) [
        | inl e ↦
            Runs-as known (suc n) _ _ _ _ _ _
              (entered
                ∙ run_conditional-run loop status b argv (some (operator b')) m (map new_cell cs) e
                ∙ end_chain-inner loop (pos 0) status b b' argv m _
                ∙ ap (run_command loop (pos 0) status current) (set_prev-map (exited m) cs))
              (links_started-run code m b argv ((b', argv') ∷ links) e)
              (inner_shells code m b true b' argv argv' links e)
              (behave-foreground known n loop status current b' (cells (exited m) cs) _ _
                p.executable refl
                (λ known' n'.
                  Runs-as known' (suc n') _ _ _ _ _ _
                    (ap (loop (pos 0) (program.status argv))
                      (set_prev-cells (program.status argv) (exited m) cs))
                    refl refl
                    (behave-links fuel n' (code argv) known' (program.status argv) b' argv' links
                      control tail p' all ends stops refl (omega (arith, lt)))))
        | inr e ↦
            Runs-as known (suc n) _ _ _ _ _ _
              (entered
                ∙ run_conditional-skipped loop status b argv (some (operator b')) m
                    (map new_cell cs) e
                ∙ ap (loop (pos 0) status) (set_prev-map (exited m) cs))
              (links_started-skip code m b argv ((b', argv') ∷ links) e)
              (inner_shells code m b false b' argv argv' links e)
              (behave-links fuel n m known status b' argv' links control tail p' all ends stops
                going (omega (arith, lt)))
      ]
