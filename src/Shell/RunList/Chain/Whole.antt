-- ===== src/Shell/RunList/Chain/Whole.antt =====
-- A chain of conditionals, in the shell and in its child.
use cs61_f16_psets_team_md.Base.{
  ℕ, zero, suc, ◌+◌, ◌≤◌, ◌<◌, ◌≡◌, refl, sym, ap, subst, ◌∙◌, arith, Bool, true, false,
  if◌then◌else◌, Option, none, some, List, [], ◌∷◌, ◌++◌, append-nil, Bytes, map, length,
  length-map, ℤ, pos,
}
use cs61_f16_psets_team_md.Shell.Lexer.{TokenType}
use cs61_f16_psets_team_md.Shell.CommandList.{Command}
use cs61_f16_psets_team_md.Shell.System.{Status, exited, Shell, forks, waits}
use cs61_f16_psets_team_md.Shell.Run.{
  new_cell, is_background, interrupted, waited, Loop, run_command,
}
use cs61_f16_psets_team_md.Shell.RunList.{run_loop, run_list}
use cs61_f16_psets_team_md.Shell.Behaviour.{Outcome, behind_child, behave}
use cs61_f16_psets_team_md.Shell.RunList.Step.{cells, set_prev-cells, set_prev-map, cells_new, Runs}
use cs61_f16_psets_team_md.Shell.RunList.Chain.{
  Link, operator, command_of, chain, links_started, IsProgram, AllPrograms, none_left,
  program_behind, EndsChain, Stops, run_round-program, operator_no_redirection, operator_no_pipe,
}
use cs61_f16_psets_team_md.Shell.RunList.Chain.Child.{
  program, Passes, Runs-as, extra_shells, behave-Stops, behave-foreground, behave-links,
}
use cs61_f16_psets_team_md.Shell.RunList.Chain.Parent.{
  run_conditional-inner, run_conditional-last, run_conditional-first, run_chained-child,
  run_chained-parent,
}

-- The programs of a process and its children, the shells that are left, and the processes that the
-- process itself waits for.
pub record ChainRuns (o : Outcome) (ws : List (List Bytes)) (shells : ℕ) (pids : List ℤ)
    : Type 0 where
  pub runs : Runs o ws shells
  pub waits_for : o.awaited ≡ pids

-- The shell waits for the child of a chain that is not in the background.
abbrev pub awaited_child : Option TokenType → ℕ → List ℤ
awaited_child control n = if is_background control then [] else pos n ∷ []

module _ (code : List Bytes → ℕ) (found : List Bytes → Bool) where
  Runs-joins :
      (o p : Outcome) (ws : List (List Bytes)) (k : ℕ) (pids : List ℤ)
      → Runs o ws k
      → Passes p pids
      → ChainRuns (behind_child o p) ws (k + 1) pids
  Runs-joins o p ws k pids r s = record {
    runs = record {
      programs_started =
          ap (λ x. x ++ p.started) r.programs_started
          ∙ ap (λ x. ws ++ x) s.runs.programs_started
          ∙ append-nil ws;
      shells_left = omega (arith, r.shells_left, s.runs.shells_left);
    };
    waits_for = s.waits_for;
  }

  behave-waits :
      (known : ℕ → Option Status) (n p : ℕ) (k : Option Status → Shell)
      → Passes (behave (program code found) known n (k (known p))) []
      → Passes (behave (program code found) known n (waits (pos p) k)) (pos p ∷ [])
  unfolding behave
  behave-waits known n p k r = record {
    runs = record { programs_started = r.runs.programs_started; shells_left = r.runs.shells_left };
    waits_for = ap (λ x. pos p ∷ x) r.waits_for;
  }

  behave-last_parent :
      (fuel n p : ℕ) (known : ℕ → Option Status) (status : Status) (background : Bool)
      (tail : List Command)
      → Stops tail
      → 0 < fuel
      → Passes
          (behave (program code found) known n (
            if background
            then run_loop fuel (pos 0) status (map new_cell tail)
            else waits
                (pos (suc p))
                (λ w. run_loop fuel (pos 0) (waited w status) (map new_cell tail))))
          (if background then [] else pos (suc p) ∷ [])
  behave-last_parent fuel n p known status true tail stops lt =
      subst
        (λ cs. Passes (behave (program code found) known n (run_loop fuel (pos 0) status cs)) [])
        (sym (cells_new tail))
        (behave-Stops code found known fuel n status (exited 0) tail stops lt)
  behave-last_parent fuel n p known status false tail stops lt =
      behave-waits known n (suc p)
        (λ w. run_loop fuel (pos 0) (waited w status) (map new_cell tail))
        (subst
          (λ cs.
            Passes
              (behave (program code found) known n
                (run_loop fuel (pos 0) (waited (known (suc p)) status) cs))
              [])
          (sym (cells_new tail))
          (behave-Stops code found known fuel n (waited (known (suc p)) status) (exited 0) tail
            stops lt))

  -- The shell passes over the commands of a chain, and starts nothing.
  behave-parent :
      (fuel n p : ℕ) (known : ℕ → Option Status) (status : Status) (b : Bool) (argv : List Bytes)
      (links : List Link) (control : Option TokenType) (tail : List Command)
      → IsProgram found argv
      → AllPrograms found links
      → EndsChain control
      → Stops tail
      → interrupted status ≡ false
      → length links + 1 < fuel
      → Passes
          (behave (program code found) known n (
            run_loop fuel
              (pos (suc p))
              status
              (map new_cell (chain (some (operator b)) argv links control tail))))
          (awaited_child control (suc p))
  unfolding run_loop chain
  behave-parent zero n p known status b argv links control tail pr all ends stops going lt =
      absurd (omega (arith, lt))
  behave-parent (suc fuel) n p known status b argv [] control tail pr none_left ends stops going
        lt =
      let loop : Loop = run_loop fuel in
      let rest = map new_cell tail in
      let current = new_cell (command_of (some (operator b)) argv control) in
      let e =
        run_round-program loop (pos (suc p)) status current rest pr.words pr.no_cd
          ends.no_redirection ends.no_pipe going
        ∙ run_conditional-last loop p status (exited 0) b argv control rest ends.no_operator in
      subst (λ t. Passes (behave (program code found) known n t) (awaited_child control (suc p)))
        (sym e)
        (behave-last_parent fuel n p known status (is_background control) tail stops
          (omega (arith, lt)))
  behave-parent (suc fuel) n p known status b argv _ control tail pr
        (program_behind b' argv' links pr' all) ends stops going lt =
      let loop : Loop = run_loop fuel in
      let rest = map new_cell (chain (some (operator b')) argv' links control tail) in
      let current = new_cell (command_of (some (operator b)) argv (some (operator b'))) in
      let e =
        run_round-program loop (pos (suc p)) status current rest pr.words pr.no_cd
          (operator_no_redirection b') (operator_no_pipe b') going
        ∙ run_conditional-inner loop p status (exited 0) b b' argv rest in
      subst (λ t. Passes (behave (program code found) known n t) (awaited_child control (suc p)))
        (sym e)
        (behave-parent fuel n p known status b' argv' links control tail pr' all ends stops going
          (omega (arith, lt)))

  behave-forks :
      (known : ℕ → Option Status) (n : ℕ) (k : ℤ → Shell) (ws : List (List Bytes)) (shells : ℕ)
      (pids : List ℤ)
      → Runs (behave (program code found) (λ m. none) (suc (suc n)) (k (pos 0))) ws shells
      → ((known' : ℕ → Option Status) (n' : ℕ)
          → Passes (behave (program code found) known' n' (k (pos (suc n)))) pids)
      → ChainRuns (behave (program code found) known (suc n) (forks k)) ws (shells + 1) pids
  unfolding behave
  behave-forks known n k ws shells pids r s = Runs-joins _ _ ws shells pids r (s _ _)

  -- The first command forks the child of the chain.
  behave-chain :
      (fuel n : ℕ) (known : ℕ → Option Status) (argv : List Bytes) (b : Bool) (argv' : List Bytes)
      (links : List Link) (control : Option TokenType) (tail : List Command)
      → IsProgram found argv
      → IsProgram found argv'
      → AllPrograms found links
      → EndsChain control
      → Stops tail
      → length links + 2 < fuel
      → ChainRuns
          (behave (program code found) known (suc n) (
            run_loop fuel
              (pos 0)
              (exited 0)
              (map new_cell (chain none argv ((b, argv') ∷ links) control tail))))
          (argv ∷ links_started code (code argv) ((b, argv') ∷ links))
          (extra_shells code (code argv) b argv' links + 1)
          (awaited_child control (suc n))
  unfolding run_loop chain
  behave-chain zero n known argv b argv' links control tail pr pr' all ends stops lt =
      absurd (omega (arith, lt))
  behave-chain (suc fuel) n known argv b argv' links control tail pr pr' all ends stops lt =
      let loop : Loop = run_loop fuel in
      let cs = chain (some (operator b)) argv' links control tail in
      let current = new_cell (command_of none argv (some (operator b))) in
      let lt' : length links + 1 < fuel = omega (arith, lt) in
      let e =
        run_round-program loop (pos 0) (exited 0) current (map new_cell cs) pr.words pr.no_cd
          (operator_no_redirection b) (operator_no_pipe b) refl
        ∙ run_conditional-first loop (exited 0) b argv (map new_cell cs) in
      subst
        (λ t.
          ChainRuns (behave (program code found) known (suc n) t)
            (argv ∷ links_started code (code argv) ((b, argv') ∷ links))
            (extra_shells code (code argv) b argv' links + 1) (awaited_child control (suc n)))
        (sym e)
        (behave-forks known n _ _ _ _
          (Runs-as code found (λ m. none) (suc (suc n)) _ _ _ _ _ _
            (run_chained-child loop (exited 0) b argv (map new_cell cs)
              ∙ ap (run_command loop (pos 0) (exited 0) current) (set_prev-map (exited 0) cs))
            refl refl
            (behave-foreground code found (λ m. none) (suc n) loop (exited 0) current b
              (cells (exited 0) cs) _ _ pr.executable refl
              (λ known' n'.
                Runs-as code found known' (suc n') _ _ _ _ _ _
                  (ap (loop (pos 0) ((program code found).status argv))
                    (set_prev-cells ((program code found).status argv) (exited 0) cs))
                  refl refl
                  (behave-links code found fuel n' (code argv) known'
                    ((program code found).status argv) b argv' links control tail pr' all ends stops
                    refl lt'))))
          (λ known' n'.
            subst
              (λ t.
                Passes (behave (program code found) known' n' t) (awaited_child control (suc n)))
              (sym (run_chained-parent loop (exited 0) b argv (map new_cell cs) n))
              (behave-parent fuel n' n known' (exited 0) b argv' links control tail pr' all ends
                stops refl lt')))

length-chain :
    (o : Option TokenType) (argv : List Bytes) (links : List Link) (control : Option TokenType)
    (tail : List Command)
    → length links + 1 ≤ length (chain o argv links control tail)
unfolding chain
length-chain o argv [] control tail = omega arith
length-chain o argv ((b, argv') ∷ links) control tail =
    omega (arith, length-chain (some (operator b)) argv' links control tail)

-- On a system where each fork succeeds and where the programs of a chain can be executed and exit,
-- a chain at the end of a line, before a command with no words or none at all: the first program
-- runs, and then those that the status so far asks for, in order. The shell waits for the child of
-- the chain and for no other process where the chain is not in the background, and for none where
-- it is. It goes on alone where the last command of the chain runs; where that is skipped, the
-- child goes on as a second shell.
pub run_list-chain :
    (code : List Bytes → ℕ) (found : List Bytes → Bool) (known : ℕ → Option Status) (n : ℕ)
    (argv : List Bytes) (b : Bool) (argv' : List Bytes) (links : List Link)
    (control : Option TokenType) (tail : List Command)
    → IsProgram found argv
    → AllPrograms found ((b, argv') ∷ links)
    → EndsChain control
    → Stops tail
    → ChainRuns
        (behave
          (program code found)
          known
          (suc n)
          (run_list (map new_cell (chain none argv ((b, argv') ∷ links) control tail))))
        (argv ∷ links_started code (code argv) ((b, argv') ∷ links))
        (extra_shells code (code argv) b argv' links + 1)
        (awaited_child control (suc n))
unfolding run_list
run_list-chain code found known n argv b argv' links control tail p (program_behind _ _ _ p' all)
      ends stops =
    behave-chain code found
      (length (map new_cell (chain none argv ((b, argv') ∷ links) control tail)) + 1) n known argv b
      argv' links control tail p p' all ends stops
      (omega (
        arith,
        length-chain none argv ((b, argv') ∷ links) control tail,
        length-map (chain none argv ((b, argv') ∷ links) control tail) new_cell,
      ))
