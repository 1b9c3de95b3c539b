-- ===== src/Shell/RunList/Sequence.antt =====
-- What `run_list` runs of a list of commands without pipes, redirections, conditionals and `cd`.
use cs61_f16_psets_team_md.Base.{
  ℕ, zero, suc, ◌+◌, ◌<◌, ◌≡◌, refl, sym, ap, subst, ◌∙◌, arith, tests, inl, inr, Bool, true, false,
  ◌||◌, if◌then◌else◌, Option, List, [], ◌∷◌, Bytes, map, length, Bool-cases, is_empty, pos,
}
use cs61_f16_psets_team_md.Shell.CommandList.{Command}
use cs61_f16_psets_team_md.Shell.System.{Status, exited, signaled, returns}
use cs61_f16_psets_team_md.Shell.Run.{
  Cell, new_cell, is_pipe, is_redirection, is_background, is_and, is_or, is_and_or, interrupted,
  set_prev, Loop, skips, run_command, end_chain, run_chained, run_conditional,
}
use cs61_f16_psets_team_md.Shell.Redirect.{is_cd}
use cs61_f16_psets_team_md.Shell.RunList.{run_round, run_loop, run_list}
use cs61_f16_psets_team_md.Shell.Behaviour.{World, behave}
use cs61_f16_psets_team_md.Shell.RunList.Step.{
  cells, run_round-empty, run_round-interrupted, set_prev-cells, set_prev-map, cells_new,
  length-cells, Runs, Runs-returns, behave-run_command,
}

-- A command that is neither piped, redirected, conditional nor `cd`.
pub record IsPlain (program : World) (c : Command) : Type 0 where
  pub executable : program.found c.argv ≡ true
  pub words : is_empty c.argv ≡ false
  pub no_redirection : is_redirection c.control ≡ false
  pub no_cd : is_cd c.argv ≡ false
  pub no_pipe : is_pipe c.control ≡ false
  pub no_operator : is_and_or c.control ≡ false
  pub no_condition : is_and_or c.conditional ≡ false

-- Plain commands, up to the end or to an empty one, where the loop stops.
pub data AllPlain (program : World) : List Command → Type 0 where
  nil : AllPlain program []
  empty : (c : Command) (cs : List Command) → is_empty c.argv ≡ true → AllPlain program (c ∷ cs)
  plain :
      (c : Command) (cs : List Command)
      → IsPlain program c
      → AllPlain program cs
      → AllPlain program (c ∷ cs)

run_round-plain :
    (program : World) (loop : Loop) (status : Status) (current : Cell) (rest : List Cell)
    → IsPlain program current.command
    → interrupted status ≡ false
    → run_round loop (pos 0) status current rest ≡ run_conditional loop (pos 0) status current rest
unfolding run_round
run_round-plain program loop status current rest p going =
    rw (p.words, going, p.no_redirection, p.no_cd, p.no_pipe) refl

-- A plain command is skipped behind a signal, and run otherwise.
run_conditional-skipped :
    (program : World) (loop : Loop) (status : Status) (c : Command) (n : ℕ) (rest : List Cell)
    → IsPlain program c
    → run_conditional loop (pos 0) status (record (new_cell c) { prev_status = signaled n }) rest
      ≡ loop (pos 0) status (set_prev (signaled n) rest)
unfolding run_conditional run_chained skips
run_conditional-skipped program loop status c n rest p = rw p.no_operator refl

or_false : (a b : Bool) → (a || b) ≡ false → (a ≡ false) × (b ≡ false)
or_false true b e = absurd (grind (tests, e))
or_false false b e = (refl, e)

run_conditional-run :
    (program : World) (loop : Loop) (status : Status) (c : Command) (n : ℕ) (rest : List Cell)
    → IsPlain program c
    → run_conditional loop (pos 0) status (record (new_cell c) { prev_status = exited n }) rest
      ≡ run_command loop
          (pos 0)
          status
          (record (new_cell c) { prev_status = exited n })
          (set_prev (exited n) rest)
unfolding run_conditional run_chained skips end_chain
run_conditional-run program loop status c n rest p =
    let (no_and, no_or) = or_false (is_and c.conditional) (is_or c.conditional) p.no_condition in
    rw (p.no_operator, no_and, no_or) refl

-- The commands that run: all, up to an empty one, but none behind a command in the foreground that
-- a signal ends.
abbrev pub is_exited : Status → Bool
is_exited (exited n) = true
is_exited (signaled n) = false

unfoldable pub sequence_started : World → List Command → List (List Bytes)
sequence_started program [] = []
sequence_started program (c ∷ cs) =
    let rest = sequence_started program cs in
    if is_empty c.argv
    then []
    else c.argv
      ∷ (if is_background c.control || is_exited (program.status c.argv) then rest else [])

sequence_started-nil : (program : World) → sequence_started program [] ≡ []
unfolding sequence_started
sequence_started-nil program = refl

sequence_started-empty :
    (program : World) (c : Command) (cs : List Command)
    → is_empty c.argv ≡ true
    → sequence_started program (c ∷ cs) ≡ []
unfolding sequence_started
sequence_started-empty program c cs e = rw e refl

sequence_started-plain :
    (program : World) (c : Command) (cs : List Command)
    → is_empty c.argv ≡ false
    → sequence_started program (c ∷ cs)
      ≡ c.argv
        ∷ (if is_background c.control || is_exited (program.status c.argv)
            then sequence_started program cs
            else [])
unfolding sequence_started
sequence_started-plain program c cs e = rw e refl

module _ (program : World) where
  -- Behind a signal nothing runs any more.
  behave-signaled :
      (fuel n m : ℕ) (known : ℕ → Option Status) (status : Status) (cs : List Command)
      → AllPlain program cs
      → length cs < fuel
      → Runs (behave program known n (run_loop fuel (pos 0) status (cells (signaled m) cs))) [] 1
  unfolding run_loop
  behave-signaled zero n m known status cs a lt = absurd (omega (arith, lt))
  behave-signaled (suc fuel) n m known status _ nil lt = Runs-returns program known n
  behave-signaled (suc fuel) n m known status _ (empty c cs e) lt =
      subst (λ t. Runs (behave program known n t) [] 1)
        (sym (run_round-empty (run_loop fuel) status _ (map new_cell cs) e))
        (Runs-returns program known n)
  behave-signaled (suc fuel) n m known status _ (plain c cs p a) lt =
      let next : Runs
          (behave program known n (run_loop fuel (pos 0) status (cells (signaled m) cs))) [] 1 =
        behave-signaled fuel n m known status cs a (omega (arith, lt)) in
      elim (Bool-cases (interrupted status)) [
        | inl e ↦
            subst (λ t. Runs (behave program known n t) [] 1)
              (sym (run_round-interrupted (run_loop fuel) status _ (map new_cell cs) p.words e))
              (Runs-returns program known n)
        | inr e ↦
            subst (λ t. Runs (behave program known n t) [] 1)
              (sym (
                run_round-plain program (run_loop fuel) status _ (map new_cell cs) p e
                ∙ run_conditional-skipped program (run_loop fuel) status c m (map new_cell cs) p
                ∙ ap (run_loop fuel (pos 0) status) (set_prev-map (signaled m) cs)))
              next
      ]

  -- What follows a command that ends with the status `s`.
  behave-after :
      (b : Bool) (s status : Status) (fuel n m : ℕ) (known : ℕ → Option Status) (cs : List Command)
      (programs : List (List Bytes))
      → AllPlain program cs
      → length cs < fuel
      → interrupted status ≡ false
      → ((status' : Status) (m' : ℕ)
          → interrupted status' ≡ false
          → Runs
              (behave program known (suc n) (run_loop fuel (pos 0) status' (cells (exited m') cs)))
              programs
              1)
      → Runs
          (behave program known (suc n) (
            if b
            then run_loop fuel (pos 0) status (cells (exited m) cs)
            else run_loop fuel (pos 0) s (set_prev s (cells (exited m) cs))))
          (if b || is_exited s then programs else [])
          1
  behave-after true s status fuel n m known cs programs a lt going ih = ih status m going
  behave-after false (exited k) status fuel n m known cs programs a lt going ih =
      subst
        (λ rest.
          Runs (behave program known (suc n) (run_loop fuel (pos 0) (exited k) rest)) programs 1)
        (sym (set_prev-cells (exited k) (exited m) cs)) (ih (exited k) k refl)
  behave-after false (signaled k) status fuel n m known cs programs a lt going ih =
      subst
        (λ rest. Runs (behave program known (suc n) (run_loop fuel (pos 0) (signaled k) rest)) [] 1)
        (sym (set_prev-cells (signaled k) (exited m) cs))
        (behave-signaled fuel (suc n) k known (signaled k) cs a lt)

  behave-sequence :
      (fuel n m : ℕ) (known : ℕ → Option Status) (status : Status) (cs : List Command)
      → AllPlain program cs
      → interrupted status ≡ false
      → length cs < fuel
      → Runs
          (behave program known (suc n) (run_loop fuel (pos 0) status (cells (exited m) cs)))
          (sequence_started program cs)
          1
  unfolding run_loop
  behave-sequence zero n m known status cs a going lt = absurd (omega (arith, lt))
  behave-sequence (suc fuel) n m known status _ nil going lt =
      subst (λ ws. Runs (behave program known (suc n) returns) ws 1)
        (sym (sequence_started-nil program)) (Runs-returns program known (suc n))
  behave-sequence (suc fuel) n m known status _ (empty c cs e) going lt =
      let cell : Cell = record (new_cell c) { prev_status = exited m } in
      subst
        (λ ws.
          Runs
            (behave program known (suc n)
              (run_round (run_loop fuel) (pos 0) status cell (map new_cell cs)))
            ws 1)
        (sym (sequence_started-empty program c cs e))
        (subst (λ t. Runs (behave program known (suc n) t) [] 1)
          (sym (run_round-empty (run_loop fuel) status cell (map new_cell cs) e))
          (Runs-returns program known (suc n)))
  behave-sequence (suc fuel) n m known status _ (plain c cs p a) going lt =
      let lt' : length cs < fuel = omega (arith, lt) in
      let programs =
        if is_background c.control || is_exited (program.status c.argv)
        then sequence_started program cs
        else [] in
      let cell : Cell = record (new_cell c) { prev_status = exited m } in
      let run : Runs
          (behave program known (suc n)
            (run_command (run_loop fuel) (pos 0) status cell (cells (exited m) cs)))
          (c.argv ∷ programs) 1 =
        behave-run_command program known n (run_loop fuel) status cell (cells (exited m) cs)
          programs 1 p.executable
          (λ known' n'.
            behave-after (is_background c.control) (program.status c.argv) status fuel n' m known'
              cs (sequence_started program cs) a lt' going
              (λ status' m' going'. behave-sequence fuel n' m' known' status' cs a going' lt')) in
      subst
        (λ ws.
          Runs
            (behave program known (suc n)
              (run_round (run_loop fuel) (pos 0) status cell (map new_cell cs)))
            ws 1)
        (sym (sequence_started-plain program c cs p.words))
        (subst (λ t. Runs (behave program known (suc n) t) (c.argv ∷ programs) 1)
          (sym (
            run_round-plain program (run_loop fuel) status cell (map new_cell cs) p going
            ∙ run_conditional-run program (run_loop fuel) status c m (map new_cell cs) p
            ∙ ap (run_command (run_loop fuel) (pos 0) status cell) (set_prev-map (exited m) cs)))
          run)

-- Of a list of commands without pipes, redirections, conditionals and `cd`, on a system where each
-- fork succeeds and each of the commands can be executed, `run_list` executes all
-- up to an empty one, in order and each once, and returns in the shell alone, whatever statuses the
-- programs end with; but behind a command in the foreground that a signal ends it executes none.
pub run_list-sequence :
    (program : World) (known : ℕ → Option Status) (n : ℕ) (cs : List Command)
    → AllPlain program cs
    → Runs
        (behave program known (suc n) (run_list (map new_cell cs)))
        (sequence_started program cs)
        1
unfolding run_list
run_list-sequence program known n cs a =
    subst
      (λ list.
        Runs (behave program known (suc n) (run_loop (length list + 1) (pos 0) (exited 0) list))
          (sequence_started program cs) 1)
      (sym (cells_new cs))
      (behave-sequence program (length (cells (exited 0) cs) + 1) n 0 known (exited 0) cs a refl
        (omega (arith, length-cells (exited 0) cs)))
