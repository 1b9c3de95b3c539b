-- ===== src/Shell/RunList/Piped/Stages.antt =====
-- The stages of a pipeline, and the pipeline as a whole.
use cs61_f16_psets_team_md.Base.{
  ℕ, zero, suc, ◌+◌, ◌-◌, ◌*◌, ◌≤◌, ◌<◌, ◌≡◌, refl, sym, if◌then◌else◌, get_elem?, ap, ap₂, subst,
  ◌∙◌, arith, tests, true, false, ◌||◌, ◌==◌, Option, none, some, List, [], ◌∷◌, ◌++◌, Bytes, map,
  length, is_empty, ℤ, pos,
}
use cs61_f16_psets_team_md.Shell.Lexer.{TokenType, pipe}
use cs61_f16_psets_team_md.Shell.System.{Status, exited, Shell}
use cs61_f16_psets_team_md.Shell.Wiring.{Stage, new_input, new_output, wire}
use cs61_f16_psets_team_md.Shell.Run.{Cell, new_cell, is_pipe, interrupted, Loop}
use cs61_f16_psets_team_md.Shell.Pipeline.{
  exec_argv, dup_fd, close_fds, make_pipes, Plumbing, stage_input, stage_output, stage_exec,
  stage_child, stage_group, end_pipeline, run_stages, run_pipeline,
}
use cs61_f16_psets_team_md.Shell.Redirect.{is_cd}
use cs61_f16_psets_team_md.Shell.RunList.{run_round, run_loop, run_list}
use cs61_f16_psets_team_md.Shell.RunList.Piped.{
  stage_command, pipeline, connected, AllWords, fds_from, get_elem?-fds_from, length-fds_from,
  is_open-get_elem?, wire-close_fds, wire-make_pipes, count_pipes-pipeline, length-pipeline,
  input_of, output_of, or_true, no_commands, command_behind,
}

module _ (next first n : ℕ) where
  abbrev fds : List ℤ
  fds = fds_from first n

  wire-close_all :
      (input output : ℤ) (t : Shell)
      → wire next fds input output (close_fds fds 0 (2 * n) t) ≡ wire next [] input output t
  wire-close_all input output t =
      ap (λ k. wire next fds input output (close_fds fds 0 k t)) (sym (length-fds_from first n))
      ∙ wire-close_fds next [] fds input output t

  abbrev plumbing : Plumbing
  plumbing = record { fds = fds; num_pipes = n; redirected = none }

  dup-fd :
      (i to : ℕ) (input output : ℤ) (t : Shell)
      → i < 2 * n
      → wire next fds input output (dup_fd (get_elem? fds i) to t)
        ≡ wire next fds
            (new_input (pos (first + i)) to input)
            (new_output (pos (first + i)) to output)
            t
  unfolding wire dup_fd
  dup-fd i to input output t lt =
      let fd = pos (first + i) in
      let e = get_elem?-fds_from first n i lt in
      ap (λ r. wire next fds input output (dup_fd r to t)) e
      ∙ ap
          (λ x.
            wire next fds (if x then new_input fd to input else input)
              (if x then new_output fd to output else output) t)
          (is_open-get_elem? fd fds i e)

  wire-stage_input :
      (m : ℕ) (output : ℤ) (t : Shell)
      → m ≤ 2 * n
      → wire next fds (pos 0) output (stage_input plumbing m t)
        ≡ wire next fds (input_of first m) output t
  unfolding stage_input
  wire-stage_input zero output t le = refl
  wire-stage_input (suc m) output t le = dup-fd (suc m - 2) 0 (pos 0) output t (omega (arith, le))

  wire-stage_output :
      (m : ℕ) (input : ℤ) (cs : List Cell) (t : Shell)
      → m + 2 * length cs ≤ 2 * n
      → wire next fds input (pos 1) (stage_output plumbing m cs t)
        ≡ wire next fds input (output_of first m cs) t
  unfolding stage_output
  wire-stage_output m input [] t le = refl
  wire-stage_output m input (c ∷ cs) t le = dup-fd (m + 1) 1 input (pos 1) t (omega (arith, le))

  wire-exec_argv :
      (argv : List Bytes) (input output : ℤ) (failing : Shell)
      → is_empty argv ≡ false
      → wire next [] input output (exec_argv argv failing)
        ≡ record { program = argv; input = input; output = output; inherited = [] } ∷ []
  unfolding wire exec_argv
  wire-exec_argv [] input output failing e = absurd (grind (tests, e))
  wire-exec_argv (word ∷ words) input output failing e = refl

  wire-stage_child :
      (m : ℕ) (c : Cell) (cs : List Cell) (failing : Shell)
      → is_empty c.command.argv ≡ false
      → m + 2 * length cs ≤ 2 * n
      → wire next fds (pos 0) (pos 1) (stage_child plumbing m c cs failing)
        ≡ record {
          program = c.command.argv;
          input = input_of first m;
          output = output_of first m cs;
          inherited = [];
        }
          ∷ []
  unfolding stage_child stage_exec
  wire-stage_child m c cs failing words le =
      wire-stage_input m (pos 1) _ (omega (arith, le))
      ∙ wire-stage_output m (input_of first m) cs _ le
      ∙ wire-close_all (input_of first m) (output_of first m cs) _
      ∙ wire-exec_argv c.command.argv (input_of first m) (output_of first m cs) failing words

  -- The programs of the stages from the count `m` on.
  staged : ℕ → List Cell → List Stage
  staged m [] = []
  staged m (c ∷ cs) =
      record {
        program = c.command.argv;
        input = input_of first m;
        output = output_of first m cs;
        inherited = [];
      }
      ∷ staged (m + 2) cs

  wire-end_pipeline :
      (fuel : ℕ) (pid : ℤ) (status : Status) (cpid : ℤ)
      → wire next fds
          (pos 0)
          (pos 1)
          (end_pipeline plumbing (run_loop (suc fuel)) pid status [] cpid)
        ≡ []
  unfolding wire end_pipeline run_loop
  wire-end_pipeline fuel pid status cpid = wire-close_all (pos 0) (pos 1) _

  -- The loop over the stages, from the count `m` on.
  wire-run_stages :
      (fuel : ℕ) (pid : ℤ) (status : Status) (m : ℕ) (conditional : Option TokenType)
      (argv : List Bytes) (rest : List (List Bytes)) (cpid : ℤ)
      → (m == 0 || is_pipe conditional) ≡ true
      → AllWords (argv ∷ rest)
      → m + 2 * length rest ≤ 2 * n
      → wire next fds (pos 0) (pos 1) (
          run_stages plumbing
            (run_loop (suc fuel))
            pid
            status
            m
            (map new_cell (pipeline conditional argv rest))
            cpid)
        ≡ staged m (map new_cell (pipeline conditional argv rest))
  unfolding wire run_stages stage_group pipeline staged
  wire-run_stages fuel pid status m conditional _ [] cpid e
        (command_behind word words _ no_commands) le =
      rw e (
        ap₂ (◌++◌)
          (wire-stage_child m (new_cell (stage_command conditional (word ∷ words) none)) [] _ refl
            (omega (arith, le)))
          (wire-end_pipeline fuel pid status (pos 1)))
  wire-run_stages fuel pid status m conditional _ (argv' ∷ rest) cpid e
        (command_behind word words _ all) le =
      rw e (
        ap₂ (◌++◌)
          (wire-stage_child m (new_cell (stage_command conditional (word ∷ words) (some pipe)))
            (map new_cell (pipeline (some pipe) argv' rest)) _ refl
            (omega (arith, le, length-pipeline (some pipe) argv' rest)))
          (wire-run_stages fuel pid status (m + 2) (some pipe) argv' rest (pos 1)
            (or_true (m + 2 == 0)) all (omega (arith, le))))

  input_of-next : (m : ℕ) → input_of first (m + 2) ≡ pos (first + m)
  input_of-next m =
      let same : suc (suc m) ≡ m + 2 = omega arith in
      subst (λ x. input_of first x ≡ pos (first + m)) same (ap (λ x. pos (first + x)) (omega arith))

  output_of-pipeline :
      (m : ℕ) (conditional : Option TokenType) (argv : List Bytes) (rest : List (List Bytes))
      → output_of first m (map new_cell (pipeline conditional argv rest)) ≡ pos (first + m + 1)
  unfolding pipeline
  output_of-pipeline m conditional argv [] = ap pos (omega arith)
  output_of-pipeline m conditional argv (argv' ∷ rest) = ap pos (omega arith)

  staged-connected :
      (m : ℕ) (conditional : Option TokenType) (argv : List Bytes) (rest : List (List Bytes))
      → staged m (map new_cell (pipeline conditional argv rest))
        ≡ connected (input_of first m) (first + m) argv rest
  unfolding staged pipeline connected
  staged-connected m conditional argv [] = refl
  staged-connected m conditional argv (argv' ∷ rest) =
      let stage : ℤ → Stage =
        λ x. record { program = argv; input = input_of first m; output = x; inherited = [] } in
      ap₂ (λ x t. stage x ∷ t) (output_of-pipeline m (some pipe) argv' rest)
        (staged-connected (m + 2) (some pipe) argv' rest
          ∙ ap (λ x. connected x (first + (m + 2)) argv' rest) (input_of-next m)
          ∙ ap (λ x. connected (pos (first + m)) x argv' rest) (omega arith))

run_round-pipe :
    (loop : Loop) (status : Status) (current : Cell) (rest : List Cell)
    → is_empty current.command.argv ≡ false
    → is_cd current.command.argv ≡ false
    → current.command.control ≡ some pipe
    → interrupted status ≡ false
    → run_round loop (pos 0) status current rest ≡ run_pipeline loop (pos 0) status (current ∷ rest)
unfolding run_round
run_round-pipe loop status current rest words no_cd piped going =
    rw (words, going, piped, no_cd) refl

-- The pipeline `argv | argv' | rest` as the whole of a line.
wire-pipeline :
    (fuel next : ℕ) (argv argv' : List Bytes) (rest : List (List Bytes))
    → AllWords (argv ∷ argv' ∷ rest)
    → is_cd argv ≡ false
    → wire next [] (pos 0) (pos 1) (
        run_loop
          (suc (suc fuel))
          (pos 0)
          (exited 0)
          (map new_cell (pipeline none argv (argv' ∷ rest))))
      ≡ connected (pos 0) next argv (argv' ∷ rest)
unfolding run_loop run_pipeline pipeline
wire-pipeline fuel next _ argv' rest (command_behind word words _ all) no_cd =
    let cells = map new_cell (pipeline (some pipe) argv' rest) in
    let current = new_cell (stage_command none (word ∷ words) (some pipe)) in
    let all_cells = current ∷ cells in
    let loop : Loop = run_loop (suc fuel) in
    let n = suc (length rest) in
    let stages : ℕ → List ℤ → Shell = λ count fds.
      run_stages (record { fds = fds; num_pipes = count; redirected = none }) loop (pos 0)
        (exited 0) 0 all_cells (pos 0) in
    ap (wire next [] (pos 0) (pos 1))
      (run_round-pipe loop (exited 0) current cells refl no_cd refl refl)
    ∙ ap (λ count. wire next [] (pos 0) (pos 1) (make_pipes count [] (stages count)))
        (count_pipes-pipeline none (word ∷ words) (argv' ∷ rest))
    ∙ wire-make_pipes n next [] (stages n)
    ∙ wire-run_stages (next + 2 * n) next n fuel (pos 0) (exited 0) 0 none (word ∷ words)
        (argv' ∷ rest) (pos 0) refl (command_behind word words (argv' ∷ rest) all) (omega arith)
    ∙ staged-connected (next + 2 * n) next n 0 none (word ∷ words) (argv' ∷ rest)
    ∙ ap (λ x. connected (pos 0) x (word ∷ words) (argv' ∷ rest)) (omega arith)

-- A pipeline of any length that ends its line connects each program to the next one by a pipe of
-- their own, the first to the standard input and the last to the standard output, and executes
-- nothing else.
pub run_list-pipeline :
    (next : ℕ) (argv argv' : List Bytes) (rest : List (List Bytes))
    → AllWords (argv ∷ argv' ∷ rest)
    → is_cd argv ≡ false
    → wire next [] (pos 0) (pos 1) (run_list (map new_cell (pipeline none argv (argv' ∷ rest))))
      ≡ connected (pos 0) next argv (argv' ∷ rest)
unfolding run_list
run_list-pipeline next argv argv' rest all no_cd =
    let cells = map new_cell (pipeline none argv (argv' ∷ rest)) in
    let size : length cells + 1 ≡ suc (suc (length rest + 1)) =
      omega (arith, length-pipeline none argv (argv' ∷ rest)) in
    ap (λ fuel. wire next [] (pos 0) (pos 1) (run_loop fuel (pos 0) (exited 0) cells)) size
    ∙ wire-pipeline (length rest + 1) next argv argv' rest all no_cd
