-- ===== src/Shell/RunList/Piped.antt =====
-- The plumbing of a pipeline that `run_list` runs.
pub mod Stages
use cs61_f16_psets_team_md.Base.{
  ℕ, zero, suc, ◌+◌, ◌-◌, ◌*◌, ◌≤◌, ◌<◌, ◌≡◌, refl, sym, ap, ap₂, subst, ◌∙◌, arith, tests, Bool,
  true, false, ◌||◌, ◌==◌, Option, none, some, List, [], ◌∷◌, ◌++◌, append-nil, append_assoc, Bytes,
  map, length, get_elem?, is_empty, ℤ, pos, negsuc, if◌then◌else◌,
}
use cs61_f16_psets_team_md.Shell.Lexer.{TokenType, pipe}
use cs61_f16_psets_team_md.Shell.CommandList.{Command}
use cs61_f16_psets_team_md.Shell.System.{Status, exited, Shell}
use cs61_f16_psets_team_md.Shell.Wiring.{Stage, same_fd, is_open, without, wire}
use cs61_f16_psets_team_md.Shell.Run.{Cell, new_cell, is_pipe, interrupted, Loop}
use cs61_f16_psets_team_md.Shell.Pipeline.{
  count_pipes, exec_argv, dup_fd, close_fd, close_fds, pipe_made, make_pipes, Plumbing, stage_input,
  stage_output, stage_exec, stage_child, stage_group, end_pipeline, run_stages, run_pipeline,
}
use cs61_f16_psets_team_md.Shell.Redirect.{is_cd}
use cs61_f16_psets_team_md.Shell.RunList.{run_round, run_loop, run_list}

-- A pipeline at the end of a line.
abbrev pub stage_command : Option TokenType → List Bytes → Option TokenType → Command
stage_command conditional argv control = record {
  argv = argv;
  control = control;
  conditional = conditional;
  redirect_token = none;
}

unfoldable pub pipeline : Option TokenType → List Bytes → List (List Bytes) → List Command
pipeline conditional argv [] = stage_command conditional argv none ∷ []
pipeline conditional argv (argv' ∷ rest) =
    stage_command conditional argv (some pipe) ∷ pipeline (some pipe) argv' rest

-- The connections that it should have: each program writes to a pipe of its own, from which the
-- next one reads, and the last to the standard output. None has another pipe
-- open.
unfoldable pub connected : ℤ → ℕ → List Bytes → List (List Bytes) → List Stage
connected input next argv [] =
    record { program = argv; input = input; output = pos 1; inherited = [] } ∷ []
connected input next argv (argv' ∷ rest) =
    record { program = argv; input = input; output = pos (next + 1); inherited = [] }
    ∷ connected (pos next) (next + 2) argv' rest

pub data AllWords : List (List Bytes) → Type 0 where
  no_commands : AllWords []
  command_behind :
      (word : Bytes) (words : List Bytes) (rest : List (List Bytes))
      → AllWords rest
      → AllWords ((word ∷ words) ∷ rest)

-- The descriptors of `n` pipes.
pub fds_from : ℕ → ℕ → List ℤ
fds_from next zero = []
fds_from next (suc n) = pos next ∷ pos (next + 1) ∷ fds_from (next + 2) n

pub get_elem?-fds_from :
    (next n m : ℕ) → m < 2 * n → get_elem? (fds_from next n) m ≡ some (pos (next + m))
unfolding fds_from
get_elem?-fds_from next zero m lt = absurd (omega (arith, lt))
get_elem?-fds_from next (suc n) zero lt = ap (λ x. some (pos x)) (omega arith)
get_elem?-fds_from next (suc n) (suc zero) lt = refl
get_elem?-fds_from next (suc n) (suc (suc m)) lt =
    get_elem?-fds_from (next + 2) n m (omega (arith, lt)) ∙ ap (λ x. some (pos x)) (omega arith)

pub length-fds_from : (next n : ℕ) → length (fds_from next n) ≡ 2 * n
unfolding fds_from
length-fds_from next zero = refl
length-fds_from next (suc n) = omega (arith, length-fds_from (next + 2) n)

pub or_true : (b : Bool) → (b || true) ≡ true
or_true true = refl
or_true false = refl

same_fd_lem : (fd : ℤ) → same_fd fd fd ≡ true
same_fd_lem (pos n) = grind tests
same_fd_lem (negsuc n) = grind tests

-- An element of a list of open descriptors is open.
pub is_open-get_elem? :
    (fd : ℤ) (fds : List ℤ) (i : ℕ) → get_elem? fds i ≡ some fd → is_open fd fds ≡ true
unfolding is_open
is_open-get_elem? fd [] i e = absurd (cc e)
is_open-get_elem? fd (x ∷ xs) zero e = let same : x ≡ fd = cc e in rw (same, same_fd_lem fd) refl
is_open-get_elem? fd (x ∷ xs) (suc i) e = rw (is_open-get_elem? fd xs i e) (or_true (same_fd fd x))

without-first : (fd : ℤ) (fds : List ℤ) → without fd (fd ∷ fds) ≡ fds
unfolding without
without-first fd fds = rw (same_fd_lem fd) refl

get_elem?-append :
    (before after : List ℤ) (fd : ℤ) → get_elem? (before ++ fd ∷ after) (length before) ≡ some fd
get_elem?-append [] after fd = refl
get_elem?-append (x ∷ before) after fd = get_elem?-append before after fd

length-snoc : (l : List ℤ) (x : ℤ) → length (l ++ x ∷ []) ≡ length l + 1
length-snoc [] x = refl
length-snoc (y ∷ l) x = omega (arith, length-snoc l x)

-- The loop that closes the descriptors leaves none.
pub wire-close_fds :
    (next : ℕ) (before after : List ℤ) (input output : ℤ) (t : Shell)
    → wire next after input output (close_fds (before ++ after) (length before) (length after) t)
      ≡ wire next [] input output t
unfolding wire close_fds close_fd
wire-close_fds next before [] input output t = refl
wire-close_fds next before (fd ∷ after) input output t =
    let all = before ++ fd ∷ after in
    let rest : ℕ → Shell = λ i. close_fds all i (length after) t in
    ap (λ r. wire next (fd ∷ after) input output (close_fd r (rest (length before + 1))))
      (get_elem?-append before after fd)
    ∙ ap (λ l. wire next l input output (rest (length before + 1))) (without-first fd after)
    ∙ ap₂ (λ l i. wire next after input output (close_fds l i (length after) t))
        (sym (append_assoc before (fd ∷ []) after)) (sym (length-snoc before fd))
    ∙ wire-close_fds next (before ++ fd ∷ []) after input output t

pub wire-make_pipes :
    (n next : ℕ) (fds : List ℤ) (k : List ℤ → Shell)
    → wire next fds (pos 0) (pos 1) (make_pipes n fds k)
      ≡ wire (next + 2 * n) (fds ++ fds_from next n) (pos 0) (pos 1) (k (fds ++ fds_from next n))
unfolding wire make_pipes pipe_made fds_from
wire-make_pipes zero next fds k =
    ap (λ l. wire next l (pos 0) (pos 1) (k l)) (sym (append-nil fds))
    ∙ ap (λ m. wire m (fds ++ []) (pos 0) (pos 1) (k (fds ++ []))) (omega arith)
wire-make_pipes (suc n) next fds k =
    let all = (fds ++ pos next ∷ pos (next + 1) ∷ []) ++ fds_from (next + 2) n in
    wire-make_pipes n (next + 2) (fds ++ pos next ∷ pos (next + 1) ∷ []) k
    ∙ ap (λ m. wire m all (pos 0) (pos 1) (k all)) (omega arith)
    ∙ ap (λ l. wire (next + 2 * suc n) l (pos 0) (pos 1) (k l))
        (append_assoc fds (pos next ∷ pos (next + 1) ∷ []) (fds_from (next + 2) n))

pub count_pipes-pipeline :
    (conditional : Option TokenType) (argv : List Bytes) (rest : List (List Bytes))
    → count_pipes (map new_cell (pipeline conditional argv rest)) ≡ length rest
unfolding count_pipes pipeline
count_pipes-pipeline conditional argv [] = refl
count_pipes-pipeline conditional argv (argv' ∷ rest) =
    omega (arith, count_pipes-pipeline (some pipe) argv' rest)

pub length-pipeline :
    (conditional : Option TokenType) (argv : List Bytes) (rest : List (List Bytes))
    → length (map new_cell (pipeline conditional argv rest)) ≡ suc (length rest)
unfolding pipeline
length-pipeline conditional argv [] = refl
length-pipeline conditional argv (argv' ∷ rest) = ap suc (length-pipeline (some pipe) argv' rest)

-- What a stage reads and writes, with the descriptors from `first` on and the count `m` of the
-- loop.
abbrev pub input_of : ℕ → ℕ → ℤ
input_of first zero = pos 0
input_of first (suc m) = pos (first + (suc m - 2))

abbrev pub output_of : ℕ → ℕ → List Cell → ℤ
output_of first m [] = pos 1
output_of first m (c ∷ cs) = pos (first + (m + 1))
