-- ===== src/Shell/Redirect/Total.antt =====
-- The redirections of `run_list` end, if what follows them does.
use cs61_f16_psets_team_md.Base.{
  ℕ, zero, suc, ◌≤◌, arith, Bool, true, false, if◌then◌else◌, Option, none, some, List, [], ◌∷◌,
  ◌++◌, Bytes, length, ℤ, pos,
}
use cs61_f16_psets_team_md.Shell.CommandList.{Command}
use cs61_f16_psets_team_md.Shell.System.{
  Status, OpenMode, read_only, write_create, dup2, close, Shell, opens, acts, exits, undefined,
}
use cs61_f16_psets_team_md.Shell.Run.{Cell, failed, waited, Loop}
use cs61_f16_psets_team_md.Shell.Pipeline.{count_pipes}
use cs61_f16_psets_team_md.Shell.Redirect.{
  count_redirects, advance, redirect_file, redirect_command, redirect_files, redirect_pipeline,
  redirect_exec, redirect_child, redirect_wait, skip_pipes, piped_behind, run_redirection,
}
use cs61_f16_psets_team_md.Shell.Finishes.{
  Finishes, forking, waiting, opening, changing, acting, exiting, stuck, if_Finishes, FinishesOn,
  set_prev_le,
}
use cs61_f16_psets_team_md.Shell.Pipeline.Total.{
  exec_argv-Finishes, make_pipes-Finishes, first_stage-Finishes,
}

-- No more cells than before are left.
data Advanced (n : ℕ) : Option (List Cell) → Type 0 where
  gone : Advanced n none
  reached : (cells : List Cell) → length cells ≤ n → Advanced n (some cells)

advance-Advanced : (k n : ℕ) (cells : List Cell) → length cells ≤ n → Advanced n (advance k cells)
unfolding advance
advance-Advanced zero n cells le = reached cells le
advance-Advanced (suc k) n [] le = gone
advance-Advanced (suc k) n (c ∷ cs) le = advance-Advanced k n cs (omega (arith, le))

if_Advanced :
    {n : ℕ} (b : Bool) (x y : Option (List Cell))
    → Advanced n x
    → Advanced n y
    → Advanced n (if b then x else y)
if_Advanced true x y hx hy = hx
if_Advanced false x y hx hy = hy

opened-Finishes :
    (mode : OpenMode) (file : Bytes) (to : ℕ) (opened : ℤ → Shell)
    → ((fd : ℤ) → Finishes (opened fd))
    → Finishes (
        opens mode file
          (λ fd. if failed fd then exits 1 else acts (dup2 fd to) (acts (close fd) (opened fd))))
opened-Finishes mode file to opened h =
    opening (λ fd. if_Finishes (failed fd) _ _ (exiting 1) (acting (acting (h fd))))

redirect_file-Finishes :
    (token file : Bytes) (opened : ℤ → Shell)
    → ((fd : ℤ) → Finishes (opened fd))
    → Finishes (redirect_file token file opened)
unfolding redirect_file
redirect_file-Finishes token file opened h =
    if_Finishes _ _ _ (opened-Finishes read_only file 0 opened h) (
      if_Finishes _ _ _ (opened-Finishes write_create file 1 opened h)
        (if_Finishes _ _ _ (opened-Finishes write_create file 2 opened h) stuck))

redirect_command-Finishes :
    (c : Command) (opened : ℤ → Shell)
    → ((fd : ℤ) → Finishes (opened fd))
    → Finishes (redirect_command c opened)
unfolding redirect_command
redirect_command-Finishes c opened h = with_argv c.argv
  where
    with_token :
        (file : Bytes) (token : Option Bytes)
        → Finishes
            (elim token [ none ↦ undefined | some token' ↦ redirect_file token' file opened ])
    with_token file none = stuck
    with_token file (some token) = redirect_file-Finishes token file opened h

    with_argv :
        (argv : List Bytes)
        → Finishes (elim argv [
          | [] ↦ undefined
          | file ∷ words ↦ elim c.redirect_token [
            | none ↦ undefined
            | some token ↦ redirect_file token file opened
          ]
        ])
    with_argv [] = stuck
    with_argv (file ∷ words) = with_token file c.redirect_token

-- The rest of the list grows no longer.
redirect_files-Finishes :
    (k n : ℕ) (current : Cell) (rest : List Cell) (fds : List ℤ)
    (then_do : Cell → List Cell → List ℤ → Shell)
    → length rest ≤ n
    → ((c : Cell) (cs : List Cell) (fds' : List ℤ) → length cs ≤ n → Finishes (then_do c cs fds'))
    → Finishes (redirect_files k current rest fds then_do)
unfolding redirect_files
redirect_files-Finishes zero n current rest fds then_do le h = h current rest fds le
redirect_files-Finishes (suc k) n current [] fds then_do le h = exiting 1
redirect_files-Finishes (suc k) n current (c ∷ cs) fds then_do le h =
    redirect_command-Finishes c.command _
      (λ fd. redirect_files-Finishes k n c cs (fds ++ fd ∷ []) then_do (omega (arith, le)) h)

redirect_exec-Finishes :
    (cmd : List Bytes) (c : Command) (failing : Shell)
    → Finishes failing
    → Finishes (redirect_exec cmd c failing)
unfolding redirect_exec
redirect_exec-Finishes cmd c failing h =
    if_Finishes _ _ _ (changing (λ done. if_Finishes done _ _ (exiting 0) (exiting 1)))
      (exec_argv-Finishes cmd failing h)

module _ (n : ℕ) (loop : Loop) (h : FinishesOn n loop) where
  redirect_wait-Finishes :
      (pid : ℤ) (status : Status) (o : Option (List Cell))
      → Advanced (suc n) o
      → Finishes (redirect_wait loop pid status o)
  unfolding redirect_wait
  redirect_wait-Finishes pid status _ gone = stuck
  redirect_wait-Finishes pid status _ (reached [] le) = stuck
  redirect_wait-Finishes pid status _ (reached (c ∷ cs) le) =
      let le' : length cs ≤ n = omega (arith, le) in
      if_Finishes _ _ _ (h pid status cs le')
        (waiting (λ w. h pid (waited w status) _ (set_prev_le (waited w status) cs n le')))

  skip_pipes-Finishes :
      (pid : ℤ) (status : Status) (piped : ℕ) (o : Option (List Cell))
      → Advanced (suc n) o
      → Finishes (skip_pipes loop pid status piped o)
  unfolding skip_pipes
  skip_pipes-Finishes pid status piped _ gone = stuck
  skip_pipes-Finishes pid status piped _ (reached [] le) = stuck
  skip_pipes-Finishes pid status piped _ (reached (c ∷ cs) le) =
      redirect_wait-Finishes pid status _
        (if_Advanced _ _ _ (advance-Advanced piped (suc n) (c ∷ cs) le) (reached (c ∷ cs) le))

  redirect_pipeline-Finishes :
      (pid : ℤ) (status : Status) (cmd : List Bytes) (current : Cell) (rest : List Cell)
      (fds : List ℤ)
      → length rest ≤ n
      → Finishes (redirect_pipeline loop pid status cmd current rest fds)
  unfolding redirect_pipeline
  redirect_pipeline-Finishes pid status cmd current rest fds le =
      make_pipes-Finishes (count_pipes (current ∷ rest)) [] _ (λ fd2.
        first_stage-Finishes n loop h
          (record { fds = fds; num_pipes = count_pipes (current ∷ rest); redirected = some cmd })
          pid status current rest (pos 0) le)

  redirect_child-Finishes :
      (pid : ℤ) (status : Status) (k : ℕ) (current : Cell) (rest : List Cell)
      (skip : List Cell → Shell)
      → length rest ≤ n
      → ((cells : List Cell) → length cells ≤ suc n → Finishes (skip cells))
      → Finishes (redirect_child loop pid status k current rest skip)
  unfolding redirect_child
  redirect_child-Finishes pid status k current rest skip le hs =
      redirect_files-Finishes k n current rest [] _ le (λ c cs fds le'.
        if_Finishes _ _ _ (redirect_pipeline-Finishes pid status current.command.argv c cs fds le')
          (redirect_exec-Finishes current.command.argv c.command _
            (hs (c ∷ cs) (omega (arith, le')))))

  pub run_redirection-Finishes :
      (pid : ℤ) (status : Status) (current : Cell) (rest : List Cell)
      → length rest ≤ n
      → Finishes (run_redirection loop pid status current rest)
  unfolding run_redirection
  run_redirection-Finishes pid status current rest le =
      let k = count_redirects (current ∷ rest) in
      let piped = piped_behind (advance k (current ∷ rest)) in
      let skipped : (cells : List Cell)
          → length cells ≤ suc n
          → Finishes (skip_pipes loop pid status piped (advance k cells)) =
        λ cells le'.
          skip_pipes-Finishes pid status piped _ (advance-Advanced k (suc n) cells le') in
      forking (λ cpid.
        if_Finishes _ _ _ (redirect_child-Finishes pid status k current rest _ le skipped)
          (skipped (current ∷ rest) (omega (arith, le))))
