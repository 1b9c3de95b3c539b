-- ===== src/Shell/RunList/Total.antt =====
-- `run_list` ends in every process, whatever the system returns.
use cs61_f16_psets_team_md.Base.{
  ℕ, zero, suc, ◌+◌, ◌≤◌, ◌<◌, arith, List, [], ◌∷◌, length, get_elem?, is_empty, ℤ, pos,
}
use cs61_f16_psets_team_md.Shell.System.{Status, exited}
use cs61_f16_psets_team_md.Shell.Run.{Cell, is_pipe, is_redirection, interrupted, Loop}
use cs61_f16_psets_team_md.Shell.Redirect.{is_cd}
use cs61_f16_psets_team_md.Shell.RunList.{run_round, run_loop, run_list}
use cs61_f16_psets_team_md.Shell.Finishes.{Finishes, changing, returning, if_Finishes, FinishesOn}
use cs61_f16_psets_team_md.Shell.Run.Total.{run_conditional-Finishes}
use cs61_f16_psets_team_md.Shell.Pipeline.Total.{run_pipeline-Finishes}
use cs61_f16_psets_team_md.Shell.Redirect.Total.{run_redirection-Finishes}

run_round-Finishes :
    (n : ℕ) (loop : Loop) (pid : ℤ) (status : Status) (current : Cell) (rest : List Cell)
    → FinishesOn n loop
    → length rest ≤ n
    → Finishes (run_round loop pid status current rest)
unfolding run_round
run_round-Finishes n loop pid status current rest h le =
    if_Finishes (is_empty current.command.argv) _ _ returning (
      if_Finishes (interrupted status) _ _ returning (
        if_Finishes (is_redirection current.command.control) _ _
          (run_redirection-Finishes n loop h pid status current rest le)
          (if_Finishes (is_cd current.command.argv) _ _
            (changing {dir = get_elem? current.command.argv 1} (λ done. h pid status rest le))
            (if_Finishes (is_pipe current.command.control) _ _
              (run_pipeline-Finishes n loop h pid status current rest le)
              (run_conditional-Finishes n loop h pid status current rest le)))))

run_loop-Finishes :
    (fuel : ℕ) (pid : ℤ) (status : Status) (cells : List Cell)
    → length cells < fuel
    → Finishes (run_loop fuel pid status cells)
unfolding run_loop
run_loop-Finishes zero pid status cells lt = absurd (omega (arith, lt))
run_loop-Finishes (suc fuel) pid status [] lt = returning
run_loop-Finishes (suc fuel) pid status (current ∷ rest) lt =
    run_round-Finishes (length rest) (run_loop fuel) pid status current rest
      (λ pid' status' cells le. run_loop-Finishes fuel pid' status' cells (omega (arith, le, lt)))
      (omega arith)

-- For every list of commands, and whatever the system calls return, `run_list` comes to an end in
-- the shell and in each process that it forks: a round of its loop for each command, and one more,
-- are enough.
pub run_list-Finishes : (cells : List Cell) → Finishes (run_list cells)
unfolding run_list
run_list-Finishes cells =
    run_loop-Finishes (length cells + 1) (pos 0) (exited 0) cells (omega arith)
