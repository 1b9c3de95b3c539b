-- ===== src/Shell/Run/Total.antt =====
-- The conditionals and commands of `run_list` end, if what follows them does.
use cs61_f16_psets_team_md.Base.{ℕ, ◌≤◌, List, length, ℤ, pos}
use cs61_f16_psets_team_md.Shell.System.{Status, Shell}
use cs61_f16_psets_team_md.Shell.Run.{
  Cell, is_background, is_zero, waited, Loop, start_command, run_command, end_chain, run_chained,
  run_conditional,
}
use cs61_f16_psets_team_md.Shell.Finishes.{
  Finishes, forking, waiting, executing, acting, exiting, if_Finishes, FinishesOn, set_prev_le,
}

start_command-Finishes :
    (c : Cell) (k : ℤ → Shell) → ((pid : ℤ) → Finishes (k pid)) → Finishes (start_command c k)
unfolding start_command
start_command-Finishes c k h =
    forking (λ pid. acting (if_Finishes (is_zero pid) _ _ (executing (h pid)) (h pid)))

module _ (n : ℕ) (loop : Loop) (h : FinishesOn n loop) where
  run_command-Finishes :
      (pid : ℤ) (status : Status) (current : Cell) (rest : List Cell)
      → length rest ≤ n
      → Finishes (run_command loop pid status current rest)
  unfolding run_command
  run_command-Finishes pid status current rest le = start_command-Finishes current _ (λ started.
      if_Finishes (is_background current.command.control) _ _ (h pid status rest le) (
        acting (
          waiting
            (λ w. acting (h pid (waited w status) _ (set_prev_le (waited w status) rest n le))))))

  end_chain-Finishes :
      (pid : ℤ) (status : Status) (current : Cell) (rest : List Cell)
      → length rest ≤ n
      → Finishes (end_chain loop pid status current rest)
  unfolding end_chain
  end_chain-Finishes pid status current rest le =
      if_Finishes _ _ _
        (if_Finishes (is_zero pid) _ _
          (start_command-Finishes current _ (λ started. acting (waiting (λ w. acting (exiting 0)))))
          (if_Finishes (is_background current.command.control) _ _ (h (pos 0) status rest le)
            (waiting (λ w. h (pos 0) (waited w status) rest le))))
        (run_command-Finishes pid status current rest le)

  run_chained-Finishes :
      (status : Status) (current : Cell) (rest : List Cell) (pid : ℤ)
      → length rest ≤ n
      → Finishes (run_chained loop status current rest pid)
  unfolding run_chained
  run_chained-Finishes status current rest pid le =
      let le' = set_prev_le current.prev_status rest n le in
      if_Finishes _ _ _ (h pid status rest le) (
        if_Finishes (is_zero pid) _ _
          (if_Finishes _ _ _ (h pid status _ le') (end_chain-Finishes pid status current _ le'))
          (end_chain-Finishes pid status current rest le))

  pub run_conditional-Finishes :
      (pid : ℤ) (status : Status) (current : Cell) (rest : List Cell)
      → length rest ≤ n
      → Finishes (run_conditional loop pid status current rest)
  unfolding run_conditional
  run_conditional-Finishes pid status current rest le =
      if_Finishes _ _ _ (forking (λ forked. run_chained-Finishes status current rest forked le))
        (run_chained-Finishes status current rest pid le)
