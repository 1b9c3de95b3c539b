-- ===== src/Shell/RunList.antt =====
-- The loop of `run_list` in pset5/sh61.c, and `eval_line` with its call.
mod Tests
pub mod Total
pub mod Step
pub mod Sequence
pub mod Chain
pub mod Piped
use cs61_f16_psets_team_md.Base.{
  ℕ, zero, suc, ◌+◌, ◌-◌, ◌*◌, Bool, true, false, not, ◌&&◌, ◌||◌, if◌then◌else◌, ◌==◌, Option,
  none, some, List, [], ◌∷◌, ◌++◌, Bytes, map, length, get_elem?, is_empty, ℤ, pos, negsuc,
}
use cs61_f16_psets_team_md.Shell.CommandList.{Command}
use cs61_f16_psets_team_md.Shell.System.{
  Status, exited, signaled, OpenMode, read_only, write_create, Action, setpgid, set_foreground,
  dup2, close, Shell, forks, waits, execs, pipes, opens, chdirs, acts, returns, exits, undefined,
  unfinished,
}
use cs61_f16_psets_team_md.Shell.Run.{
  Cell, new_cell, is_pipe, is_redirection, is_background, is_zero, failed, interrupted, same_bytes,
  waited, set_prev, Loop, run_conditional,
}
use cs61_f16_psets_team_md.Shell.CommandList.{parse_line}
use cs61_f16_psets_team_md.Shell.Pipeline.{run_pipeline}
use cs61_f16_psets_team_md.Shell.Redirect.{is_cd, run_redirection}

-- A round of the loop, with the rest of the loop.
unfoldable pub run_round : Loop → ℤ → Status → Cell → List Cell → Shell
unfolding is_cd run_redirection run_pipeline run_conditional
run_round loop pid status current rest =
    if is_empty current.command.argv
    then returns
    else if interrupted status
    then returns
    else if is_redirection current.command.control
    then run_redirection loop pid status current rest
    else if is_cd current.command.argv
    then chdirs (get_elem? current.command.argv 1) (λ done. loop pid status rest)
    else if is_pipe current.command.control
    then run_pipeline loop pid status (current ∷ rest)
    else run_conditional loop pid status current rest

-- The loop; `unfinished` is a run out of fuel.
unfoldable pub run_loop : ℕ → ℤ → Status → List Cell → Shell
unfolding run_round
run_loop zero pid status cells = unfinished
run_loop (suc fuel) pid status [] = returns
run_loop (suc fuel) pid status (current ∷ rest) = run_round (run_loop fuel) pid status current rest

-- A round takes a command of the list at least.
unfoldable pub run_list : List Cell → Shell
unfolding run_loop
run_list cells = run_loop (length cells + 1) (pos 0) (exited 0) cells

-- `eval_line` up to its frees.
unfoldable pub run_parsed : Option (List Command × Command) → Shell
unfolding run_list
run_parsed none = unfinished
run_parsed (some (before, current)) =
    let cells = map new_cell (before ++ current ∷ []) in
    elim cells [
      | [] ↦ returns
      | c ∷ cs ↦ if is_empty c.command.argv then returns else run_list (c ∷ cs)
    ]

unfoldable pub eval_line : Bytes → Shell
unfolding parse_line run_parsed
eval_line s = run_parsed (parse_line s)
