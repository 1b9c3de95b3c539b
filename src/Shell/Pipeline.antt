-- ===== src/Shell/Pipeline.antt =====
-- The pipelines of `run_list` in pset5/sh61.c.
pub mod Total
use cs61_f16_psets_team_md.Base.{
  ℕ, zero, suc, ◌+◌, ◌-◌, ◌*◌, Bool, true, false, not, ◌&&◌, ◌||◌, if◌then◌else◌, ◌==◌, Option,
  none, some, List, [], ◌∷◌, ◌++◌, Bytes, map, length, get_elem?, is_empty, ℤ, pos, negsuc,
}
use cs61_f16_psets_team_md.Shell.CommandList.{Command}
use cs61_f16_psets_team_md.Shell.System.{
  Status, exited, signaled, OpenMode, read_only, write_create, Action, setpgid, set_foreground,
  dup2, close, Shell, forks, waits, execs, pipes, opens, chdirs, acts, returns, exits, undefined,
  unfinished,
}
use cs61_f16_psets_team_md.Shell.Run.{
  Cell, new_cell, is_pipe, is_redirection, is_background, is_zero, failed, interrupted, same_bytes,
  waited, set_prev, Loop, run_conditional,
}

-- The loop that counts the commands that a pipe follows.
unfoldable pub count_pipes : List Cell → ℕ
count_pipes [] = 0
count_pipes (c ∷ cs) =
    let rest = count_pipes cs in if is_pipe c.command.control then 1 + rest else 0

-- `execvp(argv[0], argv)`, where `argv` is NULL without arguments.
unfoldable pub exec_argv : List Bytes → Shell → Shell
exec_argv [] failing = undefined
exec_argv (word ∷ words) failing = execs (word ∷ words) failing

-- `dup2(fd[i], to)` and `close(fd[i])`. Behind the end of the array the value is undefined.
unfoldable pub dup_fd : Option ℤ → ℕ → Shell → Shell
dup_fd none to then_do = undefined
dup_fd (some fd) to then_do = acts (dup2 fd to) then_do

unfoldable pub close_fd : Option ℤ → Shell → Shell
close_fd none then_do = undefined
close_fd (some fd) then_do = acts (close fd) then_do

-- The loops that close `fd[i]` and the descriptors behind it.
unfoldable pub close_fds : List ℤ → ℕ → ℕ → Shell → Shell
unfolding close_fd
close_fds fds i zero then_do = then_do
close_fds fds i (suc left) then_do = close_fd (get_elem? fds i) (close_fds fds (i + 1) left then_do)

-- The loops that make the pipes, with the descriptors so far.
unfoldable pub pipe_made : Option (ℤ × ℤ) → (ℤ → ℤ → Shell) → Shell
pipe_made none then_do = exits 1
pipe_made (some (from, to)) then_do = then_do from to

unfoldable pub make_pipes : ℕ → List ℤ → (List ℤ → Shell) → Shell
unfolding pipe_made
make_pipes zero fds then_do = then_do fds
make_pipes (suc n) fds then_do =
    pipes (λ r. pipe_made r (λ from to. make_pipes n (fds ++ from ∷ to ∷ []) then_do))

-- What the two loops over a pipeline differ in: the pipeline behind a redirection takes its
-- descriptors from the array `fd` of the redirections, and runs `cmd` first.
pub record Plumbing : Type 0 where
  pub fds : List ℤ
  pub num_pipes : ℕ
  pub redirected : Option (List Bytes)

-- The child: its standard input and output, the descriptors to close, and the program.
unfoldable pub stage_input : Plumbing → ℕ → Shell → Shell
unfolding dup_fd
stage_input p zero then_do = then_do
stage_input p (suc n) then_do = dup_fd (get_elem? p.fds (suc n - 2)) 0 then_do

unfoldable pub stage_output : Plumbing → ℕ → List Cell → Shell → Shell
unfolding dup_fd
stage_output p cmd_count [] then_do = then_do
stage_output p cmd_count (c ∷ cs) then_do = dup_fd (get_elem? p.fds (cmd_count + 1)) 1 then_do

unfoldable pub stage_exec : Option (List Bytes) → ℕ → Cell → Shell → Shell
unfolding exec_argv
stage_exec none cmd_count c failing = exec_argv c.command.argv failing
stage_exec (some cmd) zero c failing = exec_argv cmd failing
stage_exec (some cmd) (suc n) c failing = exec_argv c.command.argv (exec_argv cmd failing)

unfoldable pub stage_child : Plumbing → ℕ → Cell → List Cell → Shell → Shell
unfolding stage_input stage_output close_fds stage_exec
stage_child p cmd_count c cs failing = stage_input p cmd_count (
    stage_output p cmd_count cs
      (close_fds p.fds 0 (2 * p.num_pipes) (stage_exec p.redirected cmd_count c failing)))

-- `setpgid(current->pid, current->pid)`, which the pipeline behind a redirection does not call.
unfoldable pub stage_group : Option (List Bytes) → ℤ → Shell → Shell
stage_group none pid then_do = acts (setpgid pid pid) then_do
stage_group (some cmd) pid then_do = then_do

-- The end of a pipeline: the descriptors are closed, and its last process is waited for.
unfoldable pub end_pipeline : Plumbing → Loop → ℤ → Status → List Cell → ℤ → Shell
unfolding close_fds
end_pipeline p loop pid status cells cpid =
    let resumed : Option Status → Shell =
      λ w. loop pid (waited w status) (set_prev (waited w status) cells) in
    close_fds p.fds 0 (2 * p.num_pipes) (elim p.redirected [
      | none ↦
          acts (set_foreground cpid) (waits cpid (λ w. acts (set_foreground (pos 0)) (resumed w)))
      | some cmd ↦ waits cpid resumed
    ])

-- The loop over the commands of a pipeline.
unfoldable pub run_stages : Plumbing → Loop → ℤ → Status → ℕ → List Cell → ℤ → Shell
unfolding stage_child stage_group end_pipeline
run_stages p loop pid status cmd_count [] cpid = end_pipeline p loop pid status [] cpid
run_stages p loop pid status cmd_count (c ∷ cs) cpid =
    let next : ℤ → Shell = run_stages p loop pid status (cmd_count + 2) cs in
    if cmd_count == 0 || is_pipe c.command.conditional
    then forks (λ cpid'.
      if failed cpid'
      then exits 1
      else stage_group p.redirected c.pid
          (if is_zero cpid' then stage_child p cmd_count c cs (next cpid') else next cpid'))
    else end_pipeline p loop pid status (c ∷ cs) cpid

-- The branch of `run_list`. `cpid` has no value before the first fork.
unfoldable pub run_pipeline : Loop → ℤ → Status → List Cell → Shell
unfolding make_pipes run_stages
run_pipeline loop pid status cells = make_pipes (count_pipes cells) [] (λ fds.
    run_stages (record { fds = fds; num_pipes = count_pipes cells; redirected = none }) loop pid
      status 0 cells (pos 0))
