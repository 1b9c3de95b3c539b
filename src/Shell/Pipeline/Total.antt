-- ===== src/Shell/Pipeline/Total.antt =====
-- The pipelines of `run_list` end, if what follows them does.
use cs61_f16_psets_team_md.Base.{
  ℕ, zero, suc, ◌+◌, ◌-◌, ◌*◌, ◌≤◌, arith, Option, none, some, List, [], ◌∷◌, ◌++◌, Bytes, length,
  get_elem?, ℤ, pos,
}
use cs61_f16_psets_team_md.Shell.System.{Status, set_foreground, Shell, waits, acts}
use cs61_f16_psets_team_md.Shell.Run.{Cell, is_zero, failed, waited, set_prev, Loop}
use cs61_f16_psets_team_md.Shell.Pipeline.{
  count_pipes, exec_argv, dup_fd, close_fd, close_fds, pipe_made, make_pipes, Plumbing, stage_input,
  stage_output, stage_exec, stage_child, stage_group, end_pipeline, run_stages, run_pipeline,
}
use cs61_f16_psets_team_md.Shell.Finishes.{
  Finishes, forking, waiting, executing, piping, acting, exiting, stuck, if_Finishes, FinishesOn,
  set_prev_le,
}

pub exec_argv-Finishes :
    (argv : List Bytes) (failing : Shell) → Finishes failing → Finishes (exec_argv argv failing)
unfolding exec_argv
exec_argv-Finishes [] failing h = stuck
exec_argv-Finishes (word ∷ words) failing h = executing h

dup_fd-Finishes :
    (fd : Option ℤ) (to : ℕ) (then_do : Shell) → Finishes then_do → Finishes (dup_fd fd to then_do)
unfolding dup_fd
dup_fd-Finishes none to then_do h = stuck
dup_fd-Finishes (some fd) to then_do h = acting h

close_fd-Finishes :
    (fd : Option ℤ) (then_do : Shell) → Finishes then_do → Finishes (close_fd fd then_do)
unfolding close_fd
close_fd-Finishes none then_do h = stuck
close_fd-Finishes (some fd) then_do h = acting h

close_fds-Finishes :
    (fds : List ℤ) (i left : ℕ) (then_do : Shell)
    → Finishes then_do
    → Finishes (close_fds fds i left then_do)
unfolding close_fds
close_fds-Finishes fds i zero then_do h = h
close_fds-Finishes fds i (suc left) then_do h =
    close_fd-Finishes (get_elem? fds i) _ (close_fds-Finishes fds (i + 1) left then_do h)

pipe_made-Finishes :
    (r : Option (ℤ × ℤ)) (k : ℤ → ℤ → Shell)
    → ((from to : ℤ) → Finishes (k from to))
    → Finishes (pipe_made r k)
unfolding pipe_made
pipe_made-Finishes none k h = exiting 1
pipe_made-Finishes (some (from, to)) k h = h from to

pub make_pipes-Finishes :
    (n : ℕ) (fds : List ℤ) (k : List ℤ → Shell)
    → ((fds' : List ℤ) → Finishes (k fds'))
    → Finishes (make_pipes n fds k)
unfolding make_pipes
make_pipes-Finishes zero fds k h = h fds
make_pipes-Finishes (suc n) fds k h =
    piping
      (λ r. pipe_made-Finishes r _ (λ from to. make_pipes-Finishes n (fds ++ from ∷ to ∷ []) k h))

stage_exec-Finishes :
    (cmd : Option (List Bytes)) (cmd_count : ℕ) (c : Cell) (failing : Shell)
    → Finishes failing
    → Finishes (stage_exec cmd cmd_count c failing)
unfolding stage_exec
stage_exec-Finishes none cmd_count c failing h = exec_argv-Finishes c.command.argv failing h
stage_exec-Finishes (some cmd) zero c failing h = exec_argv-Finishes cmd failing h
stage_exec-Finishes (some cmd) (suc n) c failing h =
    exec_argv-Finishes c.command.argv _ (exec_argv-Finishes cmd failing h)

stage_input-Finishes :
    (p : Plumbing) (cmd_count : ℕ) (then_do : Shell)
    → Finishes then_do
    → Finishes (stage_input p cmd_count then_do)
unfolding stage_input
stage_input-Finishes p zero then_do h = h
stage_input-Finishes p (suc n) then_do h = dup_fd-Finishes (get_elem? p.fds (suc n - 2)) 0 then_do h

stage_output-Finishes :
    (p : Plumbing) (cmd_count : ℕ) (cs : List Cell) (then_do : Shell)
    → Finishes then_do
    → Finishes (stage_output p cmd_count cs then_do)
unfolding stage_output
stage_output-Finishes p cmd_count [] then_do h = h
stage_output-Finishes p cmd_count (c ∷ cs) then_do h =
    dup_fd-Finishes (get_elem? p.fds (cmd_count + 1)) 1 then_do h

stage_child-Finishes :
    (p : Plumbing) (cmd_count : ℕ) (c : Cell) (cs : List Cell) (failing : Shell)
    → Finishes failing
    → Finishes (stage_child p cmd_count c cs failing)
unfolding stage_child
stage_child-Finishes p cmd_count c cs failing h = stage_input-Finishes p cmd_count _ (
    stage_output-Finishes p cmd_count cs _ (
      close_fds-Finishes p.fds 0 (2 * p.num_pipes) _
        (stage_exec-Finishes p.redirected cmd_count c failing h)))

stage_group-Finishes :
    (cmd : Option (List Bytes)) (pid : ℤ) (then_do : Shell)
    → Finishes then_do
    → Finishes (stage_group cmd pid then_do)
unfolding stage_group
stage_group-Finishes none pid then_do h = acting h
stage_group-Finishes (some cmd) pid then_do h = h

module _ (n : ℕ) (loop : Loop) (h : FinishesOn n loop) where
  end_pipeline-Finishes :
      (p : Plumbing) (pid : ℤ) (status : Status) (cells : List Cell) (cpid : ℤ)
      → length cells ≤ n
      → Finishes (end_pipeline p loop pid status cells cpid)
  unfolding end_pipeline
  end_pipeline-Finishes p pid status cells cpid le =
      close_fds-Finishes p.fds 0 (2 * p.num_pipes) _ (resumed p.redirected)
    where
      resumed :
          (cmd : Option (List Bytes))
          → Finishes (elim cmd [
            | none ↦ acts (set_foreground cpid) (
                waits cpid (λ w.
                  acts
                    (set_foreground (pos 0))
                    (loop pid (waited w status) (set_prev (waited w status) cells))))
            | some argv ↦
                waits cpid (λ w. loop pid (waited w status) (set_prev (waited w status) cells))
          ])
      resumed none = acting (
          waiting
            (λ w. acting (h pid (waited w status) _ (set_prev_le (waited w status) cells n le))))
      resumed (some argv) =
          waiting (λ w. h pid (waited w status) _ (set_prev_le (waited w status) cells n le))

  -- The first command of a pipeline is always taken.
  run_stages-Finishes :
      (p : Plumbing) (pid : ℤ) (status : Status) (cmd_count : ℕ) (cells : List Cell) (cpid : ℤ)
      → length cells ≤ n
      → Finishes (run_stages p loop pid status cmd_count cells cpid)
  unfolding run_stages
  run_stages-Finishes p pid status cmd_count [] cpid le =
      end_pipeline-Finishes p pid status [] cpid le
  run_stages-Finishes p pid status cmd_count (c ∷ cs) cpid le =
      let next : (cpid' : ℤ) → Finishes (run_stages p loop pid status (cmd_count + 2) cs cpid') =
        λ cpid'. run_stages-Finishes p pid status (cmd_count + 2) cs cpid' (omega (arith, le)) in
      if_Finishes _ _ _
        (forking (λ cpid'. if_Finishes (failed cpid') _ _ (exiting 1) (
          stage_group-Finishes p.redirected c.pid _ (
            if_Finishes (is_zero cpid') _ _ (stage_child-Finishes p cmd_count c cs _ (next cpid'))
              (next cpid')))))
        (end_pipeline-Finishes p pid status (c ∷ cs) cpid le)

  -- The first round of the loop over a pipeline takes its first command.
  pub first_stage-Finishes :
      (p : Plumbing) (pid : ℤ) (status : Status) (c : Cell) (cs : List Cell) (cpid : ℤ)
      → length cs ≤ n
      → Finishes (run_stages p loop pid status 0 (c ∷ cs) cpid)
  unfolding run_stages
  first_stage-Finishes p pid status c cs cpid le =
      let next : (cpid' : ℤ) → Finishes (run_stages p loop pid status (0 + 2) cs cpid') =
        λ cpid'. run_stages-Finishes p pid status (0 + 2) cs cpid' le in
      forking (λ cpid'. if_Finishes (failed cpid') _ _ (exiting 1) (
        stage_group-Finishes p.redirected c.pid _ (
          if_Finishes (is_zero cpid') _ _ (stage_child-Finishes p 0 c cs _ (next cpid'))
            (next cpid'))))

  pub run_pipeline-Finishes :
      (pid : ℤ) (status : Status) (c : Cell) (cs : List Cell)
      → length cs ≤ n
      → Finishes (run_pipeline loop pid status (c ∷ cs))
  unfolding run_pipeline
  run_pipeline-Finishes pid status c cs le = make_pipes-Finishes (count_pipes (c ∷ cs)) [] _ (λ fds.
      first_stage-Finishes
        (record { fds = fds; num_pipes = count_pipes (c ∷ cs); redirected = none }) pid status c cs
        (pos 0) le)
