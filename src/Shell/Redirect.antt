-- ===== src/Shell/Redirect.antt =====
-- The redirections of `run_list` in pset5/sh61.c.
pub mod Total
use cs61_f16_psets_team_md.Base.{
  ℕ, zero, suc, ◌+◌, ◌-◌, ◌*◌, Bool, true, false, not, ◌&&◌, ◌||◌, if◌then◌else◌, ◌==◌, Option,
  none, some, List, [], ◌∷◌, ◌++◌, Bytes, map, length, get_elem?, is_empty, ℤ, pos, negsuc,
}
use cs61_f16_psets_team_md.Shell.CommandList.{Command}
use cs61_f16_psets_team_md.Shell.System.{
  Status, exited, signaled, OpenMode, read_only, write_create, Action, setpgid, set_foreground,
  dup2, close, Shell, forks, waits, execs, pipes, opens, chdirs, acts, returns, exits, undefined,
  unfinished,
}
use cs61_f16_psets_team_md.Shell.Run.{
  Cell, new_cell, is_pipe, is_redirection, is_background, is_zero, failed, interrupted, same_bytes,
  waited, set_prev, Loop, run_conditional,
}
use cs61_f16_psets_team_md.Shell.Pipeline.{count_pipes, exec_argv, make_pipes, Plumbing, run_stages}

unfoldable pub count_redirects : List Cell → ℕ
count_redirects [] = 0
count_redirects (c ∷ cs) =
    let rest = count_redirects cs in if is_redirection c.command.control then 1 + rest else 0

-- `current = current->next`, `n` times; `none` where `current` is NULL before.
unfoldable pub advance : ℕ → List Cell → Option (List Cell)
advance zero cells = some cells
advance (suc n) [] = none
advance (suc n) (c ∷ cs) = advance n cs

-- The file that a redirection opens, and the descriptor that it replaces. Behind another token
-- `close` is called with a value that was never stored.
unfoldable pub redirect_file : Bytes → Bytes → (ℤ → Shell) → Shell
unfolding same_bytes
redirect_file token file opened =
    if same_bytes token (b'<' ∷ [])
    then opens read_only file
        (λ fd. if failed fd then exits 1 else acts (dup2 fd 0) (acts (close fd) (opened fd)))
    else if same_bytes token (b'>' ∷ [])
    then opens write_create file
        (λ fd. if failed fd then exits 1 else acts (dup2 fd 1) (acts (close fd) (opened fd)))
    else if same_bytes token (b'2' ∷ b'>' ∷ [])
    then opens write_create file
        (λ fd. if failed fd then exits 1 else acts (dup2 fd 2) (acts (close fd) (opened fd)))
    else undefined

-- A round of the loop on the command behind a redirection. Without arguments `argv` is NULL, and
-- `argv[0]` is undefined.
unfoldable pub redirect_command : Command → (ℤ → Shell) → Shell
unfolding redirect_file
redirect_command c opened = elim c.argv [
  | [] ↦ undefined
  | file ∷ words ↦ elim c.redirect_token [
    | none ↦ undefined
    | some token ↦ redirect_file token file opened
  ]
]

-- The loop, with the commands behind `current` and the descriptors so far.
unfoldable pub redirect_files :
    ℕ → Cell → List Cell → List ℤ → (Cell → List Cell → List ℤ → Shell) → Shell
unfolding redirect_command
redirect_files zero current rest fds then_do = then_do current rest fds
redirect_files (suc n) current [] fds then_do = exits 1
redirect_files (suc n) current (c ∷ cs) fds then_do =
    redirect_command c.command (λ fd. redirect_files n c cs (fds ++ fd ∷ []) then_do)

-- The branch of the child on a pipe. It makes new pipes, and does not use them.
unfoldable pub redirect_pipeline :
    Loop → ℤ → Status → List Bytes → Cell → List Cell → List ℤ → Shell
unfolding make_pipes run_stages
redirect_pipeline loop pid status cmd current rest fds =
    make_pipes (count_pipes (current ∷ rest)) [] (λ fd2.
      run_stages
        (record { fds = fds; num_pipes = count_pipes (current ∷ rest); redirected = some cmd }) loop
        pid status 0 (current ∷ rest) (pos 0))

-- `cd`, of the arguments of the last file.
abbrev pub cd : Bytes
cd = b'c' ∷ b'd' ∷ []

unfoldable pub is_cd : List Bytes → Bool
unfolding same_bytes
is_cd [] = false
is_cd (word ∷ words) = same_bytes word cd

unfoldable pub redirect_exec : List Bytes → Command → Shell → Shell
unfolding is_cd exec_argv
redirect_exec cmd c failing =
    if is_cd c.argv
    then chdirs (get_elem? c.argv 1) (λ done. if done then exits 0 else exits 1)
    else exec_argv cmd failing

-- The child, where `skip` is what follows the branch.
unfoldable pub redirect_child :
    Loop → ℤ → Status → ℕ → Cell → List Cell → (List Cell → Shell) → Shell
unfolding redirect_files redirect_pipeline redirect_exec
redirect_child loop pid status n current rest skip =
    redirect_files n current rest [] (λ last behind fds.
      if is_pipe last.command.control
      then redirect_pipeline loop pid status current.command.argv last behind fds
      else redirect_exec current.command.argv last.command (skip (last ∷ behind)))

-- The end of the branch, on the last command of the chain, and what is behind it.
unfoldable pub redirect_wait : Loop → ℤ → Status → Option (List Cell) → Shell
redirect_wait loop pid status none = undefined
redirect_wait loop pid status (some []) = undefined
redirect_wait loop pid status (some (c ∷ cs)) =
    if is_background c.command.control
    then loop pid status cs
    else waits c.pid (λ w. loop pid (waited w status) (set_prev (waited w status) cs))

-- `piped` is the number of pipes behind `cur`, which the commands are passed by.
unfoldable pub skip_pipes : Loop → ℤ → Status → ℕ → Option (List Cell) → Shell
unfolding advance redirect_wait
skip_pipes loop pid status piped none = undefined
skip_pipes loop pid status piped (some []) = undefined
skip_pipes loop pid status piped (some (c ∷ cs)) =
    redirect_wait loop pid status
      (if is_pipe c.command.control then advance piped (c ∷ cs) else some (c ∷ cs))

-- The number of pipes behind `cur`, the first command that no redirection follows.
unfoldable pub piped_behind : Option (List Cell) → ℕ
unfolding count_pipes
piped_behind none = 0
piped_behind (some cells) = count_pipes cells

-- The branch of `run_list`.
unfoldable pub run_redirection : Loop → ℤ → Status → Cell → List Cell → Shell
unfolding count_redirects advance skip_pipes piped_behind redirect_child
run_redirection loop pid status current rest =
    let n = count_redirects (current ∷ rest) in
    let piped = piped_behind (advance n (current ∷ rest)) in
    let skip : List Cell → Shell = λ cells. skip_pipes loop pid status piped (advance n cells) in
    forks (λ cpid.
      if is_zero cpid
      then redirect_child loop pid status n current rest skip
      else skip (current ∷ rest))
