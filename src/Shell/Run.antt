-- ===== src/Shell/Run.antt =====
-- `start_command` and `run_list` of pset5/sh61.c. `current` is the head of a list of cells, and its
-- `next` the rest. The loop only goes forward, so that a store in a cell is seen by the cells ahead
-- alone.
pub mod Total
use cs61_f16_psets_team_md.Base.{
  ℕ, zero, suc, ◌+◌, ◌-◌, ◌*◌, Bool, true, false, not, ◌&&◌, ◌||◌, if◌then◌else◌, ◌==◌, Option,
  none, some, List, [], ◌∷◌, ◌++◌, Bytes, map, length, get_elem?, ℤ, pos, negsuc,
}
use cs61_f16_psets_team_md.Shell.Lexer.{
  TokenType, normal, redirection, sequence, background, pipe, and, or, lparen, rparen, other,
}
use cs61_f16_psets_team_md.Shell.CommandList.{Command}
use cs61_f16_psets_team_md.Shell.System.{
  Status, exited, signaled, OpenMode, read_only, write_create, Action, setpgid, set_foreground,
  dup2, close, Shell, forks, waits, execs, pipes, opens, chdirs, acts, returns, exits, undefined,
  unfinished,
}

-- `struct command` with the fields that running sets.
pub record Cell : Type 0 where
  pub command : Command
  pub pid : ℤ
  pub prev_status : Status

abbrev pub new_cell : Command → Cell
new_cell c = record { command = c; pid = negsuc 0; prev_status = exited 0 }

-- Tests of the operators.
abbrev pub is_pipe : Option TokenType → Bool
is_pipe (some pipe) = true
is_pipe o = false

abbrev pub is_redirection : Option TokenType → Bool
is_redirection (some redirection) = true
is_redirection o = false

abbrev pub is_background : Option TokenType → Bool
is_background (some background) = true
is_background o = false

abbrev pub is_and : Option TokenType → Bool
is_and (some and) = true
is_and o = false

abbrev pub is_or : Option TokenType → Bool
is_or (some or) = true
is_or o = false

abbrev pub is_and_or : Option TokenType → Bool
is_and_or o = is_and o || is_or o

abbrev pub is_zero : ℤ → Bool
is_zero (pos n) = n == 0
is_zero (negsuc n) = false

-- `-1`.
abbrev pub failed : ℤ → Bool
failed (pos n) = false
failed (negsuc n) = n == 0

-- WIFSIGNALED(status) != 0 && WTERMSIG(status) == SIGINT.
abbrev pub interrupted : Status → Bool
interrupted (exited n) = false
interrupted (signaled n) = n == 2

-- `!strcmp(a, b)`.
unfoldable pub same_bytes : Bytes → Bytes → Bool
same_bytes [] [] = true
same_bytes [] (b ∷ bs) = false
same_bytes (a ∷ as') [] = false
same_bytes (a ∷ as') (b ∷ bs) = let rest = same_bytes as' bs in a == b && rest

-- `status` behind `waitpid(..., &status, 0)`.
abbrev pub waited : Option Status → Status → Status
waited none status = status
waited (some status') status = status'

-- `if (current->next) current->next->prev_status = status`.
abbrev pub set_prev : Status → List Cell → List Cell
set_prev status [] = []
set_prev status (c ∷ cs) = record c { prev_status = status } ∷ cs

-- `start_command`, with what follows the call.
unfoldable pub start_command : Cell → (ℤ → Shell) → Shell
start_command c then_do = forks (λ pid.
    acts (setpgid pid pid)
      (if is_zero pid then execs c.command.argv (then_do pid) else then_do pid))

-- The rest of the list, with the values of `pid` and `status`.
abbrev pub Loop : Type 0
Loop = ℤ → Status → List Cell → Shell

-- The end of a round: the command runs, and is waited for unless it is in the background.
unfoldable pub run_command : Loop → ℤ → Status → Cell → List Cell → Shell
unfolding start_command
run_command loop pid status current rest = start_command current (λ started.
    if is_background current.command.control
    then loop pid status rest
    else acts (set_foreground started) (
        waits started (λ w.
          acts (set_foreground (pos 0))
            (loop pid (waited w status) (set_prev (waited w status) rest)))))

-- The test for the end of a chain of conditionals.
unfoldable pub end_chain : Loop → ℤ → Status → Cell → List Cell → Shell
unfolding start_command run_command
end_chain loop pid status current rest =
    if is_and_or current.command.conditional && not (is_and_or current.command.control)
    then (if is_zero pid
        then start_command current (λ started.
          acts (set_foreground started)
            (waits started (λ w. acts (set_foreground (pos 0)) (exits 0))))
        else if is_background current.command.control
        then loop (pos 0) status rest
        else waits pid (λ w. loop (pos 0) (waited w status) rest))
    else run_command loop pid status current rest

-- The tests of `prev_status` in a child.
unfoldable pub skips : Option TokenType → Status → Bool
skips conditional (signaled n) = true
skips conditional (exited n) = (is_and conditional && not (n == 0)) || (is_or conditional && n == 0)

unfoldable pub run_chained : Loop → Status → Cell → List Cell → ℤ → Shell
unfolding skips end_chain
run_chained loop status current rest pid =
    if not (is_zero pid) && is_and_or current.command.control
    then loop pid status rest
    else if is_zero pid
    then (if skips current.command.conditional current.prev_status
        then loop pid status (set_prev current.prev_status rest)
        else end_chain loop pid status current (set_prev current.prev_status rest))
    else end_chain loop pid status current rest

-- The conditionals: a chain is forked at its first command.
unfoldable pub run_conditional : Loop → ℤ → Status → Cell → List Cell → Shell
unfolding run_chained
run_conditional loop pid status current rest =
    if is_and_or current.command.control && not (is_and_or current.command.conditional)
    then forks (run_chained loop status current rest)
    else run_chained loop status current rest pid
