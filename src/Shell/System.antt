-- ===== src/Shell/System.antt =====
-- What a process of the shell asks of the system, as a tree: each call has a continuation for each
-- of its results. Calls whose results pset5/sh61.c ignores are actions. Messages are left out.
use cs61_f16_psets_team_md.Base.{ℕ, Bool, Option, List, Bytes, ℤ}

-- A status of `waitpid`: WIFEXITED with WEXITSTATUS, or WIFSIGNALED with WTERMSIG.
pub data Status : Type 0 where
  exited : ℕ → Status
  signaled : ℕ → Status

-- The flags O_RDONLY, and O_WRONLY | O_CREAT.
pub data OpenMode : Type 0 where
  read_only write_create : OpenMode

pub data Action : Type 0 where
  setpgid : ℤ → ℤ → Action
  set_foreground : ℤ → Action
  dup2 : ℤ → ℕ → Action
  close : ℤ → Action

-- `fork` returns in both processes: with 0 in the child, with its ID or -1 in the parent. `waitpid`
-- returns no status where it fails. What follows `exec` is what the process does if that fails.
pub data Shell : Type 0 where
  forks : (ℤ → Shell) → Shell
  waits : ℤ → (Option Status → Shell) → Shell
  execs : List Bytes → Shell → Shell
  pipes : (Option (ℤ × ℤ) → Shell) → Shell
  opens : OpenMode → Bytes → (ℤ → Shell) → Shell
  chdirs : Option Bytes → (Bool → Shell) → Shell
  acts : Action → Shell → Shell
  -- The function returns to its caller, in this process.
  returns : Shell
  exits : ℕ → Shell
  -- A NULL pointer, or a value that was never stored, is used.
  undefined : Shell
  unfinished : Shell
