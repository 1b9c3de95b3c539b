-- ===== src/Shell/Behaviour.antt =====
-- What the processes of a tree do on a system where each fork succeeds, a program that can be
-- executed ends with a given status, and each process is run to its end when it is forked. Where a
-- program cannot be executed, `execvp` returns and the process goes on. Files and pipes are not
-- looked at.
use cs61_f16_psets_team_md.Base.{
  ℕ, suc, ◌+◌, Bool, true, if◌then◌else◌, ◌==◌, Option, none, some, List, [], ◌∷◌, ◌++◌, Bytes, ℤ,
  pos, negsuc,
}
use cs61_f16_psets_team_md.Shell.System.{
  Status, exited, signaled, Shell, forks, waits, execs, pipes, opens, chdirs, acts, returns, exits,
  undefined, unfinished,
}

-- The programs that can be executed, and the statuses that they end with.
pub record World : Type 0 where
  pub found : List Bytes → Bool
  pub status : List Bytes → Status

-- How a process ends: with a status, or by a return from the function, to go on as a shell.
pub data Ending : Type 0 where
  ended : Status → Ending
  returned : Ending

-- The programs that a process and its children execute, in order, the number of processes that go
-- on as a shell, and the processes that it waits for itself.
pub record Outcome : Type 0 where
  pub started : List (List Bytes)
  pub shells : ℕ
  pub ending : Ending
  pub next_pid : ℕ
  pub awaited : List ℤ

-- A shell ends with the status 0 in the end, and a process that uses an undefined value with a
-- signal.
abbrev pub status_of : Ending → Status
status_of (ended s) = s
status_of returned = exited 0

abbrev pub learn : (ℕ → Option Status) → ℕ → Status → ℕ → Option Status
learn known n s m = if m == n then some s else known m

abbrev pub status_known : (ℕ → Option Status) → ℤ → Option Status
status_known known (pos n) = known n
status_known known (negsuc n) = none

-- The parent of a child that has run.
abbrev pub behind_child : Outcome → Outcome → Outcome
behind_child c p = record {
  started = c.started ++ p.started;
  shells = c.shells + p.shells;
  ending = p.ending;
  next_pid = p.next_pid;
  awaited = p.awaited;
}

abbrev pub final : ℕ → Ending → ℕ → Outcome
final shells ending n = record {
  started = [];
  shells = shells;
  ending = ending;
  next_pid = n;
  awaited = [];
}

unfoldable pub behave : World → (ℕ → Option Status) → ℕ → Shell → Outcome
behave program known n (forks k) =
    let c = behave program (λ m. none) (suc n) (k (pos 0)) in
    behind_child c (behave program (learn known n (status_of c.ending)) c.next_pid (k (pos n)))
behave program known n (waits pid k) =
    let o = behave program known n (k (status_known known pid)) in
    record o { awaited = pid ∷ o.awaited }
behave program known n (execs argv failing) =
    let o = behave program known n failing in
    if program.found argv
    then record {
      started = argv ∷ [];
      shells = 0;
      ending = ended (program.status argv);
      next_pid = n;
      awaited = [];
    }
    else o
behave program known n (pipes k) = behave program known n (k none)
behave program known n (opens mode file k) = behave program known n (k (pos 3))
behave program known n (chdirs dir k) = behave program known n (k true)
behave program known n (acts action then_do) = behave program known n then_do
behave program known n returns = final 1 returned n
behave program known n (exits status) = final 0 (ended (exited status)) n
behave program known n undefined = final 0 (ended (signaled 11)) n
behave program known n unfinished = final 0 (ended (signaled 11)) n
