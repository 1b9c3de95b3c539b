-- ===== src/Kernel/Schedule.antt =====
-- The process table, `schedule` and `run` of pset4/kernel.c.
pub mod RoundRobin
mod Tests
use cs61_f16_psets_team_md.Base.{
  ℕ, zero, suc, ◌+◌, ◌%◌, Bool, true, false, Option, none, some, ◌==◌, if◌then◌else◌,
}

abbrev pub nproc : ℕ
nproc = 16

-- `procstate_t`.
pub data ProcState : Type 0 where
  free runnable blocked broken : ProcState

unfoldable pub is_runnable : ProcState → Bool
is_runnable runnable = true
is_runnable _ = false

-- The states of the processes by their IDs; `processes` has `nproc` entries.
abbrev pub States : Type 0
States = ℕ → ProcState

-- The loop of `schedule` from the process behind `pid` on: the process that it runs, or `none` if
-- none of `fuel` rounds finds a runnable one. (The source goes on until a key ends the machine.)
unfoldable pub schedule : ℕ → States → ℕ → Option ℕ
schedule zero states pid = none
schedule (suc fuel) states pid =
    let next = (pid + 1) % nproc in
    let rest = schedule fuel states next in if is_runnable (states next) then some next else rest
