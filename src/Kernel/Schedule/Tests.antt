-- ===== src/Kernel/Schedule/Tests.antt =====
-- The theorem on `schedule` where process 3 is the only runnable one.
use cs61_f16_psets_team_md.Base.{ℕ, ◌≡◌, refl, arith, some, ◌==◌, if◌then◌else◌}
use cs61_f16_psets_team_md.Kernel.Schedule.{States, ProcState, is_runnable, schedule}
use cs61_f16_psets_team_md.Kernel.Schedule.RoundRobin.{IsNext, schedule_total}

abbrev states : States
states pid = if pid == 3 then ProcState.runnable else ProcState.broken

schedule_total_example : (next : ℕ) × (schedule 16 states 3 ≡ some next) × IsNext states 3 16 next
unfolding is_runnable
schedule_total_example = schedule_total states 3 3 (omega arith) refl
