-- ===== src/Kernel/Exception/Fault.antt =====
-- A page fault of a process, and what runs behind an exception.
use cs61_f16_psets_team_md.Base.{ℕ, ◌≡◌, ◌<◌, true, false}
use cs61_f16_psets_team_md.Kernel.Schedule.{broken, nproc, is_runnable, States}
use cs61_f16_psets_team_md.Kernel.Schedule.RoundRobin.{IsNext}
use cs61_f16_psets_team_md.Kernel.Process.{Kernel, set_proc, set_pagetable}
use cs61_f16_psets_team_md.Kernel.Exception.{current_proc, Resumed, runs, spins}

abbrev pub states_of : Kernel → States
states_of k pid = (k.processes pid).p_state

-- The next runnable process behind the current one runs, or there is none and `schedule` spins.
pub data Switched (k : Kernel) : Resumed → Type 0 where
  switched :
      (next : ℕ)
      → IsNext (states_of k) (current_proc k).p_pid nproc next
      → Switched k (runs (record k { current = next }))
  idle : ((pid : ℕ) → pid < nproc → is_runnable (states_of k pid) ≡ false) → Switched k (spins k)

-- The page table of each runnable process passes the assertions of `set_pagetable`.
abbrev pub IsLoadable : Kernel → Type 0
IsLoadable k =
    (q : ℕ)
    → is_runnable (k.processes q).p_state ≡ true
    → set_pagetable k (k.processes q).p_pagetable ≡ true

-- The kernel in which the registers are saved and the current process is broken.
abbrev break_current : Kernel → Kernel
break_current k = set_proc k k.current (record (current_proc k) { p_state = broken })
