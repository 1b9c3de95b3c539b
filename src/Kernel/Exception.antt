-- ===== src/Kernel/Exception.antt =====
-- `exception` and `run` of pset4/kernel.c: the system calls and interrupts, up to the process that
-- runs next. What is drawn and logged is left out, as is the key that ends the machine.
mod PageAlloc
mod Fault
mod Tests
use cs61_f16_psets_team_md.Base.{
  ℕ, zero, suc, ◌+◌, ◌-◌, ◌*◌, ◌/◌, ◌%◌, ◌^◌, Bool, true, false, not, ◌&&◌, ◌||◌, if◌then◌else◌,
  ◌==◌, Option, none, some,
}
use cs61_f16_psets_team_md.Kernel.Pages.{page_size, PageTable, process, take_page}
use cs61_f16_psets_team_md.Kernel.Schedule.{runnable, broken, nproc, is_runnable, schedule}
use cs61_f16_psets_team_md.Kernel.Paging.{pte_pwu}
use cs61_f16_psets_team_md.Kernel.Process.{
  Registers, Proc, Kernel, set_pagetable, set_proc, map_memory,
}
use cs61_f16_psets_team_md.Kernel.Fork.{Forked, forked, panicked, fork}
use cs61_f16_psets_team_md.Kernel.Check.{check_virtual_memory}

-- How a case of the switch ends: it breaks off, it calls `schedule`, or the kernel stops at
-- `panic`, an assertion or a fault.
pub data Handled : Type 0 where
  breaks : Kernel → Handled
  yields : Kernel → Handled
  stops : Handled

abbrev pub current_proc : Kernel → Proc
current_proc k = k.processes k.current

abbrev pub set_rax : Kernel → ℕ → Kernel
set_rax k v =
    set_proc k k.current (record (current_proc k) {
      p_registers = record (current_proc k).p_registers { reg_rax = v };
    })

-- INT_SYS_PAGE_ALLOC.
unfoldable pub page_mapped : Option Kernel → Handled
page_mapped none = stops
page_mapped (some k) = breaks (set_rax k 0)

unfoldable pub page_taken : Kernel → Option (PageTable × ℕ × Bool) → Handled
unfolding page_mapped map_memory
page_taken k none = stops
page_taken k (some (info, pa, false)) = breaks (set_rax k (2 ^ 64 - 1))
page_taken k (some (info, pa, true)) = page_mapped (
    map_memory (record k { pageinfo = info }) (current_proc k).p_pagetable
      (current_proc k).p_registers.reg_rdi pa page_size pte_pwu)

unfoldable pub sys_page_alloc : Kernel → Handled
unfolding page_taken take_page
sys_page_alloc k = page_taken k (take_page k.pageinfo (process (current_proc k).p_pid))

-- PFERR_USER.
abbrev pub is_user : ℕ → Bool
is_user err = (err / 4) % 2 == 1

-- INT_PAGEFAULT.
unfoldable pub page_fault : Kernel → ℕ → Handled
page_fault k err =
    if not (is_user err)
    then stops
    else breaks (set_proc k k.current (record (current_proc k) { p_state = broken }))

-- INT_SYS_FORK.
unfoldable pub sys_fork : Forked → Handled
sys_fork (forked k child) = breaks k
sys_fork panicked = stops

-- The numbers of the interrupts and system calls.
abbrev pub int_pagefault : ℕ
int_pagefault = 14

abbrev pub int_timer : ℕ
int_timer = 32

abbrev pub int_sys_panic : ℕ
int_sys_panic = 48

abbrev pub int_sys_getpid : ℕ
int_sys_getpid = 49

abbrev pub int_sys_yield : ℕ
int_sys_yield = 50

abbrev pub int_sys_page_alloc : ℕ
int_sys_page_alloc = 51

abbrev pub int_sys_fork : ℕ
int_sys_fork = 52

-- The switch.
unfoldable pub handle : Kernel → ℕ → ℕ → Handled
unfolding sys_page_alloc page_fault sys_fork
handle k intno err =
    if intno == int_sys_panic
    then stops
    else if intno == int_sys_getpid
    then breaks (set_rax k (current_proc k).p_pid)
    else if intno == int_sys_yield
    then yields k
    else if intno == int_sys_page_alloc
    then sys_page_alloc k
    else if intno == int_timer
    then yields (record k { ticks = (k.ticks + 1) % 2 ^ 32 })
    else if intno == int_pagefault
    then page_fault k err
    else if intno == int_sys_fork
    then sys_fork (fork k)
    else stops

-- Behind an exception the current process runs, or `schedule` goes round for ever, or the kernel
-- has stopped.
pub data Resumed : Type 0 where
  runs : Kernel → Resumed
  spins : Kernel → Resumed
  stopped : Resumed

-- `run`, with the assertions of `set_pagetable`.
unfoldable pub run : Kernel → ℕ → Resumed
unfolding is_runnable set_pagetable
run k pid =
    if is_runnable (k.processes pid).p_state && set_pagetable k (k.processes pid).p_pagetable
    then runs (record k { current = pid })
    else stopped

-- `schedule` with its call of `run`. A turn of the table that finds nothing is repeated for ever.
unfoldable pub run_found : Kernel → Option ℕ → Resumed
unfolding run
run_found k none = spins k
run_found k (some pid) = run k pid

unfoldable pub reschedule : Kernel → Resumed
unfolding run_found schedule
reschedule k =
    run_found k (schedule nproc (λ pid. (k.processes pid).p_state) (current_proc k).p_pid)

-- The end of `exception`.
unfoldable pub resume : Handled → Resumed
unfolding run reschedule is_runnable
resume (breaks k) = if is_runnable (current_proc k).p_state then run k k.current else reschedule k
resume (yields k) = reschedule k
resume stops = stopped

-- The registers of the current process are saved, and the invariants are checked unless the kernel
-- itself has faulted.
abbrev pub save_registers : Kernel → Registers → Kernel
save_registers k reg = set_proc k k.current (record (current_proc k) { p_registers = reg })

unfoldable pub exception : ℕ → ℕ → Kernel → Registers → Resumed
unfolding set_pagetable handle resume check_virtual_memory
exception start_data end k reg =
    let saved = save_registers k reg in
    if not (set_pagetable saved saved.kernel_pagetable)
    then stopped
    else if (not (reg.reg_intno == int_pagefault) || is_user reg.reg_err)
        && not (check_virtual_memory start_data end saved)
    then stopped
    else resume (handle saved reg.reg_intno reg.reg_err)
