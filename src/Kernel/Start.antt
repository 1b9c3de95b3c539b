-- ===== src/Kernel/Start.antt =====
-- The start of the kernel: `virtual_memory_init` of pset4/k-hardware.c and `kernel` of
-- pset4/kernel.c, without the segments, the interrupt controller, the timer and the console. `base`
-- is the address at which the linker puts `kernel_pagetables`, and `end` the end of the kernel's
-- data. `none` is an assertion that fails or a fault.
pub mod Started
pub mod Identity
mod Tests
use cs61_f16_psets_team_md.Base.{
  ℕ, zero, suc, ◌+◌, ◌*◌, Bool, true, false, ◌&&◌, if◌then◌else◌, ◌>>=◌, ltb, ◌==◌, Option, none,
  some, List, [], ◌∷◌, Bytes, ℤ, pos, negsuc,
}
use cs61_f16_psets_team_md.Kernel.Pages.{page_size, memsize_physical, pageinfo_init}
use cs61_f16_psets_team_md.Kernel.Schedule.{ProcState, nproc}
use cs61_f16_psets_team_md.Kernel.Schedule.{free as free_slot}
use cs61_f16_psets_team_md.Kernel.Paging.{pte_pwu, set_entry, clear_table}
use cs61_f16_psets_team_md.Kernel.Process.{
  Registers, Proc, Kernel, proc_start_addr, set_proc, map_memory,
}
use cs61_f16_psets_team_md.Kernel.Setup.{no_registers, process_setup}
use cs61_f16_psets_team_md.Kernel.Strings.{strcmp}
use cs61_f16_psets_team_md.Kernel.Exception.{Resumed, stopped, run}

-- `console`, of link/shared.ld.
abbrev pub console : ℕ
console = 0xB_8000

-- `&kernel_pagetables[i]`.
abbrev pub kernel_table : ℕ → ℕ → ℕ
kernel_table base i = base + i * page_size

-- `memset(kernel_pagetables, 0, ...)`, of `n` tables.
unfoldable pub clear_tables : ℕ → ℕ → (ℕ → ℕ → ℕ) → ℕ → ℕ → ℕ
unfolding clear_table
clear_tables zero base t = t
clear_tables (suc n) base t = clear_table (clear_tables n base t) (kernel_table base n)

unfoldable pub link_tables : (ℕ → ℕ → ℕ) → ℕ → ℕ → ℕ → ℕ
unfolding clear_tables set_entry
link_tables t base =
    let t0 = clear_tables 5 base t in
    let t1 = set_entry t0 (kernel_table base 0) 0 (kernel_table base 1 + pte_pwu) in
    let t2 = set_entry t1 (kernel_table base 1) 0 (kernel_table base 2 + pte_pwu) in
    let t3 = set_entry t2 (kernel_table base 2) 0 (kernel_table base 3 + pte_pwu) in
    set_entry t3 (kernel_table base 2) 1 (kernel_table base 4 + pte_pwu)

unfoldable pub virtual_memory_init : Kernel → ℕ → Option Kernel
unfolding link_tables map_memory
virtual_memory_init k base =
    map_memory (record k { entries = link_tables k.entries base; kernel_pagetable = base }) base 0 0
      memsize_physical pte_pwu

-- The memset of `processes`, which has `nproc` entries, and the loop behind it.
abbrev pub no_process : Proc
no_process = record { p_pid = 0; p_registers = no_registers; p_state = free_slot; p_pagetable = 0 }

abbrev pub clear_processes : Kernel → Kernel
clear_processes k = record k {
  processes = λ pid. if ltb pid nproc then no_process else k.processes pid;
}

unfoldable pub init_processes : ℕ → Kernel → Kernel
init_processes zero k = k
init_processes (suc n) k =
    let k' = init_processes n k in
    set_proc k' n (record (k'.processes n) { p_pid = n; p_state = free_slot })

-- Step 1: the kernel's memory is closed to processes, and the console is open.
unfoldable pub isolate_kernel : Kernel → Option Kernel
unfolding map_memory
isolate_kernel k = map_memory k k.kernel_pagetable 0 0 proc_start_addr 3 >>= λ k'.
    map_memory k' k'.kernel_pagetable console console page_size 7

-- `kernel` up to its first process.
unfoldable pub start_kernel : ℕ → ℕ → Kernel → Option Kernel
unfolding virtual_memory_init pageinfo_init init_processes isolate_kernel
start_kernel base end k = virtual_memory_init k base >>= λ k'. isolate_kernel (
    init_processes nproc (clear_processes (record k' { pageinfo = pageinfo_init end k'.pageinfo })))

-- The processes that `command` asks for, with their programs.
abbrev pub fork_command : Bytes
fork_command = b'f' ∷ b'o' ∷ b'r' ∷ b'k' ∷ []

abbrev pub forkexit_command : Bytes
forkexit_command = b'f' ∷ b'o' ∷ b'r' ∷ b'k' ∷ b'e' ∷ b'x' ∷ b'i' ∷ b't' ∷ []

abbrev pub is_equal : ℤ → Bool
is_equal (pos n) = n == 0
is_equal (negsuc n) = false

abbrev pub four_programs : List (ℕ × ℕ)
four_programs = (1, 0) ∷ (2, 1) ∷ (3, 2) ∷ (4, 3) ∷ []

unfoldable pub programs_of : Option Bytes → List (ℕ × ℕ)
unfolding strcmp
programs_of none = four_programs
programs_of (some command) =
    if is_equal (strcmp command fork_command)
    then (1, 4) ∷ []
    else if is_equal (strcmp command forkexit_command)
    then (1, 5) ∷ []
    else four_programs

-- The calls of `process_setup`; `load` is `program_load`.
unfoldable pub setup_programs :
    (ℕ → Kernel → ℕ → Option Kernel) → List (ℕ × ℕ) → Kernel → Option Kernel
unfolding process_setup
setup_programs load [] k = some k
setup_programs load ((pid, program) ∷ rest) k =
    process_setup (load program) k pid >>= setup_programs load rest

-- `kernel`, with `run(&processes[1])`.
unfoldable pub run_first : Option Kernel → Resumed
unfolding run
run_first none = stopped
run_first (some k) = run k 1

unfoldable pub boot : (ℕ → Kernel → ℕ → Option Kernel) → Option Bytes → ℕ → ℕ → Kernel → Resumed
unfolding start_kernel setup_programs programs_of run_first
boot load command base end k =
    run_first (start_kernel base end k >>= setup_programs load (programs_of command))
