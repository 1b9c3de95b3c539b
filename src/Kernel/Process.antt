-- ===== src/Kernel/Process.antt =====
-- The processes of pset4/kernel.c, and how `sys_exit` frees one. The fields of `Kernel` are the
-- kernel's globals, and the addresses of `default_int_handler` and `virtual_memory_map`, which the
-- linker chooses; the entries of all page tables stand by their addresses, as in Paging, and the
-- other bytes of memory in `memory`.
mod Exit
pub mod Tests
use cs61_f16_psets_team_md.Base.{
  ℕ, zero, suc, ◌+◌, ◌-◌, ◌*◌, ◌/◌, ◌%◌, ◌^◌, Bool, true, false, ◌&&◌, if◌then◌else◌, ltb, leb,
  ◌==◌, Option, none, some,
}
use cs61_f16_psets_team_md.Kernel.Pages.{
  page_size, memsize_physical, PageInfo, PageTable, Owner, process, reserved, kernel, free,
  set_page,
}
use cs61_f16_psets_team_md.Kernel.Schedule.{ProcState}
use cs61_f16_psets_team_md.Kernel.Schedule.{free as free_slot}
use cs61_f16_psets_team_md.Kernel.Paging.{
  Tables, Mapped, ok, missing, panic, Vamapping, mapped, unmapped, virtual_memory_map,
  virtual_memory_lookup,
}
use cs61_f16_psets_team_md.Kernel.Memory.{Memory}

-- The registers that the kernel's C code reads or sets.
pub record Registers : Type 0 where
  pub reg_rax : ℕ
  pub reg_rdi : ℕ
  pub reg_rsp : ℕ
  pub reg_rip : ℕ
  pub reg_intno : ℕ
  pub reg_err : ℕ

pub record Proc : Type 0 where
  pub p_pid : ℕ
  pub p_registers : Registers
  pub p_state : ProcState
  pub p_pagetable : ℕ

pub record Kernel : Type 0 where
  pub processes : ℕ → Proc
  pub current : ℕ
  pub ticks : ℕ
  pub pageinfo : PageTable
  pub entries : ℕ → ℕ → ℕ
  pub memory : Memory
  pub kernel_pagetable : ℕ
  pub default_int_handler : ℕ
  pub map_function : ℕ

abbrev pub proc_start_addr : ℕ
proc_start_addr = 0x10_0000

abbrev pub memsize_virtual : ℕ
memsize_virtual = 0x30_0000

abbrev pub set_proc : Kernel → ℕ → Proc → Kernel
set_proc k pid p = record k { processes = λ q. if q == pid then p else k.processes q }

-- The fields of a mapping; -1 is the residue of its type where there is none.
abbrev pub vam_pn : Vamapping → ℕ
vam_pn (mapped pn pa perm) = pn
vam_pn unmapped = 2 ^ 32 - 1

abbrev pub vam_pa : Vamapping → ℕ
vam_pa (mapped pn pa perm) = pa
vam_pa unmapped = 2 ^ 64 - 1

abbrev pub vam_perm : Vamapping → ℕ
vam_perm (mapped pn pa perm) = perm
vam_perm unmapped = 0

-- The assertions of `set_pagetable`.
unfoldable pub set_pagetable : Kernel → ℕ → Bool
set_pagetable k pagetable =
    pagetable % page_size == 0
    && vam_pa (virtual_memory_lookup k.entries pagetable k.default_int_handler)
      == k.default_int_handler
    && vam_pa (virtual_memory_lookup k.entries k.kernel_pagetable pagetable) == pagetable
    && vam_pa (virtual_memory_lookup k.entries pagetable k.kernel_pagetable) == k.kernel_pagetable
    && vam_pa (virtual_memory_lookup k.entries pagetable k.map_function) == k.map_function

-- `owner == pid` and `owner > 0`.
unfoldable pub is_owner : Owner → ℕ → Bool
is_owner (process n) pid = n == pid
is_owner o pid = false

unfoldable pub is_process : Owner → Bool
is_process (process n) = ltb 0 n
is_process o = false

-- A call of `virtual_memory_map` without an allocator, whose result the callers ignore; `none` is
-- an assertion that failed.
unfoldable pub adopt : Kernel → Mapped Bool → Option Kernel
adopt k (ok t done) = some (record k { entries = t.entry })
adopt k (missing t) = some (record k { entries = t.entry })
adopt k panic = none

unfoldable pub map_memory : Kernel → ℕ → ℕ → ℕ → ℕ → ℕ → Option Kernel
unfolding adopt
map_memory k pagetable va pa sz perm =
    adopt k
      (virtual_memory_map (record { entry = k.entries; allocator = none }) pagetable va pa sz perm)

-- The two tests of a round of `sys_exit` on the page `pn`.
unfoldable pub free_page : PageTable → ℕ → ℕ → PageTable
unfolding is_owner
free_page info pid pn =
    if is_owner (info pn).owner pid
    then set_page info pn (record { owner = free; refcount = 0 })
    else info

unfoldable pub unshare_page : PageTable → ℕ → PageTable
unfolding is_process
unshare_page info pn =
    if ltb 1 (info pn).refcount && is_process (info pn).owner
    then set_page info pn (record (info pn) { refcount = (info pn).refcount - 1 })
    else info

unfoldable pub exit_page : Kernel → ℕ → ℕ → PageTable → PageTable
unfolding free_page unshare_page
exit_page k pid va info =
    let pn = vam_pn (virtual_memory_lookup k.entries k.kernel_pagetable va) in
    let info' = free_page info pid pn in
    if va == proc_start_addr then unshare_page info' pn else info'

-- The loop of `sys_exit`, `rounds` pages from `va` on.
unfoldable pub exit_pages : Kernel → ℕ → ℕ → ℕ → PageTable → PageTable
unfolding exit_page
exit_pages k pid zero va info = info
exit_pages k pid (suc rounds) va info =
    exit_pages k pid rounds (va + page_size) (exit_page k pid va info)

unfoldable pub sys_exit : Kernel → ℕ → Kernel
unfolding exit_pages
sys_exit k pid =
    let info = exit_pages k pid (memsize_virtual / page_size) 0 k.pageinfo in
    record (set_proc k pid (record (k.processes pid) { p_state = free_slot })) { pageinfo = info }
