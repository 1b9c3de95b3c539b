-- ===== src/Kernel/Setup.antt =====
-- `process_init`, `setup_pagetable` and `process_setup` of pset4/kernel.c. `none` is a fault of the
-- kernel or an assertion that fails.
pub mod Keeps
use cs61_f16_psets_team_md.Base.{
  ℕ, zero, suc, ◌+◌, ◌-◌, ◌*◌, ◌/◌, ◌%◌, ◌^◌, Bool, true, false, not, ◌&&◌, if◌then◌else◌, ◌>>=◌,
  ltb, leb, ◌==◌, Option, none, some,
}
use cs61_f16_psets_team_md.Kernel.Pages.{
  page_size, memsize_physical, PageInfo, PageTable, Owner, process, set_page, no_page, page_address,
  use_any_physical_page, assign_physical_page, take_page,
}
use cs61_f16_psets_team_md.Kernel.Schedule.{ProcState, runnable, nproc}
use cs61_f16_psets_team_md.Kernel.Schedule.{free as free_slot}
use cs61_f16_psets_team_md.Kernel.Paging.{
  has_p, pte_addr, pte_pwu, set_entry, clear_table, Vamapping, virtual_memory_lookup,
}
use cs61_f16_psets_team_md.Kernel.Memory.{Memory, copy_up}
use cs61_f16_psets_team_md.Kernel.Process.{
  Registers, Proc, Kernel, proc_start_addr, memsize_virtual, set_proc, vam_pn, vam_pa, vam_perm,
  is_process, map_memory, sys_exit,
}

-- `process_init`, on the registers that are modelled.
abbrev pub no_registers : Registers
no_registers = record {
  reg_rax = 0;
  reg_rdi = 0;
  reg_rsp = 0;
  reg_rip = 0;
  reg_intno = 0;
  reg_err = 0;
}

-- `copy_pagetable`: the 512 entries of a table at a page-aligned address.
unfoldable pub copy_pagetable : (ℕ → ℕ → ℕ) → ℕ → ℕ → ℕ → ℕ → ℕ
copy_pagetable t to source pt i = if pt == to then t (pte_addr source) i else t pt i

-- The three lines that take a page for a page table: it is assigned and cleared. With no free page
-- the address is -1, or behind physical memory, and the kernel faults.
unfoldable pub clear_taken : Kernel → PageTable × ℕ × Bool → Option (Kernel × ℕ)
unfolding clear_table
clear_taken k (info, address, done) =
    if leb memsize_physical address
    then none
    else some (record k { pageinfo = info; entries = clear_table k.entries address }, address)

unfoldable pub take_table : Kernel → ℕ → Option (Kernel × ℕ)
unfolding take_page clear_taken
take_table k pid = take_page k.pageinfo (process pid) >>= clear_taken k

-- The five pages that `setup_pagetable` takes.
pub record Levels : Type 0 where
  pub after : Kernel
  pub level0 : ℕ
  pub level1 : ℕ
  pub level2 : ℕ
  pub level3 : ℕ
  pub level4 : ℕ

unfoldable pub take_levels : Kernel → ℕ → Option Levels
unfolding take_table
take_levels k pid = do
  (k0, a0) ← take_table k pid
  (k1, a1) ← take_table k0 pid
  (k2, a2) ← take_table k1 pid
  (k3, a3) ← take_table k2 pid
  (k4, a4) ← take_table k3 pid
  some (record { after = k4; level0 = a0; level1 = a1; level2 = a2; level3 = a3; level4 = a4 })

-- `372775` and `376871` of the source, which `copy_pagetable` rounds down to a page: the addresses
-- at which one build of the kernel has the tables of its levels 3 and 4.
abbrev pub kernel_entry : ℕ
kernel_entry = 372775

abbrev pub kernel_entry2 : ℕ
kernel_entry2 = 376871

-- The links of the levels.
unfoldable pub link_levels : (ℕ → ℕ → ℕ) → ℕ → Levels → ℕ → ℕ → ℕ
unfolding set_entry copy_pagetable
link_levels t kernel_pagetable l =
    let t1 = set_entry t l.level0 0 (l.level1 + pte_pwu) in
    let t2 = copy_pagetable t1 l.level1 (t1 kernel_pagetable 0) in
    let t3 = set_entry t2 l.level1 0 (l.level2 + pte_pwu) in
    let t4 = copy_pagetable t3 l.level2 kernel_entry in
    let t5 = set_entry t4 l.level2 0 (l.level3 + pte_pwu) in
    let t6 = copy_pagetable t5 l.level3 kernel_entry2 in
    set_entry t6 l.level2 1 (l.level4 + pte_pwu)

unfoldable pub setup_pagetable : Kernel → ℕ → Option (Kernel × ℕ)
unfolding take_levels link_levels map_memory
setup_pagetable k pid = do
  l ← take_levels k pid
  let k1 = set_proc l.after pid (record (l.after.processes pid) { p_pagetable = l.level0 })
  k2 ←
      map_memory (record k1 { entries = link_levels k1.entries k1.kernel_pagetable l }) l.level0
        proc_start_addr proc_start_addr (memsize_physical - proc_start_addr) 0
  some (k2, l.level0)

-- `process_setup`. `load` is `program_load`, of which `none` is a result below 0.
unfoldable pub process_setup : (Kernel → ℕ → Option Kernel) → Kernel → ℕ → Option Kernel
unfolding setup_pagetable take_page map_memory
process_setup load k pid = do
  (k1, address) ←
      setup_pagetable (set_proc k pid (record (k.processes pid) { p_registers = no_registers })) pid
  k2 ← load k1 pid
  let p = k2.processes pid
  let k3 =
      set_proc k2 pid
        (record p { p_registers = record p.p_registers { reg_rsp = memsize_virtual } })
  (info, stack_page, done) ← take_page k3.pageinfo (process pid)
  k4 ←
      map_memory (record k3 { pageinfo = info }) (k3.processes pid).p_pagetable
        (memsize_virtual - page_size) stack_page page_size 7
  some (set_proc k4 pid (record (k4.processes pid) { p_state = runnable }))
