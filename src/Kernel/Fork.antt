-- ===== src/Kernel/Fork.antt =====
-- `fork` of pset4/kernel.c. Where the kernel would fault, or an assertion fails, the result is
-- `panicked`.
mod Keeps
mod Slot
mod Child
mod Tests
use cs61_f16_psets_team_md.Base.{
  ℕ, zero, suc, ◌+◌, ◌-◌, ◌*◌, ◌/◌, ◌%◌, ◌^◌, Bool, true, false, not, ◌&&◌, if◌then◌else◌, ◌>>=◌,
  ltb, leb, ◌==◌, Option, none, some,
}
use cs61_f16_psets_team_md.Kernel.Pages.{
  page_size, memsize_physical, PageInfo, PageTable, Owner, process, set_page, no_page, page_address,
  use_any_physical_page, assign_physical_page, take_page,
}
use cs61_f16_psets_team_md.Kernel.Schedule.{ProcState, runnable, nproc}
use cs61_f16_psets_team_md.Kernel.Schedule.{free as free_slot}
use cs61_f16_psets_team_md.Kernel.Paging.{
  has_p, pte_addr, pte_pwu, set_entry, clear_table, Vamapping, virtual_memory_lookup,
}
use cs61_f16_psets_team_md.Kernel.Memory.{Memory, copy_up}
use cs61_f16_psets_team_md.Kernel.Process.{
  Registers, Proc, Kernel, proc_start_addr, memsize_virtual, set_proc, vam_pn, vam_pa, vam_perm,
  is_process, map_memory, sys_exit,
}
use cs61_f16_psets_team_md.Kernel.Setup.{setup_pagetable}

abbrev pub is_free_slot : ProcState → Bool
is_free_slot free_slot = true
is_free_slot s = false

-- What a round of `fork` comes to: the next one, the return of -1, or a panic.
pub data Round : Type 0 where
  next : Kernel → Round
  fails : Kernel → Round
  panics : Round

abbrev pub after_map : Option Kernel → Round
after_map none = panics
after_map (some k) = next k

-- The first page of the program is shared.
unfoldable pub share_page : Kernel → ℕ → ℕ → Vamapping → Round
unfolding is_process map_memory
share_page k child va vam =
    let p = k.pageinfo (vam_pn vam) in
    if ltb 0 p.refcount && is_process p.owner
    then after_map (
        map_memory
          (record k {
            pageinfo = set_page k.pageinfo (vam_pn vam) (record p { refcount = p.refcount + 1 });
          })
          (k.processes child).p_pagetable va (vam_pa vam) page_size 7)
    else next k

-- The others are copied to a page that was taken. `pn` of the source is the result of
-- `assign_physical_page`, 0, and not the number of that page.
unfoldable pub copy_taken : Kernel → ℕ → ℕ → Vamapping → PageTable × Bool → Round
unfolding copy_up map_memory
copy_taken k child va vam (info, false) = fails k
copy_taken k child va vam (info, true) =
    let page = page_address 0 in
    after_map (
      map_memory
        (record k { pageinfo = info; memory = copy_up k.memory page (vam_pa vam) page_size })
        (k.processes child).p_pagetable va page page_size (vam_perm vam))

unfoldable pub copy_page : Kernel → ℕ → ℕ → Vamapping → Round
unfolding use_any_physical_page assign_physical_page copy_taken
copy_page k child va vam = elim (use_any_physical_page k.pageinfo) [
  | none ↦ panics
  | some pn_addr ↦
      copy_taken k child va vam (assign_physical_page k.pageinfo pn_addr (process child))
]

-- A round of the loop over the parent's pages.
unfoldable pub fork_page : Kernel → ℕ → ℕ → Round
unfolding share_page copy_page
fork_page k child va =
    let vam = virtual_memory_lookup k.entries (k.processes k.current).p_pagetable va in
    if va == proc_start_addr
    then share_page k child va vam
    else if vam_perm vam == 0
    then next k
    else copy_page k child va vam

unfoldable pub continue : Round → (Kernel → Round) → Round
continue (next k) loop = loop k
continue (fails k) loop = fails k
continue panics loop = panics

unfoldable pub fork_pages : ℕ → Kernel → ℕ → ℕ → Round
unfolding fork_page continue
fork_pages zero k child va = next k
fork_pages (suc rounds) k child va =
    continue (fork_page k child va) (λ k'. fork_pages rounds k' child (va + page_size))

-- The kernel behind `fork`, and the value that it returns, `none` for -1.
pub data Forked : Type 0 where
  forked : Kernel → Option ℕ → Forked
  panicked : Forked

-- The registers of parent and child at the end.
unfoldable pub set_registers : Kernel → ℕ → Kernel
set_registers k child =
    let parent = k.processes k.current in
    let k1 =
      set_proc k k.current
        (record parent { p_registers = record parent.p_registers { reg_rax = child } }) in
    set_proc k1 child
      (record (k1.processes child) { p_registers = record parent.p_registers { reg_rax = 0 } })

-- What follows the loop. Where a round fails, `sys_exit` frees what the child has taken.
unfoldable pub finish_fork : Round → ℕ → Forked
unfolding set_registers sys_exit
finish_fork (next k) child = forked (set_registers k child) (some child)
finish_fork (fails k) child = forked (sys_exit k child) none
finish_fork panics child = panicked

-- The branch of `fork` on a free slot, with the result of `setup_pagetable`.
unfoldable pub fork_with : ℕ → Option (Kernel × ℕ) → Forked
unfolding fork_pages finish_fork
fork_with child none = panicked
fork_with child (some (k, address)) =
    let k1 = set_proc k child (record (k.processes child) { p_pagetable = address }) in
    finish_fork
      (if address == 0
        then fails k1
        else fork_pages ((memsize_virtual - proc_start_addr) / page_size) k1 child proc_start_addr)
      child

unfoldable pub fork_into : Kernel → ℕ → Forked
unfolding setup_pagetable fork_with
fork_into k child =
    fork_with child
      (setup_pagetable (set_proc k child (record (k.processes child) { p_state = runnable })) child)

unfoldable pub fork_slot : Kernel → Option ℕ → Forked
unfolding fork_into
fork_slot k none = forked k none
fork_slot k (some child) = fork_into k child

-- The search of `fork` from the slot `child` on, over the slots that are left.
unfoldable pub find_slot : ℕ → (ℕ → Proc) → ℕ → Option ℕ
find_slot zero processes child = none
find_slot (suc left) processes child =
    let rest = find_slot left processes (child + 1) in
    if is_free_slot (processes child).p_state then some child else rest

unfoldable pub fork : Kernel → Forked
unfolding find_slot fork_slot
fork k = fork_slot k (find_slot (nproc - 1) k.processes 1)
