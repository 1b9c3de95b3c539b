-- ===== src/Kernel/Check.antt =====
-- The invariants that `check_virtual_memory` of pset4/kernel.c asserts, as a test. `start_data` and
-- `end` are symbols of the linker.
mod Isolation
pub mod Tests
use cs61_f16_psets_team_md.Base.{
  ℕ, zero, suc, ◌+◌, ◌-◌, ◌*◌, ◌/◌, ◌%◌, ◌^◌, Bool, true, false, not, ◌&&◌, ◌||◌, if◌then◌else◌,
  ltb, leb, ◌==◌,
}
use cs61_f16_psets_team_md.Kernel.Pages.{
  page_size, npages, kernel_start_addr, kernel_stack_top, page_number, Owner, process, reserved,
  kernel,
}
use cs61_f16_psets_team_md.Kernel.Schedule.{ProcState, nproc}
use cs61_f16_psets_team_md.Kernel.Paging.{has_w, pte_addr, Vamapping, virtual_memory_lookup}
use cs61_f16_psets_team_md.Kernel.Process.{Proc, Kernel, vam_pa, vam_perm}
use cs61_f16_psets_team_md.Kernel.Fork.{is_free_slot}

-- A loop of assertions over the numbers below `n`.
unfoldable pub all_below : ℕ → (ℕ → Bool) → Bool
all_below zero p = true
all_below (suc n) p = p n && all_below n p

unfoldable pub same_owner : Owner → Owner → Bool
same_owner reserved reserved = true
same_owner kernel kernel = true
same_owner (process n) (process m) = n == m
same_owner o o' = false

-- A page of the kernel is mapped to itself, and writable from `start_data` on.
unfoldable pub check_page : ℕ → Kernel → ℕ → ℕ → Bool
check_page start_data k pt va =
    let vam = virtual_memory_lookup k.entries pt va in
    vam_pa vam == va && (ltb va start_data || has_w (vam_perm vam))

unfoldable pub check_page_table_mappings : ℕ → ℕ → Kernel → ℕ → Bool
unfolding all_below check_page
check_page_table_mappings start_data end k pt =
    let kstack = kernel_stack_top - page_size in
    pte_addr pt == pt
    && all_below ((end + page_size - 1 - kernel_start_addr) / page_size)
        (λ n. check_page start_data k pt (kernel_start_addr + n * page_size))
    && check_page 0 k pt kstack

-- `check_page_table_ownership_level` at `left` levels above the last one.
unfoldable pub check_level : ℕ → Kernel → ℕ → Owner → ℕ → Bool
unfolding same_owner all_below
check_level zero k pt owner refcount =
    ltb (page_number pt) npages
    && same_owner (k.pageinfo (page_number pt)).owner owner
    && (k.pageinfo (page_number pt)).refcount == refcount
check_level (suc left) k pt owner refcount =
    ltb (page_number pt) npages
    && same_owner (k.pageinfo (page_number pt)).owner owner
    && (k.pageinfo (page_number pt)).refcount == refcount
    && all_below 512
        (λ i. k.entries pt i == 0 || check_level left k (pte_addr (k.entries pt i)) owner 1)

-- The processes below `n` that run on the kernel's page table.
unfoldable pub count_kernel_tables : ℕ → Kernel → ℕ
count_kernel_tables zero k = 0
count_kernel_tables (suc n) k =
    let rest = count_kernel_tables n k in
    if not (is_free_slot (k.processes n).p_state)
      && (k.processes n).p_pagetable == k.kernel_pagetable
    then suc rest
    else rest

-- The owner and the references that the page of a page table has to have.
unfoldable pub check_page_table_ownership : Kernel → ℕ → Owner → Bool
unfolding check_level count_kernel_tables
check_page_table_ownership k pt owner =
    if pt == k.kernel_pagetable
    then check_level 3 k pt kernel (1 + count_kernel_tables nproc k)
    else check_level 3 k pt owner 1

unfoldable pub check_process : ℕ → ℕ → Kernel → ℕ → Bool
unfolding check_page_table_mappings check_page_table_ownership
check_process start_data end k pid =
    let p = k.processes pid in
    is_free_slot p.p_state
    || p.p_pagetable == k.kernel_pagetable
    || (check_page_table_mappings start_data end k p.p_pagetable
        && check_page_table_ownership k p.p_pagetable (process pid))

-- A page that is referred to by a process refers to an active one.
unfoldable pub check_active : Kernel → ℕ → Bool
check_active k pn = (k.pageinfo pn).refcount == 0 || elim (k.pageinfo pn).owner [
  | process pid ↦ not (is_free_slot (k.processes pid).p_state)
  | _ ↦ true
]

unfoldable pub check_virtual_memory : ℕ → ℕ → Kernel → Bool
unfolding check_process check_active
check_virtual_memory start_data end k =
    is_free_slot (k.processes 0).p_state
    && check_page_table_mappings start_data end k k.kernel_pagetable
    && check_page_table_ownership k k.kernel_pagetable kernel
    && all_below nproc (check_process start_data end k)
    && all_below npages (check_active k)
