-- ===== src/Kernel/Process/Tests.antt =====
-- A machine whose kernel page table maps physical memory to itself, and the exit of a process that
-- owns page 300 and shares page 256.
use cs61_f16_psets_team_md.Base.{
  ℕ, ◌+◌, ◌*◌, ◌≤◌, ◌<◌, ◌≡◌, refl, ap, ◌∙◌, arith, ltb, ◌==◌, if◌then◌else◌,
}
use cs61_f16_psets_team_md.Kernel.Pages.{page_size, npages, process, free}
use cs61_f16_psets_team_md.Kernel.Schedule.{runnable}
use cs61_f16_psets_team_md.Kernel.Schedule.{free as free_slot}
use cs61_f16_psets_team_md.Kernel.Paging.{
  page_index, mask_entry, unmapped, walk_entries, virtual_memory_lookup,
}
use cs61_f16_psets_team_md.Kernel.Paging.Lookup.{IsPath, mapped-walk_entries, walk_entries-IsPath}
use cs61_f16_psets_team_md.Kernel.Process.{
  Registers, Kernel, vam_pn, is_owner, is_process, sys_exit,
}
use cs61_f16_psets_team_md.Kernel.Process.Exit.{IsIdentity, sys_exit-exited}

-- One table of each level; the last one has an entry for each page of physical memory.
abbrev pub identity : ℕ → ℕ → ℕ
identity pt i =
    if pt == 0x4000
    then i * page_size + 7
    else if (i == 0)
    then (if ltb pt 0x4000 then pt + 0x1007 else 0)
    else 0

abbrev pub zero_registers : Registers
zero_registers = record {
  reg_rax = 0;
  reg_rdi = 0;
  reg_rsp = 0;
  reg_rip = 0;
  reg_intno = 0;
  reg_err = 0;
}

abbrev pub machine : Kernel
machine = record {
  processes = λ pid. record {
    p_pid = pid;
    p_registers = zero_registers;
    p_state = if ltb 0 pid then runnable else free_slot;
    p_pagetable = 0x1000;
  };
  current = 1;
  ticks = 0;
  pageinfo = λ pn.
      if pn == 300
      then record { owner = process 1; refcount = 1 }
      else if pn == 256
      then record { owner = process 2; refcount = 2 }
      else record { owner = free; refcount = 0 };
  entries = identity;
  memory = λ p. 0;
  kernel_pagetable = 0x1000;
  default_int_handler = 0x4_0100;
  map_function = 0x4_0200;
}

indices_low :
    (n : ℕ)
    → n < npages
    → (page_index (n * page_size) 3 ≡ 0)
      × (page_index (n * page_size) 2 ≡ 0)
      × (page_index (n * page_size) 1 ≡ 0)
      × (page_index (n * page_size) 0 ≡ n)
unfolding page_index
indices_low n h = (omega (arith, h), omega (arith, h), omega (arith, h), omega (arith, h))

identity-IsPath : (n : ℕ) → n < npages → IsPath identity 0x1000 (n * page_size) 0x2007 0x3007 0x4007
identity-IsPath n h =
    let (i3, i2, i1, i0) = indices_low n h in
    record {
      first = rw i3 refl;
      second = rw i2 refl;
      third = rw i1 refl;
      pointer1 = record { p = refl; w = refl; u = refl; inside = refl };
      pointer2 = record { p = refl; w = refl; u = refl; inside = refl };
      pointer3 = record { p = refl; w = refl; u = refl; inside = refl };
      apart0 = λ e. absurd (omega (arith, e));
      apart1 = λ e. absurd (omega (arith, e));
      apart2 = λ e. absurd (omega (arith, e));
    }

machine_physical :
    (n : ℕ) → n < npages → vam_pn (virtual_memory_lookup identity 0x1000 (n * page_size)) ≡ n
machine_physical n h =
    let (i3, i2, i1, i0) = indices_low n h in
    let last : identity 0x4000 (page_index (n * page_size) 0) ≡ n * page_size + 7 = rw i0 refl in
    ap vam_pn (
      mapped-walk_entries identity 0x1000 (n * page_size) (n * page_size) 7 0 (omega arith)
        (omega arith) refl (omega arith)
        (walk_entries-IsPath identity 0x1000 (n * page_size) 0x2007 0x3007 0x4007
          (n * page_size + 7) (identity-IsPath n h) last))
    ∙ omega arith

indices_high :
    (n : ℕ)
    → npages ≤ n
    → n < 768
    → (page_index (n * page_size) 3 ≡ 0)
      × (page_index (n * page_size) 2 ≡ 0)
      × (page_index (n * page_size) 1 ≡ 1)
unfolding page_index
indices_high n a b = (omega (arith, a, b), omega (arith, a, b), omega (arith, a, b))

machine_behind :
    (n : ℕ)
    → npages ≤ n
    → n < 768
    → virtual_memory_lookup identity 0x1000 (n * page_size) ≡ unmapped
unfolding virtual_memory_lookup walk_entries mask_entry
machine_behind n a b = let (i3, i2, i1) = indices_high n a b in rw (i3, i2, i1) refl

machine-IsIdentity : IsIdentity machine
machine-IsIdentity = record {
  physical = machine_physical;
  behind = λ n a b. rw (machine_behind n a b) (omega arith);
}

sys_exit-exited_example :
    ((sys_exit machine 1).pageinfo 256 ≡ record { owner = process 2; refcount = 1 })
    × (((sys_exit machine 1).processes 1).p_state ≡ free_slot)
unfolding is_owner is_process
sys_exit-exited_example = sys_exit-exited machine 1 256 machine-IsIdentity (omega arith)
