-- ===== src/Kernel/Check/Tests.antt =====
-- A machine of two processes with page tables of their own, on which all the checks hold.
use cs61_f16_psets_team_md.Base.{
  ℕ, ◌+◌, ◌*◌, ◌%◌, ◌≡◌, ◌≢◌, refl, arith, true, ltb, leb, ◌==◌, ◌||◌, if◌then◌else◌,
}
use cs61_f16_psets_team_md.Kernel.Pages.{page_size, page_number, process, reserved, kernel, free}
use cs61_f16_psets_team_md.Kernel.Schedule.{runnable}
use cs61_f16_psets_team_md.Kernel.Schedule.{free as free_slot}
use cs61_f16_psets_team_md.Kernel.Paging.{virtual_memory_lookup}
use cs61_f16_psets_team_md.Kernel.Process.{Kernel}
use cs61_f16_psets_team_md.Kernel.Setup.{no_registers}
use cs61_f16_psets_team_md.Kernel.Check.{check_virtual_memory}
use cs61_f16_psets_team_md.Kernel.Check.Isolation.{whole, entry, runs_own_table, isolated}

-- Three times four tables, from page 1 on; each links to the next, and the last of four maps the
-- pages up to the second one of the program to themselves.
abbrev pub identities : ℕ → ℕ → ℕ
identities pt i =
    if pt % 0x4000 == 0
    then (if ltb i 258 then i * page_size + 7 else 0)
    else if i == 0
    then pt + 0x1007
    else 0

abbrev pub machine : Kernel
machine = record {
  processes = λ pid. record {
    p_pid = pid;
    p_registers = no_registers;
    p_state = if pid == 1 || pid == 2 then runnable else free_slot;
    p_pagetable = 0x1000 + pid * 0x4000;
  };
  current = 1;
  ticks = 0;
  pageinfo = λ pn. if ltb 12 pn then record { owner = free; refcount = 0 } else record {
    owner =
        if pn == 0
        then reserved
        else if leb pn 4
        then kernel
        else if leb pn 8
        then process 1
        else process 2;
    refcount = 1;
  };
  entries = identities;
  memory = λ p. 0;
  kernel_pagetable = 0x1000;
  default_int_handler = 0x4_0100;
  map_function = 0x4_0200;
}

machine-check : check_virtual_memory 0x4_0000 0x4_1000 machine ≡ true
unfolding check_virtual_memory virtual_memory_lookup
machine-check = refl

isolated_example : page_number 0x6000 ≢ page_number 0x9000
isolated_example =
    isolated 0x4_0000 0x4_1000 1 2 2 3 0x6000 0x9000 machine machine-check
      (runs_own_table (omega arith) refl refl) (runs_own_table (omega arith) refl refl)
      (omega arith) (entry 0 whole (omega arith) refl) whole
