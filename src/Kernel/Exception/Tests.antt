-- ===== src/Kernel/Exception/Tests.antt =====
-- A system call and a page fault of process 1 on the machine with two processes.
use cs61_f16_psets_team_md.Base.{refl, arith}
use cs61_f16_psets_team_md.Kernel.Paging.{page_index}
use cs61_f16_psets_team_md.Kernel.Paging.Lookup.{IsPath}
use cs61_f16_psets_team_md.Kernel.Process.{Registers, Kernel}
use cs61_f16_psets_team_md.Kernel.Check.Tests.{identities, machine}
use cs61_f16_psets_team_md.Kernel.Exception.{
  int_pagefault, int_sys_page_alloc, save_registers, sys_page_alloc,
}
use cs61_f16_psets_team_md.Kernel.Exception.PageAlloc.{PageAlloc, sys_page_alloc-PageAlloc}

abbrev call : Registers
call = record {
  reg_rax = 0;
  reg_rdi = 0x10_1000;
  reg_rsp = 0;
  reg_rip = 0;
  reg_intno = int_sys_page_alloc;
  reg_err = 0;
}

abbrev fault : Registers
fault = record call { reg_intno = int_pagefault; reg_err = 4 }

machine-IsPath : IsPath identities 0x5000 0x10_1000 0x6007 0x7007 0x8007
unfolding page_index
machine-IsPath = record {
  first = refl;
  second = refl;
  third = refl;
  pointer1 = record { p = refl; w = refl; u = refl; inside = refl };
  pointer2 = record { p = refl; w = refl; u = refl; inside = refl };
  pointer3 = record { p = refl; w = refl; u = refl; inside = refl };
  apart0 = λ e. absurd (omega (arith, e));
  apart1 = λ e. absurd (omega (arith, e));
  apart2 = λ e. absurd (omega (arith, e));
}

sys_page_alloc-PageAlloc_example :
    PageAlloc
      (save_registers machine call)
      0x5000
      0x10_1000
      (sys_page_alloc (save_registers machine call))
sys_page_alloc-PageAlloc_example =
    sys_page_alloc-PageAlloc (save_registers machine call) 0x5000 0x10_1000 0x6007 0x7007 0x8007
      refl refl refl refl (omega arith) machine-IsPath
