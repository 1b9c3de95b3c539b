-- ===== src/Kernel/Start/Started.antt =====
-- The kernel when it has started.
use cs61_f16_psets_team_md.Base.{ℕ, true, ◌/◌, ◌<◌, ◌≡◌, refl, ap, ◌∙◌, arith, tests, some, ◌>>=◌}
use cs61_f16_psets_team_md.Kernel.Pages.{page_size, memsize_physical, PageTable, pageinfo_init}
use cs61_f16_psets_team_md.Kernel.Schedule.{nproc}
use cs61_f16_psets_team_md.Kernel.Schedule.{free as free_slot}
use cs61_f16_psets_team_md.Kernel.Paging.{pte_addr, mapped, virtual_memory_lookup}
use cs61_f16_psets_team_md.Kernel.Paging.Lookup.{IsPath}
use cs61_f16_psets_team_md.Kernel.Paging.Range.{filled, filled-IsPath, virtual_memory_lookup-same}
use cs61_f16_psets_team_md.Kernel.Process.{set_pagetable, Proc, Kernel, proc_start_addr, map_memory}
use cs61_f16_psets_team_md.Kernel.Start.{
  console, link_tables, virtual_memory_init, clear_processes, init_processes, isolate_kernel,
  start_kernel,
}
use cs61_f16_psets_team_md.Kernel.Start.Identity.{
  IsBase, table_entry, link_tables-IsPath, kernel_perm, tables_started-perm, kernel_perm-valid,
  slots, init_processes-slots, slots-free, map_memory-low,
}

-- The kernel behind its start: the process table is empty, the pages have their owners, and every
-- physical address is mapped to itself, where processes reach neither the kernel's memory nor the
-- reserved pages below `proc_start_addr`, other than the console.
pub record IsStarted (base end : ℕ) (k k' : Kernel) : Type 0 where
  pub pagetable : k'.kernel_pagetable ≡ base
  pub pages : k'.pageinfo ≡ pageinfo_init end k.pageinfo
  pub slots_free :
      (pid : ℕ)
      → pid < nproc
      → ((k'.processes pid).p_pid ≡ pid) × ((k'.processes pid).p_state ≡ free_slot)
  pub identity :
      (va : ℕ)
      → va < memsize_physical
      → virtual_memory_lookup k'.entries base va ≡ mapped (va / page_size) va (kernel_perm va)
  pub loadable :
      k.default_int_handler < memsize_physical
      → k.map_function < memsize_physical
      → set_pagetable k' base ≡ true

module _ (base end : ℕ) (k : Kernel) (b : IsBase base) where
  abbrev linked : ℕ → ℕ → ℕ
  linked = link_tables k.entries base

  -- The last table of the path.
  abbrev last_table : ℕ
  last_table = pte_addr (table_entry base 3)

  abbrev filled_once : ℕ → ℕ → ℕ
  filled_once = filled 512 linked last_table 0 7

  abbrev filled_twice : ℕ → ℕ → ℕ
  filled_twice = filled 256 filled_once last_table 0 3

  abbrev e1 : ℕ
  e1 = table_entry base 1

  abbrev e2 : ℕ
  e2 = table_entry base 2

  abbrev e3 : ℕ
  e3 = table_entry base 3

  once-IsPath : IsPath filled_once base 0 e1 e2 e3
  once-IsPath = filled-IsPath 512 linked base 0 0 7 e1 e2 e3 (link_tables-IsPath k.entries base b)

  twice-IsPath : IsPath filled_twice base 0 e1 e2 e3
  twice-IsPath = filled-IsPath 256 filled_once base 0 0 3 e1 e2 e3 once-IsPath

  abbrev mapped_kernel : Kernel
  mapped_kernel = record k { entries = filled_once; kernel_pagetable = base }

  virtual_memory_init-mapped : virtual_memory_init k base ≡ some mapped_kernel
  unfolding virtual_memory_init
  virtual_memory_init-mapped =
      map_memory-low (record k { entries = linked; kernel_pagetable = base }) base 511 0 0
        memsize_physical 7 e1 e2 e3 refl refl refl (omega arith) (grind (tests, b.aligned))
        (link_tables-IsPath k.entries base b)

  isolate_kernel-started :
      (ps : ℕ → Proc) (info : PageTable)
      → isolate_kernel (record mapped_kernel { processes = ps; pageinfo = info })
        ≡ some (record mapped_kernel {
          processes = ps;
          pageinfo = info;
          entries = filled 1 filled_twice last_table 184 7;
        })
  unfolding isolate_kernel
  isolate_kernel-started ps info =
      let k1 : Kernel = record mapped_kernel { processes = ps; pageinfo = info } in
      let k2 : Kernel = record k1 { entries = filled_twice } in
      ap (λ o. o >>= λ k'. map_memory k' k'.kernel_pagetable console console page_size 7)
        (map_memory-low k1 base 255 0 0 proc_start_addr 3 e1 e2 e3 refl refl refl (omega arith)
          (grind (tests, b.aligned)) once-IsPath)
      ∙ map_memory-low k2 base 0 184 console page_size 7 e1 e2 e3 refl refl refl (omega arith)
          (grind (tests, b.aligned)) twice-IsPath

  identity_started :
      (va : ℕ)
      → va < memsize_physical
      → virtual_memory_lookup (filled 1 filled_twice last_table 184 7) base va
        ≡ mapped (va / page_size) va (kernel_perm va)
  identity_started va lt =
      let (present, small) = kernel_perm-valid va in
      virtual_memory_lookup-same (filled 1 filled_twice last_table 184 7) base va (kernel_perm va)
        e1 e2 e3 lt small present (filled-IsPath 1 filled_twice base 0 184 7 e1 e2 e3 twice-IsPath)
        (tables_started-perm linked last_table va lt)

  -- The assertions of `set_pagetable` hold of the kernel's own page table.
  loadable_started :
      (ps : ℕ → Proc) (info : PageTable)
      → k.default_int_handler < memsize_physical
      → k.map_function < memsize_physical
      → set_pagetable
          (record mapped_kernel {
            processes = ps;
            pageinfo = info;
            entries = filled 1 filled_twice last_table 184 7;
          })
          base
        ≡ true
  unfolding set_pagetable
  loadable_started ps info h f =
      rw
        (
          identity_started k.default_int_handler h,
          identity_started k.map_function f,
          identity_started base (omega (arith, b.inside)),
          b.aligned,
        )
        (grind tests)

  -- Where the kernel's tables are page-aligned and in physical memory, `kernel` fails no assertion
  -- on its way to the first process, and has then an empty process table, the pages with their
  -- owners, and every physical address mapped to itself, with the permissions `kernel_perm`. The
  -- assertions of `set_pagetable` hold of that page table, if its functions are in physical memory.
  pub start_kernel-IsStarted :
      (k' : Kernel) × (start_kernel base end k ≡ some k') × IsStarted base end k k'
  unfolding start_kernel
  start_kernel-IsStarted =
      let info = pageinfo_init end k.pageinfo in
      let k3 : Kernel = clear_processes (record mapped_kernel { pageinfo = info }) in
      (
        _,
        ap
              (λ o. o >>= λ k'. isolate_kernel (
                init_processes nproc
                  (clear_processes (record k' { pageinfo = pageinfo_init end k'.pageinfo }))))
              virtual_memory_init-mapped
            ∙ ap isolate_kernel (init_processes-slots nproc k3)
            ∙ isolate_kernel-started (slots nproc k3.processes) info,
        record {
          pagetable = refl;
          pages = refl;
          slots_free = λ pid lt. slots-free nproc pid k3.processes lt;
          identity = identity_started;
          loadable = loadable_started (slots nproc k3.processes) info;
        },
      )
