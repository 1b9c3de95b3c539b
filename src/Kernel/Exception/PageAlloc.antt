-- ===== src/Kernel/Exception/PageAlloc.antt =====
-- What the system call `sys_page_alloc` does in all its cases.
use cs61_f16_psets_team_md.Base.{
  ℕ, ◌≡◌, ◌≢◌, ◌<◌, ◌+◌, ◌/◌, ◌%◌, ◌^◌, ◌-◌, refl, sym, ap, ◌∙◌, arith, tests, Bool, true, none,
  some,
}
use cs61_f16_psets_team_md.Kernel.Pages.{
  page_size, npages, page_address, set_page, process, PageTable,
}
use cs61_f16_psets_team_md.Kernel.Pages.Alloc.{Taken, taken, exhausted, take_page-Taken}
use cs61_f16_psets_team_md.Kernel.Paging.{
  pte_pwu, Tables, map_allowed, mapped, virtual_memory_lookup,
}
use cs61_f16_psets_team_md.Kernel.Paging.Lookup.{IsPath, virtual_memory_lookup-virtual_memory_map}
use cs61_f16_psets_team_md.Kernel.Process.{Kernel, map_memory, adopt}
use cs61_f16_psets_team_md.Kernel.Exception.{
  Handled, breaks, current_proc, set_rax, page_taken, page_mapped, sys_page_alloc,
}

-- The lowest free page is given to the process and stands at its address `va`, or no page is free
-- and the process has -1.
pub data PageAlloc (k : Kernel) (root va : ℕ) : Handled → Type 0 where
  allocated :
      (q : ℕ) (k' : Kernel)
      → q < npages
      → (k.pageinfo q).refcount ≡ 0
      → ((p : ℕ) → p < q → (k.pageinfo p).refcount ≢ 0)
      → k'.pageinfo
        ≡ set_page k.pageinfo q (record { owner = process (current_proc k).p_pid; refcount = 1 })
      → k'.processes ≡ (set_rax k 0).processes
      → ((off : ℕ)
          → off < page_size
          → virtual_memory_lookup k'.entries root (va + off)
            ≡ mapped q (page_address q + off) pte_pwu)
      → PageAlloc k root va (breaks k')
  refused :
      ((p : ℕ) → p < npages → (k.pageinfo p).refcount ≢ 0)
      → PageAlloc k root va (breaks (set_rax k (2 ^ 64 - 1)))

-- Mapping one page into a table that is there, from the view of a lookup.
map_memory-lookup :
    (k : Kernel) (root va pa e1 e2 e3 : ℕ)
    → map_allowed root va pa page_size pte_pwu ≡ true
    → va < 2 ^ 48
    → IsPath k.entries root va e1 e2 e3
    → (entries : ℕ → ℕ → ℕ) × (map_memory k root va pa page_size pte_pwu
        ≡ some (record k { entries = entries }))
      × ((off : ℕ)
          → off < page_size
          → virtual_memory_lookup entries root (va + off)
            ≡ mapped (pa / page_size) (pa + off) pte_pwu)
unfolding map_memory adopt
map_memory-lookup k root va pa e1 e2 e3 allowed low c =
    let t : Tables = record { entry = k.entries; allocator = none } in
    let (t', done, stored, found) =
      virtual_memory_lookup-virtual_memory_map t root va pa pte_pwu 0 e1 e2 e3 allowed refl low
        (omega arith) c in
    (
      t'.entry,
      rw done refl,
      λ off h.
          let (t2, done2, stored2, found2) =
            virtual_memory_lookup-virtual_memory_map t root va pa pte_pwu off e1 e2 e3 allowed refl
              low h c in
          ap (λ e. virtual_memory_lookup e root (va + off)) (stored ∙ sym stored2) ∙ found2,
    )

fresh-allowed :
    (root va q : ℕ)
    → root % page_size ≡ 0
    → va % page_size ≡ 0
    → va < 2 ^ 48
    → q < npages
    → map_allowed root va (page_address q) page_size pte_pwu ≡ true
fresh-allowed root va q r a low lt = grind (arith, tests, r, a, low, lt)

page_taken-PageAlloc :
    (k : Kernel) (root va e1 e2 e3 : ℕ) (info : PageTable) (pa : ℕ) (done : Bool)
    → (current_proc k).p_pagetable ≡ root
    → (current_proc k).p_registers.reg_rdi ≡ va
    → root % page_size ≡ 0
    → va % page_size ≡ 0
    → va < 2 ^ 48
    → IsPath k.entries root va e1 e2 e3
    → Taken k.pageinfo (process (current_proc k).p_pid) info pa done
    → PageAlloc k root va (page_taken k (some (info, pa, done)))
unfolding page_taken page_mapped
page_taken-PageAlloc k root va e1 e2 e3 info pa done er ea r a low c
      (taken q lt z before e ok same) =
    let (entries, mapping, found) =
      map_memory-lookup (record k { pageinfo = info }) root va (page_address q) e1 e2 e3
        (fresh-allowed root va q r a low lt) low c in
    let number : page_address q / page_size ≡ q = omega arith in
    rw (ok, er, ea, e, mapping)
      (allocated q (set_rax (record k { pageinfo = info; entries = entries }) 0) lt z before same
        refl (λ off h. found off h ∙ ap (λ n. mapped n (page_address q + off) pte_pwu) number))
page_taken-PageAlloc k root va e1 e2 e3 info pa done er ea r a low c (exhausted all ok same) =
    rw ok (refused all)

-- The system call for a page-aligned address below 2^48, whose page tables are there: if some page
-- is free, the lowest free one goes to the process alone with one reference, every address of the
-- page asked for is then mapped to it for reading and writing, and the process has 0; otherwise the
-- process has -1 and nothing else changes.
pub sys_page_alloc-PageAlloc :
    (k : Kernel) (root va e1 e2 e3 : ℕ)
    → (current_proc k).p_pagetable ≡ root
    → (current_proc k).p_registers.reg_rdi ≡ va
    → root % page_size ≡ 0
    → va % page_size ≡ 0
    → va < 2 ^ 48
    → IsPath k.entries root va e1 e2 e3
    → PageAlloc k root va (sys_page_alloc k)
unfolding sys_page_alloc
sys_page_alloc-PageAlloc k root va e1 e2 e3 er ea r a low c =
    let (info, pa, done, run, t) = take_page-Taken k.pageinfo (process (current_proc k).p_pid) in
    rw run (page_taken-PageAlloc k root va e1 e2 e3 info pa done er ea r a low c t)
