-- ===== src/Kernel/Pages/Tests.antt =====
-- The theorems on the pages at a table whose pages 0 and 1 are in use.
use cs61_f16_psets_team_md.Base.{ℕ, ◌≡◌, Bool, ltb, if◌then◌else◌, some}
use cs61_f16_psets_team_md.Kernel.Pages.{PageTable, free, process, take_page}
use cs61_f16_psets_team_md.Kernel.Pages.Alloc.{Taken, take_page-Taken}

abbrev table : PageTable
table pn = record { owner = free; refcount = if ltb pn 2 then 1 else 0 }

take_page-Taken_example :
    (info' : PageTable) × (pa : ℕ) × (ok : Bool) × (take_page table (process 3)
      ≡ some (info', pa, ok))
    × Taken table (process 3) info' pa ok
take_page-Taken_example = take_page-Taken table (process 3)
