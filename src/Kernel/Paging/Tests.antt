-- ===== src/Kernel/Paging/Tests.antt =====
-- A page table with one path: the tables at 0x1000 to 0x4000 lead to one another.
use cs61_f16_psets_team_md.Base.{◌+◌, ◌≡◌, refl, arith, true, none, if◌then◌else◌, ◌==◌, ltb}
use cs61_f16_psets_team_md.Kernel.Pages.{page_size}
use cs61_f16_psets_team_md.Kernel.Paging.{
  Tables, page_index, set_entry, ok, mapped, virtual_memory_map, virtual_memory_lookup,
}
use cs61_f16_psets_team_md.Kernel.Paging.Lookup.{IsPath, virtual_memory_lookup-virtual_memory_map}

abbrev tables : Tables
tables = record {
  entry = λ pt i.
      if ltb pt 0x1000 then 0 else if ltb pt 0x4000 then (if i == 0 then pt + 0x1007 else 0) else 0;
  allocator = none;
}

tables-IsPath : IsPath tables.entry 0x1000 0x5000 0x2007 0x3007 0x4007
unfolding page_index
tables-IsPath = record {
  first = refl;
  second = refl;
  third = refl;
  pointer1 = record { p = refl; w = refl; u = refl; inside = refl };
  pointer2 = record { p = refl; w = refl; u = refl; inside = refl };
  pointer3 = record { p = refl; w = refl; u = refl; inside = refl };
  apart0 = λ e. absurd (omega (arith, e));
  apart1 = λ e. absurd (omega (arith, e));
  apart2 = λ e. absurd (omega (arith, e));
}

virtual_memory_lookup-virtual_memory_map_example :
    (t' : Tables) × (virtual_memory_map tables 0x1000 0x5000 0x9000 page_size 5 ≡ ok t' true)
    × (t'.entry ≡ set_entry tables.entry 0x4000 (page_index 0x5000 0) 0x9005)
    × (virtual_memory_lookup t'.entry 0x1000 0x5123 ≡ mapped 9 0x9123 5)
virtual_memory_lookup-virtual_memory_map_example =
    virtual_memory_lookup-virtual_memory_map tables 0x1000 0x5000 0x9000 5 0x123 0x2007 0x3007
      0x4007 refl refl (omega arith) (omega arith) tables-IsPath
