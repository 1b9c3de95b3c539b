-- ===== src/Kernel/Paging.antt =====
-- The four-level page tables of pset4/k-hardware.c: `virtual_memory_map` and
-- `virtual_memory_lookup`. The bits of an entry are read by division, and an address and flags
-- are joined by addition, which is `|` on the page-aligned addresses that the assertions demand.
-- A page number is not cut to an `int`.
pub mod Lookup
pub mod Range
mod Tests
use cs61_f16_psets_team_md.Base.{
  ℕ, zero, suc, ◌+◌, ◌-◌, ◌*◌, ◌/◌, ◌%◌, ◌^◌, Bool, true, false, not, ◌&&◌, ◌||◌, Option, none,
  some, ltb, leb, ◌==◌, if◌then◌else◌, List, [], ◌∷◌,
}
use cs61_f16_psets_team_md.Kernel.Pages.{page_size, memsize_physical}

-- PTE_P, PTE_W and PTE_U, and the tests of an entry for them.
abbrev pub pte_p : ℕ
pte_p = 1

abbrev pub pte_pwu : ℕ
pte_pwu = 7

abbrev pub has_p : ℕ → Bool
has_p pe = pe % 2 == 1

abbrev pub has_w : ℕ → Bool
has_w pe = (pe / 2) % 2 == 1

abbrev pub has_u : ℕ → Bool
has_u pe = (pe / 4) % 2 == 1

abbrev pub pte_flags : ℕ → ℕ
pte_flags pe = pe % page_size

abbrev pub pte_addr : ℕ → ℕ
pte_addr pe = pe - pe % page_size

-- PAGEINDEX(va, 3 - up).
unfoldable pub page_index : ℕ → ℕ → ℕ
page_index va up = (va / 2 ^ (12 + up * 9)) % 512

-- The entries of the page table at each address, and the pages that `allocator` has still to
-- return, or `none` where it is NULL.
pub record Tables : Type 0 where
  pub entry : ℕ → ℕ → ℕ
  pub allocator : Option (List ℕ)

-- `pt->entry[i] = pe`.
unfoldable pub set_entry : (ℕ → ℕ → ℕ) → ℕ → ℕ → ℕ → ℕ → ℕ → ℕ
set_entry t pt i pe pt' i' = if pt' == pt && i' == i then pe else t pt' i'

-- memset(pt, 0, PAGESIZE).
unfoldable pub clear_table : (ℕ → ℕ → ℕ) → ℕ → ℕ → ℕ → ℕ
clear_table t pt pt' i = if pt' == pt then 0 else t pt' i

-- A value, NULL or -1, or a failed assertion.
pub data Mapped (A : Type 0) : Type 0 where
  ok : Tables → A → Mapped A
  missing : Tables → Mapped A
  panic : Mapped A

-- The entry that `lookup_l4pagetable` finds or makes at `pt` for `perm`.
unfoldable pub allocate_entry : Tables → ℕ → ℕ → ℕ → Mapped ℕ
unfolding set_entry clear_table
allocate_entry t pt i perm = if not (has_p perm) then missing t else elim t.allocator [
  | none ↦ missing t
  | some [] ↦ missing t
  | some (page ∷ pages) ↦
      if not (page % page_size == 0)
      then panic
      else ok
          (record {
            entry = clear_table (set_entry t.entry pt i (page + pte_pwu)) page;
            allocator = some pages;
          })
          (page + pte_pwu)
]

unfoldable pub find_entry : Tables → ℕ → ℕ → ℕ → Mapped ℕ
unfolding allocate_entry
find_entry t pt i perm =
    let pe = t.entry pt i in if not (has_p pe) then allocate_entry t pt i perm else ok t pe

-- The sanity checks of an entry.
abbrev pub entry_sane : ℕ → ℕ → Bool
entry_sane pe perm =
    ltb (pte_addr pe) memsize_physical
    && (not (has_w perm) || has_w pe)
    && (not (has_u perm) || has_u pe)

-- A round of the loop of `lookup_l4pagetable`, where `loop` is the loop on the next table.
unfoldable pub check_entry : Mapped ℕ → ℕ → (Tables → ℕ → Mapped ℕ) → Mapped ℕ
check_entry (ok t pe) perm loop = if entry_sane pe perm then loop t (pte_addr pe) else panic
check_entry (missing t) perm loop = missing t
check_entry panic perm loop = panic

-- The loop over the levels `i`, with `up` = 3 - i.
unfoldable pub lookup_levels : ℕ → Tables → ℕ → ℕ → ℕ → Mapped ℕ
unfolding find_entry check_entry page_index
lookup_levels zero t pt va perm = ok t pt
lookup_levels (suc up) t pt va perm =
    check_entry (find_entry t pt (page_index va (suc up)) perm) perm
      (λ t' pt'. lookup_levels up t' pt' va perm)

abbrev pub lookup_l4pagetable : Tables → ℕ → ℕ → ℕ → Mapped ℕ
lookup_l4pagetable t pagetable va perm = lookup_levels 3 t pagetable va perm

-- The store of a round of `virtual_memory_map` in the table found for `va`.
unfoldable pub store_entry : Tables → ℕ → ℕ → ℕ → ℕ → Tables
unfolding set_entry page_index
store_entry t l4 va pa perm = record t {
  entry = set_entry t.entry l4 (page_index va 0) (if has_p perm then pa + perm else perm);
}

-- `cur_index123`, as the residue of an `int`.
abbrev pub index123 : ℕ → ℕ
index123 va = (va / 2 ^ 21) % 2 ^ 32

-- The table of a round: the last one, or a new one if the index changed. `none` is an assertion
-- that failed.
unfoldable pub round_table : Tables → ℕ → ℕ → ℕ → ℕ → Option ℕ → Option (Tables × Option ℕ)
unfolding lookup_levels
round_table t pagetable va perm last l4 =
    if index123 va == last then some (t, l4) else elim (lookup_l4pagetable t pagetable va perm) [
      | ok t' pt ↦ some (t', some pt)
      | missing t' ↦ some (t', none)
      | panic ↦ none
    ]

-- A round of `virtual_memory_map` on the table found, where `loop` is the rest of the rounds.
unfoldable pub map_round :
    Option (Tables × Option ℕ) → ℕ → ℕ → ℕ → (Tables → Option ℕ → Mapped Bool) → Mapped Bool
unfolding store_entry
map_round (some (t, some l4)) va pa perm loop = loop (store_entry t l4 va pa perm) (some l4)
map_round (some (t, none)) va pa perm loop = if has_p perm then missing t else loop t none
map_round none va pa perm loop = panic

-- The loop of `virtual_memory_map` over `n` pages.
unfoldable pub map_pages : ℕ → Tables → ℕ → ℕ → ℕ → ℕ → ℕ → Option ℕ → Mapped Bool
unfolding round_table map_round
map_pages zero t pagetable va pa perm last l4 = ok t true
map_pages (suc n) t pagetable va pa perm last l4 =
    map_round (round_table t pagetable va perm last l4) va pa perm (λ t' l4'.
      map_pages n t' pagetable ((va + page_size) % 2 ^ 64) ((pa + page_size) % 2 ^ 64) perm
        (index123 va) l4')

-- The assertions at the head of `virtual_memory_map`.
abbrev pub map_allowed : ℕ → ℕ → ℕ → ℕ → ℕ → Bool
map_allowed pagetable va pa sz perm =
    va % page_size == 0
    && sz % page_size == 0
    && (leb va ((va + sz) % 2 ^ 64) || (va + sz) % 2 ^ 64 == 0)
    && (not (has_p perm)
        || (pa % page_size == 0
            && leb pa ((pa + sz) % 2 ^ 64)
            && leb ((pa + sz) % 2 ^ 64) memsize_physical))
    && ltb perm 0x1000
    && pagetable % page_size == 0

-- `missing` is -1.
unfoldable pub virtual_memory_map : Tables → ℕ → ℕ → ℕ → ℕ → ℕ → Mapped Bool
unfolding map_pages
virtual_memory_map t pagetable va pa sz perm =
    if map_allowed pagetable va pa sz perm
    then map_pages (sz / page_size) t pagetable va pa perm (2 ^ 32 - 1) none
    else panic

-- `entry & ~(pe & (PTE_W | PTE_U))`: a flag that the level above has is taken out.
unfoldable pub mask_entry : ℕ → ℕ → ℕ
mask_entry entry pe =
    entry - (if has_w entry && has_w pe then 2 else 0) - (if has_u entry && has_u pe then 4 else 0)

-- The loop of `virtual_memory_lookup`, on `n` levels that are left.
unfoldable pub walk_entries : ℕ → (ℕ → ℕ → ℕ) → ℕ → ℕ → ℕ → ℕ
unfolding mask_entry page_index
walk_entries zero entry pt va pe = pe
walk_entries (suc up) entry pt va pe =
    let pe' = mask_entry (entry pt (page_index va up)) pe in
    let rest = walk_entries up entry (pte_addr pe') va pe' in if has_p pe then rest else pe

-- A mapping with its page number, address and permissions, or unmapped.
pub data Vamapping : Type 0 where
  mapped : ℕ → ℕ → ℕ → Vamapping
  unmapped : Vamapping

unfoldable pub virtual_memory_lookup : (ℕ → ℕ → ℕ) → ℕ → ℕ → Vamapping
unfolding walk_entries
virtual_memory_lookup entry pagetable va =
    let pe = walk_entries 4 entry pagetable va pte_pwu in
    if has_p pe
    then mapped (pe / page_size) (pte_addr pe + va % page_size) (pte_flags pe)
    else unmapped
