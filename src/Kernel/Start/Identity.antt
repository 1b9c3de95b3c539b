-- ===== src/Kernel/Start/Identity.antt =====
-- The page tables that the kernel makes when it starts, and its process table.
use cs61_f16_psets_team_md.Base.{
  ℕ, zero, suc, ◌+◌, ◌*◌, ◌/◌, ◌%◌, ◌≤◌, ◌<◌, ◌≡◌, refl, ap, ◌∙◌, arith, tests, true, false, not,
  ◌&&◌, ltb, ◌==◌, if◌then◌else◌, some, inl, inr, ◌⊎◌, Bool-cases,
}
use cs61_f16_psets_team_md.Kernel.Pages.{page_size, memsize_physical}
use cs61_f16_psets_team_md.Kernel.Schedule.{free as free_slot}
use cs61_f16_psets_team_md.Kernel.Paging.{
  pte_pwu, has_p, pte_addr, page_index, set_entry, map_allowed,
}
use cs61_f16_psets_team_md.Kernel.Paging.Lookup.{IsPointer, IsPath}
use cs61_f16_psets_team_md.Kernel.Paging.Range.{
  filled, filled-outside, filled-inside, virtual_memory_map-low,
}
use cs61_f16_psets_team_md.Kernel.Process.{
  Proc, Kernel, proc_start_addr, set_proc, adopt, map_memory,
}
use cs61_f16_psets_team_md.Kernel.Start.{console, kernel_table, link_tables, init_processes}

-- The tables of the kernel are page-aligned and in physical memory.
pub record IsBase (base : ℕ) : Type 0 where
  pub aligned : base % page_size ≡ 0
  pub inside : base + 5 * page_size ≤ memsize_physical

-- The addresses of the tables.
abbrev pub table_entry : ℕ → ℕ → ℕ
table_entry base i = kernel_table base i + pte_pwu

table_entry-IsPointer : (base i : ℕ) → IsBase base → i < 5 → IsPointer (table_entry base i)
table_entry-IsPointer base i b lt = record {
  p = grind (tests, b.aligned);
  w = grind (tests, b.aligned);
  u = grind (tests, b.aligned);
  inside = grind (tests, b.aligned, b.inside, lt);
}

pte_addr-table : (base i : ℕ) → IsBase base → pte_addr (table_entry base i) ≡ kernel_table base i
pte_addr-table base i b = omega (arith, b.aligned)

link_tables-entry :
    (entry : ℕ → ℕ → ℕ) (base i pt : ℕ)
    → i < 3
    → pt ≡ kernel_table base i
    → link_tables entry base pt 0 ≡ table_entry base (suc i)
unfolding link_tables set_entry
link_tables-entry entry base i pt lt e = grind (tests, lt, e)

pub link_tables-IsPath :
    (entry : ℕ → ℕ → ℕ) (base : ℕ)
    → IsBase base
    → IsPath
        (link_tables entry base)
        base
        0
        (table_entry base 1)
        (table_entry base 2)
        (table_entry base 3)
unfolding page_index
link_tables-IsPath entry base b = record {
  first = link_tables-entry entry base 0 base (omega arith) (omega arith);
  second =
      link_tables-entry entry base 1 (pte_addr (table_entry base 1)) (omega arith)
        (pte_addr-table base 1 b);
  third =
      link_tables-entry entry base 2 (pte_addr (table_entry base 2)) (omega arith)
        (pte_addr-table base 2 b);
  pointer1 = table_entry-IsPointer base 1 b (omega arith);
  pointer2 = table_entry-IsPointer base 2 b (omega arith);
  pointer3 = table_entry-IsPointer base 3 b (omega arith);
  apart0 = λ e. absurd (omega (arith, e, pte_addr-table base 3 b));
  apart1 = λ e. absurd (omega (arith, e, pte_addr-table base 1 b, pte_addr-table base 3 b));
  apart2 = λ e. absurd (omega (arith, e, pte_addr-table base 2 b, pte_addr-table base 3 b));
}

-- The permissions that the kernel's page table has for an address.
unfoldable pub kernel_perm : ℕ → ℕ
kernel_perm va =
    if ltb va proc_start_addr && not (va / page_size == console / page_size) then 3 else 7

-- The last table, behind the three maps.
abbrev tables_started : (ℕ → ℕ → ℕ) → ℕ → ℕ → ℕ → ℕ
tables_started entry pt = filled 1 (filled 256 (filled 512 entry pt 0 7) pt 0 3) pt 184 7

apart : (j n : ℕ) → (j == n) ≡ false → (j < n) ⊎ (n + 1 ≤ j)
apart j n e = elim (Bool-cases (ltb j n)) [
  | inl lt ↦ inl (grind (tests, lt))
  | inr ge ↦ inr (grind (tests, e, ge))
]

pub tables_started-perm :
    (entry : ℕ → ℕ → ℕ) (pt va : ℕ)
    → va < memsize_physical
    → tables_started entry pt pt (va / page_size) ≡ va / page_size * page_size + kernel_perm va
unfolding kernel_perm
tables_started-perm entry pt va lt =
    let j = va / page_size in
    let e1 = filled 512 entry pt 0 7 in
    let e2 = filled 256 e1 pt 0 3 in
    elim (Bool-cases (j == console / page_size)) [
      | inl e ↦
          filled-inside 1 e2 pt 184 7 j (grind (tests, e)) (grind (tests, e))
          ∙ ap (◌+◌ (j * page_size)) (grind (tests, e))
      | inr e ↦ elim (Bool-cases (ltb va proc_start_addr)) [
        | inl below ↦
            filled-outside 1 e2 pt 184 7 j (apart j 184 e)
            ∙ filled-inside 256 e1 pt 0 3 j (omega arith) (grind (tests, below))
            ∙ ap (◌+◌ (j * page_size)) (grind (tests, e, below))
        | inr above ↦
            filled-outside 1 e2 pt 184 7 j (apart j 184 e)
            ∙ filled-outside 256 e1 pt 0 3 j (inr (grind (tests, above)))
            ∙ filled-inside 512 entry pt 0 7 j (omega arith) (grind (tests, lt))
            ∙ ap (◌+◌ (j * page_size)) (grind (tests, above))
      ]
    ]

pub kernel_perm-valid : (va : ℕ) → (has_p (kernel_perm va) ≡ true) × (kernel_perm va < page_size)
unfolding kernel_perm
kernel_perm-valid va =
    elim (Bool-cases (ltb va proc_start_addr && not (va / page_size == console / page_size))) [
      | inl e ↦ rw e (refl, omega arith)
      | inr e ↦ rw e (refl, omega arith)
    ]

-- The slots of the process table, by their numbers.
pub slots : ℕ → (ℕ → Proc) → ℕ → Proc
slots zero ps = ps
slots (suc n) ps =
    λ q. if q == n then record (slots n ps n) { p_pid = n; p_state = free_slot } else slots n ps q

pub init_processes-slots :
    (n : ℕ) (k : Kernel) → init_processes n k ≡ record k { processes = slots n k.processes }
unfolding init_processes slots
init_processes-slots zero k = refl
init_processes-slots (suc n) k =
    ap (λ k'. set_proc k' n (record (k'.processes n) { p_pid = n; p_state = free_slot }))
      (init_processes-slots n k)

pub slots-free :
    (n q : ℕ) (ps : ℕ → Proc)
    → q < n
    → ((slots n ps q).p_pid ≡ q) × ((slots n ps q).p_state ≡ free_slot)
unfolding slots
slots-free zero q ps lt = absurd (omega (arith, lt))
slots-free (suc n) q ps lt = elim (Bool-cases (q == n)) [
  | inl e ↦ let same : n ≡ q = grind (tests, e) in rw e (same, refl)
  | inr e ↦ rw e (slots-free n q ps (grind (tests, e, lt)))
]

pub map_memory-low :
    (k : Kernel) (root n i va sz perm e1 e2 e3 : ℕ)
    → has_p perm ≡ true
    → va ≡ i * page_size
    → sz ≡ suc n * page_size
    → i + suc n ≤ 512
    → map_allowed root va va sz perm ≡ true
    → IsPath k.entries root 0 e1 e2 e3
    → map_memory k root va va sz perm
      ≡ some (record k { entries = filled (suc n) k.entries (pte_addr e3) i perm })
unfolding map_memory adopt
map_memory-low k root n i va sz perm e1 e2 e3 p here size le allowed c =
    ap (adopt k) (virtual_memory_map-low root perm e1 e2 e3 p n i va sz _ here size le allowed c)
