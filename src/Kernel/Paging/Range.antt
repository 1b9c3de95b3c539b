-- ===== src/Kernel/Paging/Range.antt =====
-- `virtual_memory_map` of pset4/k-hardware.c on several pages of physical memory, each mapped to
-- itself, below one page table of the last level.
use cs61_f16_psets_team_md.Base.{
  ℕ, zero, suc, ◌+◌, ◌-◌, ◌*◌, ◌/◌, ◌%◌, ◌^◌, ◌≤◌, ◌<◌, ◌≡◌, ◌≢◌, ◌⊎◌, refl, ap, ◌∙◌, arith, tests,
  true, false, ltb, ◌==◌, Option, none, some, inl, inr, sym, Bool-cases,
}
use cs61_f16_psets_team_md.Kernel.Pages.{page_size}
use cs61_f16_psets_team_md.Kernel.Paging.{
  index123, has_p, pte_addr, page_index, Tables, set_entry, ok, store_entry, round_table, map_round,
  map_pages, map_allowed, virtual_memory_map, mapped, virtual_memory_lookup,
}
use cs61_f16_psets_team_md.Kernel.Paging.Lookup.{
  IsPath, lookup_levels-IsPath, walk_entries-IsPath, store-IsPath, mapped-walk_entries,
}

-- The entries of `n` pages from page `i` on.
unfoldable pub filled : ℕ → (ℕ → ℕ → ℕ) → ℕ → ℕ → ℕ → ℕ → ℕ → ℕ
filled zero entry pt i perm = entry
filled (suc n) entry pt i perm =
    filled n (set_entry entry pt i (i * page_size + perm)) pt (suc i) perm

set_entry-same : (entry : ℕ → ℕ → ℕ) (pt i pe j : ℕ) → j ≡ i → set_entry entry pt i pe pt j ≡ pe
unfolding set_entry
set_entry-same entry pt i pe j e = grind (tests, e)

set_entry-other :
    (entry : ℕ → ℕ → ℕ) (pt i pe j : ℕ) → j ≢ i → set_entry entry pt i pe pt j ≡ entry pt j
unfolding set_entry
set_entry-other entry pt i pe j ne = grind (tests, ne)

pub filled-outside :
    (n : ℕ) (entry : ℕ → ℕ → ℕ) (pt i perm j : ℕ)
    → (j < i) ⊎ (i + n ≤ j)
    → filled n entry pt i perm pt j ≡ entry pt j
unfolding filled
filled-outside zero entry pt i perm j out = refl
filled-outside (suc n) entry pt i perm j (inl lt) =
    filled-outside n (set_entry entry pt i (i * page_size + perm)) pt (suc i) perm j
      (inl (omega (arith, lt)))
    ∙ set_entry-other entry pt i (i * page_size + perm) j (λ e. absurd (omega (arith, lt, e)))
filled-outside (suc n) entry pt i perm j (inr le) =
    filled-outside n (set_entry entry pt i (i * page_size + perm)) pt (suc i) perm j
      (inr (omega (arith, le)))
    ∙ set_entry-other entry pt i (i * page_size + perm) j (λ e. absurd (omega (arith, le, e)))

pub filled-inside :
    (n : ℕ) (entry : ℕ → ℕ → ℕ) (pt i perm j : ℕ)
    → i ≤ j
    → j < i + n
    → filled n entry pt i perm pt j ≡ j * page_size + perm
unfolding filled
filled-inside zero entry pt i perm j le lt = absurd (omega (arith, le, lt))
filled-inside (suc n) entry pt i perm j le lt = elim (Bool-cases (ltb i j)) [
  | inl e ↦
      filled-inside n (set_entry entry pt i (i * page_size + perm)) pt (suc i) perm j
        (grind (tests, e)) (omega (arith, lt))
  | inr e ↦
      let same : j ≡ i = grind (tests, e, le) in
      filled-outside n (set_entry entry pt i (i * page_size + perm)) pt (suc i) perm j
        (inl (omega (arith, same)))
      ∙ set_entry-same entry pt i (i * page_size + perm) j same
      ∙ ap (λ x. x * page_size + perm) (sym same)
]

pub filled-IsPath :
    (n : ℕ) (entry : ℕ → ℕ → ℕ) (root va i perm e1 e2 e3 : ℕ)
    → IsPath entry root va e1 e2 e3
    → IsPath (filled n entry (pte_addr e3) i perm) root va e1 e2 e3
unfolding filled
filled-IsPath zero entry root va i perm e1 e2 e3 c = c
filled-IsPath (suc n) entry root va i perm e1 e2 e3 c =
    filled-IsPath n _ root va (suc i) perm e1 e2 e3
      (store-IsPath entry root va i (i * page_size + perm) e1 e2 e3 c)

-- The addresses below 2 MB have the same tables.
low-index :
    (va : ℕ)
    → va < 2 ^ 21
    → (page_index va 3 ≡ page_index 0 3)
      × (page_index va 2 ≡ page_index 0 2)
      × (page_index va 1 ≡ page_index 0 1)
unfolding page_index
low-index va lt = (omega (arith, lt), omega (arith, lt), omega (arith, lt))

pub IsPath-low :
    (entry : ℕ → ℕ → ℕ) (root va e1 e2 e3 : ℕ)
    → va < 2 ^ 21
    → IsPath entry root 0 e1 e2 e3
    → IsPath entry root va e1 e2 e3
IsPath-low entry root va e1 e2 e3 lt c =
    let (i3, i2, i1) = low-index va lt in
    record {
      first = rw i3 c.first;
      second = rw i2 c.second;
      third = rw i1 c.third;
      pointer1 = c.pointer1;
      pointer2 = c.pointer2;
      pointer3 = c.pointer3;
      apart0 = c.apart0;
      apart1 = c.apart1;
      apart2 = c.apart2;
    }

page_index-page : (i : ℕ) → i < 512 → page_index (i * page_size) 0 ≡ i
unfolding page_index
page_index-page i lt = omega (arith, lt)

virtual_memory_map-allowed :
    (t : Tables) (root va sz perm : ℕ)
    → map_allowed root va va sz perm ≡ true
    → virtual_memory_map t root va va sz perm
      ≡ map_pages (sz / page_size) t root va va perm (2 ^ 32 - 1) none
unfolding virtual_memory_map
virtual_memory_map-allowed t root va sz perm allowed = rw allowed refl

page_index-number : (va : ℕ) → va < 2 ^ 21 → page_index va 0 ≡ va / page_size
unfolding page_index
page_index-number va lt = omega (arith, lt)

module _ (root perm e1 e2 e3 : ℕ) (p : has_p perm ≡ true) where
  -- A round on a page, where the table of its level 4 is the last one, or is looked up.
  map_pages-round :
      (n i : ℕ) (t : Tables) (last : ℕ) (l4 : Option ℕ)
      → i < 512
      → round_table t root (i * page_size) perm last l4 ≡ some (t, some (pte_addr e3))
      → map_pages (suc n) t root (i * page_size) (i * page_size) perm last l4
        ≡ map_pages n
            (record t { entry = set_entry t.entry (pte_addr e3) i (i * page_size + perm) })
            root
            (suc i * page_size)
            (suc i * page_size)
            perm
            0
            (some (pte_addr e3))
  unfolding map_pages map_round store_entry
  map_pages-round n i t last l4 lt e =
      let next : (i * page_size + page_size) % 2 ^ 64 ≡ suc i * page_size = omega (arith, lt) in
      let index : index123 (i * page_size) ≡ 0 = omega (arith, lt) in
      rw (e, p, page_index-page i lt, next, index) refl

  map_pages-cached :
      (n i : ℕ) (t : Tables)
      → i + n ≤ 512
      → map_pages n t root (i * page_size) (i * page_size) perm 0 (some (pte_addr e3))
        ≡ ok (record t { entry = filled n t.entry (pte_addr e3) i perm }) true
  unfolding filled map_pages round_table
  map_pages-cached zero i t le = refl
  map_pages-cached (suc n) i t le =
      let index : (index123 (i * page_size) == 0) ≡ true = grind (tests, le) in
      map_pages-round n i t 0 (some (pte_addr e3)) (omega (arith, le)) (rw index refl)
      ∙ map_pages-cached n (suc i) _ (omega (arith, le))

  -- The first round looks the table up.
  map_pages-low :
      (n i : ℕ) (t : Tables)
      → i + suc n ≤ 512
      → IsPath t.entry root 0 e1 e2 e3
      → map_pages (suc n) t root (i * page_size) (i * page_size) perm (2 ^ 32 - 1) none
        ≡ ok (record t { entry = filled (suc n) t.entry (pte_addr e3) i perm }) true
  unfolding filled round_table
  map_pages-low n i t le c =
      let fresh : (index123 (i * page_size) == 2 ^ 32 - 1) ≡ false = grind (tests, le) in
      let found =
        lookup_levels-IsPath t root (i * page_size) perm e1 e2 e3
          (IsPath-low t.entry root (i * page_size) e1 e2 e3 (omega (arith, le)) c) in
      map_pages-round n i t (2 ^ 32 - 1) none (omega (arith, le)) (rw (fresh, found) refl)
      ∙ map_pages-cached n (suc i) _ (omega (arith, le))

  pub virtual_memory_map-low :
      (n i va sz : ℕ) (t : Tables)
      → va ≡ i * page_size
      → sz ≡ suc n * page_size
      → i + suc n ≤ 512
      → map_allowed root va va sz perm ≡ true
      → IsPath t.entry root 0 e1 e2 e3
      → virtual_memory_map t root va va sz perm
        ≡ ok (record t { entry = filled (suc n) t.entry (pte_addr e3) i perm }) true
  virtual_memory_map-low n i va sz t here size le allowed c =
      virtual_memory_map-allowed t root va sz perm allowed
      ∙ ap (λ m. map_pages m t root va va perm (2 ^ 32 - 1) none) (omega (arith, size))
      ∙ ap (λ a. map_pages (suc n) t root a a perm (2 ^ 32 - 1) none) here
      ∙ map_pages-low n i t le c

-- What a lookup finds of an address that is mapped to itself.
pub virtual_memory_lookup-same :
    (entry : ℕ → ℕ → ℕ) (root va perm e1 e2 e3 : ℕ)
    → va < 2 ^ 21
    → perm < page_size
    → has_p perm ≡ true
    → IsPath entry root 0 e1 e2 e3
    → entry (pte_addr e3) (va / page_size) ≡ va / page_size * page_size + perm
    → virtual_memory_lookup entry root va ≡ mapped (va / page_size) va perm
virtual_memory_lookup-same entry root va perm e1 e2 e3 lt small p c stored =
    let pa = va / page_size * page_size in
    let walked =
      walk_entries-IsPath entry root va e1 e2 e3 (pa + perm)
        (IsPath-low entry root va e1 e2 e3 lt c)
        (ap (entry (pte_addr e3)) (page_index-number va lt) ∙ stored) in
    mapped-walk_entries entry root va pa perm (va % page_size) (omega arith) small p refl walked
    ∙ ap (λ n. mapped n (pa + va % page_size) perm) (omega arith)
    ∙ ap (λ a. mapped (va / page_size) a perm) (omega arith)
