-- ===== src/Kernel/Paging/Lookup.antt =====
-- What `virtual_memory_lookup` of pset4/k-hardware.c finds behind `virtual_memory_map`.
use cs61_f16_psets_team_md.Base.{
  ℕ, ◌+◌, ◌-◌, ◌/◌, ◌%◌, ◌^◌, ◌<◌, ◌≡◌, ◌≢◌, refl, ap, ◌∙◌, arith, tests, true, false, ltb, ◌==◌,
}
use cs61_f16_psets_team_md.Kernel.Pages.{page_size, memsize_physical}
use cs61_f16_psets_team_md.Kernel.Paging.{
  index123, pte_pwu, has_p, has_w, has_u, pte_flags, pte_addr, page_index, Tables, set_entry,
  Mapped, ok, find_entry, entry_sane, check_entry, lookup_levels, store_entry, round_table,
  map_round, map_pages, map_allowed, virtual_memory_map, mask_entry, walk_entries, mapped,
  virtual_memory_lookup,
}

-- An entry that leads on to a page table in physical memory, with all permissions.
pub record IsPointer (pe : ℕ) : Type 0 where
  pub p : has_p pe ≡ true
  pub w : has_w pe ≡ true
  pub u : has_u pe ≡ true
  pub inside : ltb (pte_addr pe) memsize_physical ≡ true

-- The tables of the levels for `va`: the entries of the first three lead on, and the last table is
-- none of the others.
pub record IsPath (entry : ℕ → ℕ → ℕ) (root va e1 e2 e3 : ℕ) : Type 0 where
  pub first : entry root (page_index va 3) ≡ e1
  pub second : entry (pte_addr e1) (page_index va 2) ≡ e2
  pub third : entry (pte_addr e2) (page_index va 1) ≡ e3
  pub pointer1 : IsPointer e1
  pub pointer2 : IsPointer e2
  pub pointer3 : IsPointer e3
  pub apart0 : root ≢ pte_addr e3
  pub apart1 : pte_addr e1 ≢ pte_addr e3
  pub apart2 : pte_addr e2 ≢ pte_addr e3

-- An address within the page at `va` has its indices.
page_index-offset :
    (va off : ℕ)
    → va % page_size ≡ 0
    → off < page_size
    → (page_index (va + off) 3 ≡ page_index va 3)
      × (page_index (va + off) 2 ≡ page_index va 2)
      × (page_index (va + off) 1 ≡ page_index va 1)
      × (page_index (va + off) 0 ≡ page_index va 0)
unfolding page_index
page_index-offset va off a h =
    (omega (arith, a, h), omega (arith, a, h), omega (arith, a, h), omega (arith, a, h))

-- The first and the third entry lose their permissions, and the others keep them.
mask_entry-both :
    (e pe : ℕ)
    → IsPointer e
    → has_w pe ≡ true
    → has_u pe ≡ true
    → (has_p (mask_entry e pe) ≡ true)
      × (has_w (mask_entry e pe) ≡ false)
      × (has_u (mask_entry e pe) ≡ false)
      × (pte_addr (mask_entry e pe) ≡ pte_addr e)
unfolding mask_entry
mask_entry-both e pe i w u =
    rw (i.w, i.u, w, u)
      (
        grind (tests, i.p, i.w, i.u),
        grind (tests, i.w, i.u),
        grind (tests, i.w, i.u),
        grind (tests, i.w, i.u),
      )

mask_entry-neither : (e pe : ℕ) → has_w pe ≡ false → has_u pe ≡ false → mask_entry e pe ≡ e
unfolding mask_entry
mask_entry-neither e pe w u = grind (tests, w, u)

-- An entry that leads on is followed, whatever the permissions asked for.
check_entry-find_entry :
    (t : Tables) (pt i e perm : ℕ) (loop : Tables → ℕ → Mapped ℕ)
    → t.entry pt i ≡ e
    → IsPointer e
    → check_entry (find_entry t pt i perm) perm loop ≡ loop t (pte_addr e)
unfolding find_entry check_entry
check_entry-find_entry t pt i e perm loop same c =
    let sane : entry_sane e perm ≡ true = grind (tests, c.inside, c.w, c.u) in
    rw (same, c.p, sane) refl

pub lookup_levels-IsPath :
    (t : Tables) (root va perm e1 e2 e3 : ℕ)
    → IsPath t.entry root va e1 e2 e3
    → lookup_levels 3 t root va perm ≡ ok t (pte_addr e3)
unfolding lookup_levels
lookup_levels-IsPath t root va perm e1 e2 e3 c =
    check_entry-find_entry t root (page_index va 3) e1 perm (λ t' pt. lookup_levels 2 t' pt va perm)
      c.first c.pointer1
    ∙ check_entry-find_entry t (pte_addr e1) (page_index va 2) e2 perm
        (λ t' pt. lookup_levels 1 t' pt va perm) c.second c.pointer2
    ∙ check_entry-find_entry t (pte_addr e2) (page_index va 1) e3 perm
        (λ t' pt. lookup_levels 0 t' pt va perm) c.third c.pointer3

-- A walk along a path ends at the entry `pe` of its last table.
pub walk_entries-IsPath :
    (entry : ℕ → ℕ → ℕ) (root va e1 e2 e3 pe : ℕ)
    → IsPath entry root va e1 e2 e3
    → entry (pte_addr e3) (page_index va 0) ≡ pe
    → walk_entries 4 entry root va pte_pwu ≡ pe
unfolding walk_entries
walk_entries-IsPath entry root va e1 e2 e3 pe c last =
    let (p1, w1, u1, a1) = mask_entry-both e1 pte_pwu c.pointer1 refl refl in
    let m2 = mask_entry-neither e2 (mask_entry e1 pte_pwu) w1 u1 in
    let (p3, w3, u3, a3) = mask_entry-both e3 e2 c.pointer3 c.pointer2.w c.pointer2.u in
    let m4 = mask_entry-neither pe (mask_entry e3 e2) w3 u3 in
    rw (c.first, a1, c.second, m2, c.third, a3, last, m4, p1, c.pointer2.p, p3) refl

-- A store in the last table of a path keeps the path.
pub store-IsPath :
    (entry : ℕ → ℕ → ℕ) (root va i pe e1 e2 e3 : ℕ)
    → IsPath entry root va e1 e2 e3
    → IsPath (set_entry entry (pte_addr e3) i pe) root va e1 e2 e3
unfolding set_entry
store-IsPath entry root va i pe e1 e2 e3 c =
    let n0 : (root == pte_addr e3) ≡ false = grind (tests, c.apart0) in
    let n1 : (pte_addr e1 == pte_addr e3) ≡ false = grind (tests, c.apart1) in
    let n2 : (pte_addr e2 == pte_addr e3) ≡ false = grind (tests, c.apart2) in
    record {
      first = rw n0 c.first;
      second = rw n1 c.second;
      third = rw n2 c.third;
      pointer1 = c.pointer1;
      pointer2 = c.pointer2;
      pointer3 = c.pointer3;
      apart0 = c.apart0;
      apart1 = c.apart1;
      apart2 = c.apart2;
    }

-- Moves a path to another address of its page.
IsPath-offset :
    (entry : ℕ → ℕ → ℕ) (root va off e1 e2 e3 : ℕ)
    → va % page_size ≡ 0
    → off < page_size
    → IsPath entry root va e1 e2 e3
    → IsPath entry root (va + off) e1 e2 e3
IsPath-offset entry root va off e1 e2 e3 a h c =
    let (i3, i2, i1, i0) = page_index-offset va off a h in
    record {
      first = rw i3 c.first;
      second = rw i2 c.second;
      third = rw i1 c.third;
      pointer1 = c.pointer1;
      pointer2 = c.pointer2;
      pointer3 = c.pointer3;
      apart0 = c.apart0;
      apart1 = c.apart1;
      apart2 = c.apart2;
    }

set_entry-same : (entry : ℕ → ℕ → ℕ) (pt i pe i' : ℕ) → i' ≡ i → set_entry entry pt i pe pt i' ≡ pe
unfolding set_entry
set_entry-same entry pt i pe i' e = grind (tests, e)

-- The mapping that an entry stands for.
pub mapped-walk_entries :
    (entry : ℕ → ℕ → ℕ) (root va pa perm off : ℕ)
    → pa % page_size ≡ 0
    → perm < page_size
    → has_p perm ≡ true
    → va % page_size ≡ off
    → walk_entries 4 entry root va pte_pwu ≡ pa + perm
    → virtual_memory_lookup entry root va ≡ mapped (pa / page_size) (pa + off) perm
unfolding virtual_memory_lookup
mapped-walk_entries entry root va pa perm off a small p o walked =
    let present : has_p (pa + perm) ≡ true = grind (tests, a, p) in
    let number : (pa + perm) / page_size ≡ pa / page_size = omega (arith, a, small) in
    let address : pte_addr (pa + perm) + va % page_size ≡ pa + off = omega (arith, a, small, o) in
    let flags : pte_flags (pa + perm) ≡ perm = omega (arith, a, small) in
    rw (walked, present)
      (ap (λ n. mapped n (pte_addr (pa + perm) + va % page_size) (pte_flags (pa + perm))) number
        ∙ ap (λ n. mapped (pa / page_size) n (pte_flags (pa + perm))) address
        ∙ ap (mapped (pa / page_size) (pa + off)) flags)

-- Where the assertions hold, the page tables for `va` are there and `perm` has PTE_P, a call of
-- `virtual_memory_map` for one page succeeds and changes one entry of the last table only.
-- `virtual_memory_lookup` then finds every address of the page, with its physical page, its
-- physical address and exactly the permissions `perm`.
pub virtual_memory_lookup-virtual_memory_map :
    (t : Tables) (root va pa perm off e1 e2 e3 : ℕ)
    → map_allowed root va pa page_size perm ≡ true
    → has_p perm ≡ true
    → va < 2 ^ 48
    → off < page_size
    → IsPath t.entry root va e1 e2 e3
    → (t' : Tables) × (virtual_memory_map t root va pa page_size perm ≡ ok t' true)
      × (t'.entry ≡ set_entry t.entry (pte_addr e3) (page_index va 0) (pa + perm))
      × (virtual_memory_lookup t'.entry root (va + off) ≡ mapped (pa / page_size) (pa + off) perm)
unfolding virtual_memory_map map_pages round_table map_round store_entry
virtual_memory_lookup-virtual_memory_map t root va pa perm off e1 e2 e3 allowed p low h c =
    let fresh : (index123 va == 2 ^ 32 - 1) ≡ false = grind (tests, low) in
    let entry' = set_entry t.entry (pte_addr e3) (page_index va 0) (pa + perm) in
    let found = lookup_levels-IsPath t root va perm e1 e2 e3 c in
    let aligned : va % page_size ≡ 0 = grind (tests, allowed) in
    let aligned_pa : pa % page_size ≡ 0 = grind (tests, allowed, p) in
    let small : perm < page_size = grind (tests, allowed) in
    let c' =
      IsPath-offset entry' root va off e1 e2 e3 aligned h
        (store-IsPath t.entry root va (page_index va 0) (pa + perm) e1 e2 e3 c) in
    let (i3, i2, i1, i0) = page_index-offset va off aligned h in
    let stored : entry' (pte_addr e3) (page_index (va + off) 0) ≡ pa + perm =
      set_entry-same t.entry (pte_addr e3) (page_index va 0) (pa + perm) (page_index (va + off) 0)
        i0 in
    let walked = walk_entries-IsPath entry' root (va + off) e1 e2 e3 (pa + perm) c' stored in
    (
      record t { entry = entry' },
      rw (allowed, fresh, found, p) refl,
      refl,
      mapped-walk_entries entry' root (va + off) pa perm off aligned_pa small p
          (omega (arith, aligned, h)) walked,
    )
