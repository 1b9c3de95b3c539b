-- ===== src/Kernel/Process/Exit.antt =====
-- What `sys_exit` of pset4/kernel.c does to the pages.
use cs61_f16_psets_team_md.Base.{
  ℕ, zero, suc, ◌+◌, ◌-◌, ◌*◌, ◌≤◌, ◌<◌, ◌≡◌, ◌≢◌, refl, sym, ap, ◌∙◌, subst, inl, inr, arith,
  tests, Bool-cases, true, false, ◌&&◌, if◌then◌else◌, ltb, leb, ◌==◌,
}
use native.Mathlib.Decide.{ℕ_discrete, dec_lt}
use cs61_f16_psets_team_md.Kernel.Pages.{page_size, npages, PageInfo, PageTable, free, set_page}
use cs61_f16_psets_team_md.Kernel.Schedule.{free as free_slot}
use cs61_f16_psets_team_md.Kernel.Paging.{virtual_memory_lookup}
use cs61_f16_psets_team_md.Kernel.Process.{
  Kernel, proc_start_addr, vam_pn, is_owner, is_process, free_page, unshare_page, exit_page,
  exit_pages, sys_exit,
}

-- The kernel's page table maps every page of physical memory to itself, and no virtual address
-- behind to one of them.
pub record IsIdentity (k : Kernel) : Type 0 where
  pub physical :
      (n : ℕ)
      → n < npages
      → vam_pn (virtual_memory_lookup k.entries k.kernel_pagetable (n * page_size)) ≡ n
  pub behind :
      (n : ℕ)
      → npages ≤ n
      → n < 768
      → npages ≤ vam_pn (virtual_memory_lookup k.entries k.kernel_pagetable (n * page_size))

-- A page behind the exit of `pid`: freed if it was its own; otherwise as it was, but the first page
-- of the program, if another process shares it, has a reference less.
abbrev pub released : ℕ → PageInfo → PageInfo
released pid p = if is_owner p.owner pid then record { owner = free; refcount = 0 } else p

abbrev pub unshared : PageInfo → PageInfo
unshared p =
    if ltb 1 p.refcount && is_process p.owner then record p { refcount = p.refcount - 1 } else p

abbrev pub exited : ℕ → ℕ → PageInfo → PageInfo
exited pid q p = if q == 256 then unshared (released pid p) else released pid p

set_page-same : (info : PageTable) (n : ℕ) (p : PageInfo) → set_page info n p n ≡ p
set_page-same info n p = grind (tests)

free_page-released : (info : PageTable) (pid n : ℕ) → free_page info pid n n ≡ released pid (info n)
unfolding free_page
free_page-released info pid n = elim (Bool-cases (is_owner (info n).owner pid)) [
  | inl e ↦ rw e (set_page-same info n (record { owner = free; refcount = 0 }))
  | inr e ↦ rw e refl
]

free_page-other :
    (info : PageTable) (pid n q : ℕ) → (n == q) ≡ false → free_page info pid n q ≡ info q
unfolding free_page
free_page-other info pid n q h = elim (Bool-cases (is_owner (info n).owner pid)) [
  | inl e ↦ rw (e, h) refl
  | inr e ↦ rw e refl
]

unshare_page-unshared : (info : PageTable) (n : ℕ) → unshare_page info n n ≡ unshared (info n)
unfolding unshare_page
unshare_page-unshared info n =
    elim (Bool-cases (ltb 1 (info n).refcount && is_process (info n).owner)) [
      | inl e ↦ rw e (set_page-same info n (record (info n) { refcount = (info n).refcount - 1 }))
      | inr e ↦ rw e refl
    ]

unshare_page-other :
    (info : PageTable) (n q : ℕ) → (n == q) ≡ false → unshare_page info n q ≡ info q
unfolding unshare_page
unshare_page-other info n q h =
    elim (Bool-cases (ltb 1 (info n).refcount && is_process (info n).owner)) [
      | inl e ↦ rw (e, h) refl
      | inr e ↦ rw e refl
    ]

start_page : (n : ℕ) → (n * page_size == proc_start_addr) ≡ (n == 256)
start_page n = grind (tests)

-- A round changes the page of its address alone.
exit_page-exited :
    (k : Kernel) (pid n : ℕ) (info : PageTable)
    → vam_pn (virtual_memory_lookup k.entries k.kernel_pagetable (n * page_size)) ≡ n
    → exit_page k pid (n * page_size) info n ≡ exited pid n (info n)
unfolding exit_page
exit_page-exited k pid n info e =
    let freed = free_page-released info pid n in
    rw (e, start_page n)
      (elim (Bool-cases (n == 256)) [
        | inl f ↦ rw f (unshare_page-unshared (free_page info pid n) n ∙ ap unshared freed)
        | inr f ↦ rw f freed
      ])

exit_page-other :
    (k : Kernel) (pid n q : ℕ) (info : PageTable)
    → (vam_pn (virtual_memory_lookup k.entries k.kernel_pagetable (n * page_size)) == q) ≡ false
    → exit_page k pid (n * page_size) info q ≡ info q
unfolding exit_page
exit_page-other k pid n q info h =
    let pn = vam_pn (virtual_memory_lookup k.entries k.kernel_pagetable (n * page_size)) in
    let freed = free_page-other info pid pn q h in
    elim (Bool-cases (n * page_size == proc_start_addr)) [
      | inl e ↦ rw e (unshare_page-other (free_page info pid pn) pn q h ∙ freed)
      | inr e ↦ rw e freed
    ]

apart : (a b : ℕ) → a ≢ b → (a == b) ≡ false
apart a b h = grind (tests, h)

-- The page of a round is no other page of the array.
elsewhere_lem :
    (k : Kernel) (n q : ℕ)
    → IsIdentity k
    → q < npages
    → n < 768
    → n ≢ q
    → (vam_pn (virtual_memory_lookup k.entries k.kernel_pagetable (n * page_size)) == q) ≡ false
elsewhere_lem k n q c h low ne =
    let pn = vam_pn (virtual_memory_lookup k.entries k.kernel_pagetable (n * page_size)) in
    elim (dec_lt n npages) [
      | yes lt ↦ apart pn q (omega (arith, c.physical n lt, ne))
      | no ge ↦ apart pn q (omega (arith, c.behind n (omega (arith, ge)) low, h))
    ]

exit_pages-exited :
    (k : Kernel) (pid rounds n q : ℕ) (info : PageTable)
    → IsIdentity k
    → q < npages
    → n + rounds ≤ 768
    → exit_pages k pid rounds (n * page_size) info q
      ≡ (if leb n q && ltb q (n + rounds) then exited pid q (info q) else info q)
unfolding exit_pages
exit_pages-exited k pid zero n q info c h low =
    let none_left : (leb n q && ltb q (n + 0)) ≡ false = grind (tests) in rw none_left refl
exit_pages-exited k pid (suc rounds) n q info c h low =
    let here = exit_page k pid (n * page_size) info in
    let next : n * page_size + page_size ≡ suc n * page_size = omega arith in
    let ih =
      ap (λ va. exit_pages k pid rounds va here q) next
      ∙ exit_pages-exited k pid rounds (suc n) q here c h (omega (arith, low)) in
    elim (ℕ_discrete n q) [
      | yes e ↦
          let now : here q ≡ exited pid q (info q) =
            subst (λ j. here j ≡ exited pid j (info j)) e
              (exit_page-exited k pid n info (c.physical n (omega (arith, e, h)))) in
          let before : (leb (suc n) q && ltb q (suc n + rounds)) ≡ false = grind (tests, e) in
          let inside : (leb n q && ltb q (n + suc rounds)) ≡ true = grind (tests, e) in
          ih
          ∙ ap (λ b. if b then exited pid q (here q) else here q) before
          ∙ now
          ∙ sym (ap (λ b. if b then exited pid q (info q) else info q) inside)
      | no ne ↦
          let elsewhere : (vam_pn
                  (virtual_memory_lookup k.entries k.kernel_pagetable (n * page_size))
                == q)
              ≡ false =
            elsewhere_lem k n q c h (omega (arith, low)) ne in
          let kept = exit_page-other k pid n q info elsewhere in
          let same : (leb (suc n) q && ltb q (suc n + rounds))
              ≡ (leb n q && ltb q (n + suc rounds)) =
            grind (tests, ne) in
          ih
          ∙ ap (λ p. if leb (suc n) q && ltb q (suc n + rounds) then exited pid q p else p) kept
          ∙ ap (λ b. if b then exited pid q (info q) else info q) same
    ]

-- Where the kernel's page table maps each page of physical memory to itself, and no virtual address
-- behind to one of them, `sys_exit` frees every page that the process owns. Of the others it
-- changes none but the first page of the program, which has a reference less if it is shared; and
-- the process's slot is free.
pub sys_exit-exited :
    (k : Kernel) (pid q : ℕ)
    → IsIdentity k
    → q < npages
    → ((sys_exit k pid).pageinfo q ≡ exited pid q (k.pageinfo q))
      × (((sys_exit k pid).processes pid).p_state ≡ free_slot)
unfolding sys_exit
sys_exit-exited k pid q c h =
    let inside : (leb 0 q && ltb q (0 + 768)) ≡ true = grind (tests, h) in
    (
      exit_pages-exited k pid 768 0 q k.pageinfo c h (omega arith)
          ∙ ap (λ b. if b then exited pid q (k.pageinfo q) else k.pageinfo q) inside,
      grind (tests),
    )
