-- ===== src/Kernel/Fork/Keeps.antt =====
-- What the rounds of `fork` in pset4/kernel.c leave of the process table.
use cs61_f16_psets_team_md.Base.{
  ℕ, zero, suc, ◌+◌, refl, inl, inr, Bool-cases, Bool, true, false, ◌&&◌, ltb, ◌==◌, Option, none,
  some,
}
use cs61_f16_psets_team_md.Kernel.Pages.{
  PageTable, process, page_size, use_any_physical_page, assign_physical_page,
}
use cs61_f16_psets_team_md.Kernel.Paging.{Vamapping, virtual_memory_lookup}
use cs61_f16_psets_team_md.Kernel.Process.{Kernel, proc_start_addr, vam_pn, vam_perm, is_process}
use cs61_f16_psets_team_md.Kernel.Fork.{
  Round, next, fails, panics, after_map, share_page, copy_taken, copy_page, fork_page, continue,
  fork_pages,
}
use cs61_f16_psets_team_md.Kernel.Setup.Keeps.{
  Keeps, Keeps-refl, Keeps-trans, OptionKeeps, map_memory-Keeps,
}

abbrev pub RoundKeeps : ℕ → Kernel → Round → Type 0
RoundKeeps child k (next k') = Keeps child k k'
RoundKeeps child k (fails k') = Keeps child k k'
RoundKeeps child k panics = Unit

after_map-Keeps :
    (child : ℕ) (k : Kernel) (o : Option Kernel)
    → OptionKeeps child k o
    → RoundKeeps child k (after_map o)
after_map-Keeps child k none h = tt
after_map-Keeps child k (some k') h = h

share_page-Keeps :
    (k : Kernel) (child va : ℕ) (vam : Vamapping) → RoundKeeps child k (share_page k child va vam)
unfolding share_page
share_page-Keeps k child va vam =
    elim (Bool-cases
      (ltb 0 (k.pageinfo (vam_pn vam)).refcount && is_process (k.pageinfo (vam_pn vam)).owner)) [
        | inl e ↦ rw e (
            after_map-Keeps child k _ (
              map_memory-Keeps child _ k _ va _ page_size 7
                (record { same_current = refl; others = λ q h. refl; state = refl })))
        | inr e ↦ rw e (Keeps-refl child k)
      ]

copy_taken-Keeps :
    (k : Kernel) (child va : ℕ) (vam : Vamapping) (r : PageTable × Bool)
    → RoundKeeps child k (copy_taken k child va vam r)
unfolding copy_taken
copy_taken-Keeps k child va vam (info, false) = Keeps-refl child k
copy_taken-Keeps k child va vam (info, true) = after_map-Keeps child k _ (
    map_memory-Keeps child _ k _ va _ page_size _
      (record { same_current = refl; others = λ q h. refl; state = refl }))

copy_page-Keeps :
    (k : Kernel) (child va : ℕ) (vam : Vamapping) → RoundKeeps child k (copy_page k child va vam)
unfolding copy_page
copy_page-Keeps k child va vam =
    elim (use_any_physical_page k.pageinfo)
      as (λ o. RoundKeeps child k (elim o [
        | none ↦ panics
        | some pa ↦ copy_taken k child va vam (assign_physical_page k.pageinfo pa (process child))
      ])) [
        | none ↦ tt
        | some pa ↦
            copy_taken-Keeps k child va vam (assign_physical_page k.pageinfo pa (process child))
      ]

fork_page-Keeps : (k : Kernel) (child va : ℕ) → RoundKeeps child k (fork_page k child va)
unfolding fork_page
fork_page-Keeps k child va =
    let vam = virtual_memory_lookup k.entries (k.processes k.current).p_pagetable va in
    elim (Bool-cases (va == proc_start_addr)) [
      | inl e ↦ rw e (share_page-Keeps k child va vam)
      | inr e ↦ rw e (elim (Bool-cases (vam_perm vam == 0)) [
        | inl f ↦ rw f (Keeps-refl child k)
        | inr f ↦ rw f (copy_page-Keeps k child va vam)
      ])
    ]

pub RoundKeeps-trans :
    (child : ℕ) (a b : Kernel) (r : Round)
    → Keeps child a b
    → RoundKeeps child b r
    → RoundKeeps child a r
RoundKeeps-trans child a b (next c) h h' = Keeps-trans child a b c h h'
RoundKeeps-trans child a b (fails c) h h' = Keeps-trans child a b c h h'
RoundKeeps-trans child a b panics h h' = tt

continue-Keeps :
    (child : ℕ) (k : Kernel) (r : Round) (loop : Kernel → Round)
    → RoundKeeps child k r
    → ((k' : Kernel) → RoundKeeps child k' (loop k'))
    → RoundKeeps child k (continue r loop)
unfolding continue
continue-Keeps child k (next k') loop h ih = RoundKeeps-trans child k k' (loop k') h (ih k')
continue-Keeps child k (fails k') loop h ih = h
continue-Keeps child k panics loop h ih = tt

pub fork_pages-Keeps :
    (rounds : ℕ) (k : Kernel) (child va : ℕ) → RoundKeeps child k (fork_pages rounds k child va)
unfolding fork_pages
fork_pages-Keeps zero k child va = Keeps-refl child k
fork_pages-Keeps (suc rounds) k child va =
    continue-Keeps child k (fork_page k child va)
      (λ k'. fork_pages rounds k' child (va + page_size)) (fork_page-Keeps k child va)
      (λ k'. fork_pages-Keeps rounds k' child (va + page_size))
