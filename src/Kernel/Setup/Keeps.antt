-- ===== src/Kernel/Setup/Keeps.antt =====
-- What setting up a page table in pset4/kernel.c leaves of the process table.
use cs61_f16_psets_team_md.Base.{
  ℕ, ◌≡◌, refl, ◌∙◌, inl, inr, tests, Bool-cases, Bool, true, false, leb, ◌==◌, Option, none, some,
  ◌>>=◌,
}
use cs61_f16_psets_team_md.Kernel.Pages.{PageTable, process, memsize_physical, take_page}
use cs61_f16_psets_team_md.Kernel.Paging.{Mapped, ok, missing, panic, virtual_memory_map}
use cs61_f16_psets_team_md.Kernel.Process.{Kernel, proc_start_addr, set_proc, adopt, map_memory}
use cs61_f16_psets_team_md.Kernel.Setup.{
  clear_taken, take_table, Levels, take_levels, setup_pagetable,
}

-- Up to the page table of `child` the processes are those of `k`, and the current one is the same.
pub record Keeps (child : ℕ) (k k' : Kernel) : Type 0 where
  pub same_current : k'.current ≡ k.current
  pub others : (q : ℕ) → (q == child) ≡ false → k'.processes q ≡ k.processes q
  pub state : (k'.processes child).p_state ≡ (k.processes child).p_state

pub Keeps-refl : (child : ℕ) (k : Kernel) → Keeps child k k
Keeps-refl child k = record { same_current = refl; others = λ q h. refl; state = refl }

pub Keeps-trans : (child : ℕ) (a b c : Kernel) → Keeps child a b → Keeps child b c → Keeps child a c
Keeps-trans child a b c h h' = record {
  same_current = h'.same_current ∙ h.same_current;
  others = λ q e. h'.others q e ∙ h.others q e;
  state = h'.state ∙ h.state;
}

abbrev pub OptionKeeps : ℕ → Kernel → Option Kernel → Type 0
OptionKeeps child k none = Unit
OptionKeeps child k (some k') = Keeps child k k'

-- A map changes the entries of the page tables alone.
adopt-Keeps :
    (child : ℕ) (k k0 : Kernel) (m : Mapped Bool)
    → Keeps child k0 k
    → OptionKeeps child k0 (adopt k m)
unfolding adopt
adopt-Keeps child k k0 (ok t b) h = record {
  same_current = h.same_current;
  others = h.others;
  state = h.state;
}
adopt-Keeps child k k0 (missing t) h = record {
  same_current = h.same_current;
  others = h.others;
  state = h.state;
}
adopt-Keeps child k k0 panic h = tt

pub map_memory-Keeps :
    (child : ℕ) (k k0 : Kernel) (pt va pa sz perm : ℕ)
    → Keeps child k0 k
    → OptionKeeps child k0 (map_memory k pt va pa sz perm)
unfolding map_memory
map_memory-Keeps child k k0 pt va pa sz perm h =
    adopt-Keeps child k k0
      (virtual_memory_map (record { entry = k.entries; allocator = none }) pt va pa sz perm) h

abbrev pub PairKeeps : ℕ → Kernel → Option (Kernel × ℕ) → Type 0
PairKeeps child k none = Unit
PairKeeps child k (some (k', a)) = Keeps child k k'

-- What holds of a chain of calls that may fail.
bind-PairKeeps :
    {B : Type 0} (Q : Option B → Type 0) (child : ℕ) (k : Kernel) (o : Option (Kernel × ℕ))
    (f : Kernel × ℕ → Option B)
    → Q none
    → PairKeeps child k o
    → ((k' : Kernel) → (a : ℕ) → Keeps child k k' → Q (f (k', a)))
    → Q (o >>= f)
bind-PairKeeps Q child k none f z h ih = z
bind-PairKeeps Q child k (some (k', a)) f z h ih = ih k' a h

clear_taken-Keeps :
    (child : ℕ) (k : Kernel) (r : PageTable × ℕ × Bool) → PairKeeps child k (clear_taken k r)
unfolding clear_taken
clear_taken-Keeps child k (info, address, done) = elim (Bool-cases (leb memsize_physical address)) [
  | inl e ↦ rw e tt
  | inr e ↦ rw e (record { same_current = refl; others = λ q h. refl; state = refl })
]

take_table-Keeps : (child : ℕ) (k : Kernel) → PairKeeps child k (take_table k child)
unfolding take_table
take_table-Keeps child k =
    elim (take_page k.pageinfo (process child)) as (λ o. PairKeeps child k (o >>= clear_taken k)) [
      | none ↦ tt
      | some r ↦ clear_taken-Keeps child k r
    ]

abbrev LevelsKeeps : ℕ → Kernel → Option Levels → Type 0
LevelsKeeps child k none = Unit
LevelsKeeps child k (some l) = Keeps child k l.after

take_levels-Keeps : (child : ℕ) (k : Kernel) → LevelsKeeps child k (take_levels k child)
unfolding take_levels
take_levels-Keeps child k =
    let step : (a : Kernel) → Keeps child k a → (b : Kernel) → Keeps child a b → Keeps child k b =
      λ a h b h'. Keeps-trans child k a b h h' in
    bind-PairKeeps (LevelsKeeps child k) child k (take_table k child) _ tt
      (take_table-Keeps child k)
      (λ k0 a0 h0.
        bind-PairKeeps (LevelsKeeps child k) child k0 (take_table k0 child) _ tt
          (take_table-Keeps child k0)
          (λ k1 a1 h1.
            bind-PairKeeps (LevelsKeeps child k) child k1 (take_table k1 child) _ tt
              (take_table-Keeps child k1)
              (λ k2 a2 h2.
                bind-PairKeeps (LevelsKeeps child k) child k2 (take_table k2 child) _ tt
                  (take_table-Keeps child k2)
                  (λ k3 a3 h3.
                    bind-PairKeeps (LevelsKeeps child k) child k3 (take_table k3 child) _ tt
                      (take_table-Keeps child k3)
                      (λ k4 a4 h4.
                        step k3 (step k2 (step k1 (step k0 h0 k1 h1) k2 h2) k3 h3) k4 h4)))))

link_kernel-Keeps :
    (child : ℕ) (k : Kernel) (l : Levels) (t : ℕ → ℕ → ℕ)
    → Keeps child k l.after
    → Keeps child k
        (record (set_proc l.after child
          (record (l.after.processes child) { p_pagetable = l.level0 })) { entries = t })
link_kernel-Keeps child k l t h = record {
  same_current = h.same_current;
  others = λ q e. rw e (h.others q e);
  state = let self : (child == child) ≡ true = grind (tests) in rw self h.state;
}

pair-Keeps :
    (child a : ℕ) (k : Kernel) (o : Option Kernel)
    → OptionKeeps child k o
    → PairKeeps child k (o >>= λ k2. some (k2, a))
pair-Keeps child a k none h = tt
pair-Keeps child a k (some k2) h = h

-- The link of the levels and the map behind it.
setup_levels-Keeps :
    (child : ℕ) (k : Kernel) (o : Option Levels) (f : Levels → Option Kernel)
    → LevelsKeeps child k o
    → ((l : Levels) → Keeps child k l.after → OptionKeeps child k (f l))
    → PairKeeps child k (o >>= λ l. (f l >>= λ k2. some (k2, l.level0)))
setup_levels-Keeps child k none f h ih = tt
setup_levels-Keeps child k (some l) f h ih = pair-Keeps child l.level0 k (f l) (ih l h)

pub setup_pagetable-Keeps : (child : ℕ) (k : Kernel) → PairKeeps child k (setup_pagetable k child)
unfolding setup_pagetable
setup_pagetable-Keeps child k =
    setup_levels-Keeps child k (take_levels k child) _ (take_levels-Keeps child k) (λ l h.
      map_memory-Keeps child _ k l.level0 proc_start_addr proc_start_addr _ 0
        (link_kernel-Keeps child k l _ h))
