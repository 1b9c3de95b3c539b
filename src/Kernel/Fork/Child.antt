-- ===== src/Kernel/Fork/Child.antt =====
-- What `fork` of pset4/kernel.c does to the process table.
use cs61_f16_psets_team_md.Base.{
  ℕ, ◌≤◌, ◌<◌, ◌≡◌, refl, sym, ap, subst, ◌∙◌, inl, inr, tests, Bool-cases, true, false,
  if◌then◌else◌, ◌==◌, Option, none, some, ==_iff,
}
use cs61_f16_psets_team_md.Kernel.Schedule.{runnable, nproc}
use cs61_f16_psets_team_md.Kernel.Schedule.{free as free_slot}
use cs61_f16_psets_team_md.Kernel.Process.{Kernel, proc_start_addr, set_proc, sys_exit}
use cs61_f16_psets_team_md.Kernel.Fork.{
  is_free_slot, Round, next, fails, panics, fork_pages, Forked, forked, panicked, set_registers,
  finish_fork, fork_with, fork_into, fork_slot, find_slot, fork,
}
use cs61_f16_psets_team_md.Kernel.Setup.{setup_pagetable}
use cs61_f16_psets_team_md.Kernel.Setup.Keeps.{Keeps, Keeps-trans, PairKeeps, setup_pagetable-Keeps}
use cs61_f16_psets_team_md.Kernel.Fork.Keeps.{RoundKeeps, RoundKeeps-trans, fork_pages-Keeps}
use cs61_f16_psets_team_md.Kernel.Fork.Slot.{IsTaken, Slot, full, at, find_slot-Slot}

-- What `fork` comes to. A child has the slot, the parent's registers but for the result, which is 0
-- in the child and the child's ID in the parent, and is runnable; no other process is changed.
pub record Created (k : Kernel) (child : ℕ) (k' : Kernel) : Type 0 where
  pub same_current : k'.current ≡ k.current
  pub child_state : (k'.processes child).p_state ≡ runnable
  pub child_registers :
      (k'.processes child).p_registers ≡ record (k.processes k.current).p_registers { reg_rax = 0 }
  pub parent_registers :
      (k'.processes k.current).p_registers
      ≡ record (k.processes k.current).p_registers { reg_rax = child }
  pub others :
      (q : ℕ) → (q == child) ≡ false → (q == k.current) ≡ false → k'.processes q ≡ k.processes q

-- The kernel in which the child's slot is taken.
abbrev pub with_child : Kernel → ℕ → Kernel
with_child k child = set_proc k child (record (k.processes child) { p_state = runnable })

-- Where the kernel panics: `setup_pagetable` faults, or the loop over the parent's pages does.
pub data ForkPanics (k : Kernel) (child : ℕ) : Type 0 where
  no_table : setup_pagetable (with_child k child) child ≡ none → ForkPanics k child
  bad_page :
      (k1 : Kernel) (address : ℕ)
      → setup_pagetable (with_child k child) child ≡ some (k1, address)
      → (address == 0) ≡ false
      → fork_pages 512
          (set_proc k1 child (record (k1.processes child) { p_pagetable = address }))
          child
          proc_start_addr
        ≡ panics
      → ForkPanics k child

-- Where `fork` returns -1: the page table is at 0, or the loop over the parent's pages fails.
pub data ForkFails (k : Kernel) (child : ℕ) : Kernel → Type 0 where
  table_at_zero :
      (k1 : Kernel) (address : ℕ)
      → setup_pagetable (with_child k child) child ≡ some (k1, address)
      → (address == 0) ≡ true
      → ForkFails k child
          (set_proc k1 child (record (k1.processes child) { p_pagetable = address }))
  no_page_left :
      (k1 k2 : Kernel) (address : ℕ)
      → setup_pagetable (with_child k child) child ≡ some (k1, address)
      → (address == 0) ≡ false
      → fork_pages 512
          (set_proc k1 child (record (k1.processes child) { p_pagetable = address }))
          child
          proc_start_addr
        ≡ fails k2
      → ForkFails k child k2

pub data ForkOutcome (k : Kernel) : Forked → Type 0 where
  no_slot : ((q : ℕ) → 1 ≤ q → q < nproc → IsTaken k.processes q) → ForkOutcome k (forked k none)
  created :
      (child : ℕ) (k' : Kernel)
      → 1 ≤ child
      → child < nproc
      → is_free_slot (k.processes child).p_state ≡ true
      → ((q : ℕ) → 1 ≤ q → q < child → IsTaken k.processes q)
      → Created k child k'
      → ForkOutcome k (forked k' (some child))
  undone :
      (child : ℕ) (k' k2 : Kernel)
      → ForkFails k child k2
      → is_free_slot (k'.processes child).p_state ≡ true
      → ((q : ℕ) → (q == child) ≡ false → k'.processes q ≡ k.processes q)
      → ForkOutcome k (forked k' none)
  crashed :
      (child : ℕ)
      → is_free_slot (k.processes child).p_state ≡ true
      → ForkPanics k child
      → ForkOutcome k panicked

same_number : (n : ℕ) → (n == n) ≡ true
same_number n = grind (tests)

other_number : (a b : ℕ) → (a == b) ≡ false → (b == a) ≡ false
other_number a b h = grind (tests, h)

-- The processes behind the loop are those before `fork`, up to the child.
Keeps-with_child :
    (k k2 : Kernel) (child q : ℕ)
    → Keeps child (with_child k child) k2
    → (q == child) ≡ false
    → k2.processes q ≡ k.processes q
Keeps-with_child k k2 child q h e =
    h.others q e
    ∙ ap (λ b. if b then record (k.processes child) { p_state = runnable } else k.processes q) e

set_registers-Created :
    (k k2 : Kernel) (child : ℕ)
    → (k.current == child) ≡ false
    → Keeps child (with_child k child) k2
    → Created k child (set_registers k2 child)
unfolding set_registers
set_registers-Created k k2 child ne h =
    let cur : k2.current ≡ k.current = h.same_current in
    let self = same_number child in
    let ne' = other_number k.current child ne in
    let parent : k2.processes k2.current ≡ k.processes k.current =
      ap k2.processes cur ∙ Keeps-with_child k k2 child k.current h ne in
    record {
      same_current = cur;
      child_state =
          rw (self, cur, ne')
            (h.state
              ∙ ap
                  (λ b.
                    (if b
                      then record (k.processes child) { p_state = runnable }
                      else k.processes child).p_state)
                  self);
      child_registers = rw self (ap (λ p. record p.p_registers { reg_rax = 0 }) parent);
      parent_registers =
          rw (ne, cur, same_number k.current)
            (ap (λ p. record p.p_registers { reg_rax = child })
              (Keeps-with_child k k2 child k.current h ne));
      others = λ q a b. rw (a, cur, b) (Keeps-with_child k k2 child q h a);
    }

sys_exit-processes :
    (k : Kernel) (pid q : ℕ)
    → (sys_exit k pid).processes q
      ≡ (if q == pid then record (k.processes pid) { p_state = free_slot } else k.processes q)
unfolding sys_exit
sys_exit-processes k pid q = refl

-- `sys_exit` gives the slot back.
undone_at :
    (k k2 : Kernel) (child : ℕ)
    → ForkFails k child k2
    → Keeps child (with_child k child) k2
    → ForkOutcome k (finish_fork (fails k2) child)
unfolding finish_fork
undone_at k k2 child failed h =
    undone child (sys_exit k2 child) k2 failed
      (ap (λ p. is_free_slot p.p_state)
        (sys_exit-processes k2 child child
          ∙ ap
              (λ b.
                if b
                then record (k2.processes child) { p_state = free_slot }
                else k2.processes child)
              (same_number child)))
      (λ q e.
        sys_exit-processes k2 child q
        ∙ ap
            (λ b. if b then record (k2.processes child) { p_state = free_slot } else k2.processes q)
            e
        ∙ Keeps-with_child k k2 child q h e)

finish_fork-ForkOutcome :
    (k : Kernel) (r : Round) (child : ℕ)
    → 1 ≤ child
    → child < nproc
    → is_free_slot (k.processes child).p_state ≡ true
    → ((q : ℕ) → 1 ≤ q → q < child → IsTaken k.processes q)
    → (k.current == child) ≡ false
    → RoundKeeps child (with_child k child) r
    → ((k2 : Kernel) → r ≡ fails k2 → ForkFails k child k2)
    → (r ≡ panics → ForkPanics k child)
    → ForkOutcome k (finish_fork r child)
unfolding finish_fork
finish_fork-ForkOutcome k (next k2) child lo hi f before ne h failing panicking =
    created child (set_registers k2 child) lo hi f before (set_registers-Created k k2 child ne h)
finish_fork-ForkOutcome k (fails k2) child lo hi f before ne h failing panicking =
    undone_at k k2 child (failing k2 refl) h
finish_fork-ForkOutcome k panics child lo hi f before ne h failing panicking =
    crashed child f (panicking refl)

set_pagetable-Keeps :
    (child : ℕ) (k : Kernel) (address : ℕ)
    → Keeps child k (set_proc k child (record (k.processes child) { p_pagetable = address }))
set_pagetable-Keeps child k address = record {
  same_current = refl;
  others = λ q e. rw e refl;
  state = rw (same_number child) refl;
}

fork_with-ForkOutcome :
    (k : Kernel) (child : ℕ) (o : Option (Kernel × ℕ))
    → 1 ≤ child
    → child < nproc
    → is_free_slot (k.processes child).p_state ≡ true
    → ((q : ℕ) → 1 ≤ q → q < child → IsTaken k.processes q)
    → (k.current == child) ≡ false
    → PairKeeps child (with_child k child) o
    → setup_pagetable (with_child k child) child ≡ o
    → ForkOutcome k (fork_with child o)
unfolding fork_with
fork_with-ForkOutcome k child none lo hi f before ne h e = crashed child f (no_table e)
fork_with-ForkOutcome k child (some (k1, address)) lo hi f before ne h e =
    let k2 = set_proc k1 child (record (k1.processes child) { p_pagetable = address }) in
    let kept =
      Keeps-trans child (with_child k child) k1 k2 h (set_pagetable-Keeps child k1 address) in
    let r = fork_pages 512 k2 child proc_start_addr in
    elim (Bool-cases (address == 0)) [
      | inl z ↦
          subst (λ b. ForkOutcome k (finish_fork (if b then fails k2 else r) child)) (sym z)
            (undone_at k k2 child (table_at_zero k1 address e z) kept)
      | inr z ↦
          subst (λ b. ForkOutcome k (finish_fork (if b then fails k2 else r) child)) (sym z)
            (finish_fork-ForkOutcome k r child lo hi f before ne
              (RoundKeeps-trans child (with_child k child) k2 r kept
                (fork_pages-Keeps 512 k2 child proc_start_addr))
              (λ k3 failed. no_page_left k1 k3 address e z failed) (bad_page k1 address e z))
    ]

-- The current process is in no free slot.
current_apart :
    (k : Kernel) (child : ℕ)
    → IsTaken k.processes k.current
    → is_free_slot (k.processes child).p_state ≡ true
    → (k.current == child) ≡ false
current_apart k child running f = elim (Bool-cases (k.current == child)) [
  | inl e ↦
      let same : k.current ≡ child = (==_iff k.current child).0 e in
      let impossible : false ≡ true =
        sym running ∙ ap (λ q. is_free_slot (k.processes q).p_state) same ∙ f in
      absurd (grind (tests, impossible))
  | inr e ↦ e
]

fork_slot-ForkOutcome :
    (k : Kernel) (o : Option ℕ)
    → IsTaken k.processes k.current
    → Slot k.processes 15 1 o
    → ForkOutcome k (fork_slot k o)
unfolding fork_slot fork_into
fork_slot-ForkOutcome k _ running (full all) = no_slot (λ q a b. all q a b)
fork_slot-ForkOutcome k _ running (at child lo hi f before) =
    fork_with-ForkOutcome k child (setup_pagetable (with_child k child) child) lo hi f before
      (current_apart k child running f) (setup_pagetable-Keeps child (with_child k child)) refl

-- Called in a running process, `fork` returns -1 and leaves the kernel as it was if no slot from 1
-- on is free. Otherwise it takes the first free one. It makes the child in it, unless its page
-- table is at 0 or the loop over the parent's pages fails, where it returns -1 with the slot free
-- again and no other process changed, or that loop or `setup_pagetable` panics.
pub fork-ForkOutcome : (k : Kernel) → IsTaken k.processes k.current → ForkOutcome k (fork k)
unfolding fork
fork-ForkOutcome k running =
    fork_slot-ForkOutcome k (find_slot 15 k.processes 1) running (find_slot-Slot 15 k.processes 1)
