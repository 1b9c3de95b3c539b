-- ===== src/Kernel/Check/Isolation.antt =====
-- Where the invariants that `check_virtual_memory` of pset4/kernel.c asserts hold, processes are
-- isolated from one another.
use cs61_f16_psets_team_md.Base.{
  ℕ, zero, suc, ◌≡◌, ◌≢◌, ◌<◌, refl, sym, ap, ◌∙◌, arith, tests, Bool, true, false, ◌&&◌, ◌||◌,
  if◌then◌else◌, ltb, ◌==◌, ==_iff,
}
use cs61_f16_psets_team_md.Kernel.Pages.{npages, page_number, Owner, process, reserved, kernel}
use cs61_f16_psets_team_md.Kernel.Schedule.{nproc}
use cs61_f16_psets_team_md.Kernel.Paging.{pte_addr}
use cs61_f16_psets_team_md.Kernel.Process.{Kernel}
use cs61_f16_psets_team_md.Kernel.Fork.{is_free_slot}
use cs61_f16_psets_team_md.Kernel.Check.{
  all_below, same_owner, check_level, check_page_table_mappings, check_page_table_ownership,
  check_process, check_active, check_virtual_memory,
}

and_true : (a b : Bool) → (a && b) ≡ true → (a ≡ true) × (b ≡ true)
and_true true b e = (refl, e)
and_true false b e = absurd (grind (tests, e))

all_below_lem : (n : ℕ) (p : ℕ → Bool) (x : ℕ) → all_below n p ≡ true → x < n → p x ≡ true
unfolding all_below
all_below_lem zero p x h lt = absurd (omega arith)
all_below_lem (suc n) p x h lt = ground (arith, all_below_lem n p x)

same_owner-process : (o : Owner) (n : ℕ) → same_owner o (process n) ≡ true → o ≡ process n
unfolding same_owner
same_owner-process reserved n h = absurd (grind (tests, h))
same_owner-process kernel n h = absurd (grind (tests, h))
same_owner-process (process m) n h = ap process ((==_iff m n).0 h)

-- The page tables that the table at `root` leads to, with the number of levels below each.
pub data TableOf (k : Kernel) (root : ℕ) : ℕ → ℕ → Type 0 where
  whole : TableOf k root 3 root
  entry :
      {left pt : ℕ} (i : ℕ)
      → TableOf k root (suc left) pt
      → i < 512
      → (k.entries pt i == 0) ≡ false
      → TableOf k root left (pte_addr (k.entries pt i))

check_level-owner :
    (k : Kernel) (owner : Owner) (refcount left pt : ℕ)
    → check_level left k pt owner refcount ≡ true
    → same_owner (k.pageinfo (page_number pt)).owner owner ≡ true
unfolding check_level
check_level-owner k owner refcount zero pt h = grind (tests, h)
check_level-owner k owner refcount (suc left) pt h = grind (tests, h)

entry_cases : (a b : Bool) → (a || b) ≡ true → a ≡ false → b ≡ true
entry_cases true b h e = absurd (grind (tests, e))
entry_cases false b h e = h

last_true : (a b c d : Bool) → (a && b && c && d) ≡ true → d ≡ true
last_true a b c d h = grind (tests, h)

check_level-entries :
    (k : Kernel) (owner : Owner) (refcount left pt : ℕ)
    → check_level (suc left) k pt owner refcount ≡ true
    → all_below 512
        (λ i. k.entries pt i == 0 || check_level left k (pte_addr (k.entries pt i)) owner 1)
      ≡ true
unfolding check_level
check_level-entries k owner refcount left pt h =
    last_true (ltb (page_number pt) npages) (same_owner (k.pageinfo (page_number pt)).owner owner)
      ((k.pageinfo (page_number pt)).refcount == refcount) _ h

-- Every page table that a checked one leads to is checked.
check_level-entry :
    (k : Kernel) (owner : Owner) (refcount left pt i : ℕ)
    → check_level (suc left) k pt owner refcount ≡ true
    → i < 512
    → (k.entries pt i == 0) ≡ false
    → check_level left k (pte_addr (k.entries pt i)) owner 1 ≡ true
check_level-entry k owner refcount left pt i h lt ne =
    entry_cases _ _
      (all_below_lem 512
        (λ i. k.entries pt i == 0 || check_level left k (pte_addr (k.entries pt i)) owner 1) i
        (check_level-entries k owner refcount left pt h) lt)
      ne

-- Where a table has been checked, it belongs to the owner it was checked for, and so does every
-- table that it leads to.
table_checked :
    (k : Kernel) (owner : Owner) (refcount root left pt : ℕ)
    → check_level 3 k root owner refcount ≡ true
    → TableOf k root left pt
    → (r : ℕ) × (check_level left k pt owner r ≡ true)
table_checked k owner refcount root _ _ h whole = (refcount, h)
table_checked k owner refcount root _ _ h (entry {left} {pt} i t lt ne) =
    let (r, e) = table_checked k owner refcount root (suc left) pt h t in
    (1, check_level-entry k owner r left pt i e lt ne)

table-owner :
    (k : Kernel) (pid refcount root left pt : ℕ)
    → check_level 3 k root (process pid) refcount ≡ true
    → TableOf k root left pt
    → (k.pageinfo (page_number pt)).owner ≡ process pid
table-owner k pid refcount root left pt h t =
    let (r, e) = table_checked k (process pid) refcount root left pt h t in
    same_owner-process _ pid (check_level-owner k (process pid) r left pt e)

fourth_true : (a b c d e : Bool) → (a && b && c && d && e) ≡ true → d ≡ true
fourth_true a b c d e h = grind (tests, h)

process_true : (a b c d : Bool) → (a || b || (c && d)) ≡ true → a ≡ false → b ≡ false → d ≡ true
process_true true b c d h ea eb = absurd (grind (tests, ea))
process_true false true c d h ea eb = absurd (grind (tests, eb))
process_true false false c d h ea eb = (and_true c d h).1

check_virtual_memory-process :
    (start_data end pid : ℕ) (k : Kernel)
    → check_virtual_memory start_data end k ≡ true
    → pid < nproc
    → check_process start_data end k pid ≡ true
unfolding check_virtual_memory
check_virtual_memory-process start_data end pid k h lt =
    all_below_lem nproc (check_process start_data end k) pid
      (fourth_true (is_free_slot (k.processes 0).p_state)
        (check_page_table_mappings start_data end k k.kernel_pagetable)
        (check_page_table_ownership k k.kernel_pagetable kernel)
        (all_below nproc (check_process start_data end k)) (all_below npages (check_active k)) h)
      lt

check_process-ownership :
    (start_data end pid : ℕ) (k : Kernel)
    → check_process start_data end k pid ≡ true
    → is_free_slot (k.processes pid).p_state ≡ false
    → ((k.processes pid).p_pagetable == k.kernel_pagetable) ≡ false
    → check_page_table_ownership k (k.processes pid).p_pagetable (process pid) ≡ true
unfolding check_process
check_process-ownership start_data end pid k =
    process_true (is_free_slot (k.processes pid).p_state)
      ((k.processes pid).p_pagetable == k.kernel_pagetable)
      (check_page_table_mappings start_data end k (k.processes pid).p_pagetable)
      (check_page_table_ownership k (k.processes pid).p_pagetable (process pid))

else_of : {A : Type 0} (b : Bool) (x y : A) → b ≡ false → (if b then x else y) ≡ y
else_of true x y e = absurd (grind (tests, e))
else_of false x y e = refl

check_page_table_ownership-level :
    (k : Kernel) (pt : ℕ) (owner : Owner)
    → check_page_table_ownership k pt owner ≡ true
    → (pt == k.kernel_pagetable) ≡ false
    → check_level 3 k pt owner 1 ≡ true
unfolding check_page_table_ownership
check_page_table_ownership-level k pt owner h own =
    sym (
      else_of (pt == k.kernel_pagetable) (check_level 3 k pt kernel _) (check_level 3 k pt owner 1)
        own)
    ∙ h

-- A process that is active, with a page table of its own.
pub data RunsOwnTable (k : Kernel) (pid : ℕ) : Type 0 where
  runs_own_table :
      pid < nproc
      → is_free_slot (k.processes pid).p_state ≡ false
      → ((k.processes pid).p_pagetable == k.kernel_pagetable) ≡ false
      → RunsOwnTable k pid

process_table-owner :
    (start_data end pid left pt : ℕ) (k : Kernel)
    → check_virtual_memory start_data end k ≡ true
    → RunsOwnTable k pid
    → TableOf k (k.processes pid).p_pagetable left pt
    → (k.pageinfo (page_number pt)).owner ≡ process pid
process_table-owner start_data end pid left pt k h (runs_own_table lt busy own) =
    table-owner k pid 1 (k.processes pid).p_pagetable left pt (
      check_page_table_ownership-level k (k.processes pid).p_pagetable (process pid)
        (check_process-ownership start_data end pid k
          (check_virtual_memory-process start_data end pid k h lt) busy own)
        own)

abbrev process_number : Owner → ℕ
process_number (process n) = n
process_number o = 0

-- Where the checks of `check_virtual_memory` hold, no page is a page table, at any level, of two
-- different processes that are active and do not run on the kernel's page table.
pub isolated :
    (start_data end pid pid' left left' pt pt' : ℕ) (k : Kernel)
    → check_virtual_memory start_data end k ≡ true
    → RunsOwnTable k pid
    → RunsOwnTable k pid'
    → pid ≢ pid'
    → TableOf k (k.processes pid).p_pagetable left pt
    → TableOf k (k.processes pid').p_pagetable left' pt'
    → page_number pt ≢ page_number pt'
isolated start_data end pid pid' left left' pt pt' k h r r' ne t t' same = ne (
    ap process_number (
      sym (process_table-owner start_data end pid left pt k h r t)
      ∙ ap (λ n. (k.pageinfo n).owner) same
      ∙ process_table-owner start_data end pid' left' pt' k h r' t'))
