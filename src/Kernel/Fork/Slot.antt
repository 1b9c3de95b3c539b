-- ===== src/Kernel/Fork/Slot.antt =====
-- The slot that `fork` of pset4/kernel.c finds.
use cs61_f16_psets_team_md.Base.{
  ℕ, zero, suc, ◌+◌, ◌≤◌, ◌<◌, ◌≡◌, subst, inl, inr, arith, Bool-cases, true, false, Option, none,
  some,
}
use native.Mathlib.Decide.{ℕ_discrete}
use cs61_f16_psets_team_md.Kernel.Process.{Proc}
use cs61_f16_psets_team_md.Kernel.Fork.{is_free_slot, find_slot}

abbrev pub IsTaken : (ℕ → Proc) → ℕ → Type 0
IsTaken processes q = is_free_slot (processes q).p_state ≡ false

-- The first free slot from `child` on, over `left` slots, or that there is none.
pub data Slot (processes : ℕ → Proc) (left child : ℕ) : Option ℕ → Type 0 where
  full :
      ((q : ℕ) → child ≤ q → q < child + left → IsTaken processes q)
      → Slot processes left child none
  at :
      (found : ℕ)
      → child ≤ found
      → found < child + left
      → is_free_slot (processes found).p_state ≡ true
      → ((q : ℕ) → child ≤ q → q < found → IsTaken processes q)
      → Slot processes left child (some found)

from_IsTaken :
    (processes : ℕ → Proc) (child q : ℕ)
    → IsTaken processes child
    → (child + 1 ≤ q → IsTaken processes q)
    → child ≤ q
    → IsTaken processes q
from_IsTaken processes child q used later lo = elim (ℕ_discrete child q) [
  | yes e ↦ subst (IsTaken processes) e used
  | no ne ↦ later (omega arith)
]

Slot-next :
    (processes : ℕ → Proc) (left child : ℕ) (o : Option ℕ)
    → IsTaken processes child
    → Slot processes left (child + 1) o
    → Slot processes (suc left) child o
Slot-next processes left child _ used (full all) =
    full (λ q a b. from_IsTaken processes child q used (λ c. all q c (omega arith)) a)
Slot-next processes left child _ used (at found lo hi is_free before) =
    at found (omega arith) (omega arith) is_free
      (λ q a b. from_IsTaken processes child q used (λ c. before q c b) a)

pub find_slot-Slot :
    (left : ℕ) (processes : ℕ → Proc) (child : ℕ)
    → Slot processes left child (find_slot left processes child)
unfolding find_slot
find_slot-Slot zero processes child = full (λ q a b. absurd (omega arith))
find_slot-Slot (suc left) processes child =
    elim (Bool-cases (is_free_slot (processes child).p_state)) [
      | inl e ↦ rw e (at child (omega arith) (omega arith) e (λ q a b. absurd (omega arith)))
      | inr e ↦
          rw e (Slot-next processes left child _ e (find_slot-Slot left processes (child + 1)))
    ]
