-- ===== src/Malloc/HeavyHitters/Sort.antt =====
-- `heavy` sorts the first `n` entries by falling size, permutes them, and leaves the others.
use mathlib.Core.List.{Perm}
use mathlib.Core.List.Perm
use cs61_f16_psets_team_md.Base.{
  ℕ, zero, suc, ◌-◌, ◌≤◌, ◌<◌, ◌≡◌, refl, ap, subst, arith, ltb→lt, List, [], ◌∷◌, ◌++◌,
  append_assoc, append-nil, ltb, Bool-cases, length, All, inl, inr,
}
use cs61_f16_psets_team_md.Malloc.Block.{Metadata}
use cs61_f16_psets_team_md.Malloc.HeavyHitters.{sink, sink_all, heavy}

abbrev pub NoLarger : Metadata → Metadata → Type 0
NoLarger a b = b.block_size ≤ a.block_size

-- Falling sizes: every entry is at least as large as each behind it.
abbrev pub IsSorted : List Metadata → Type 0
IsSorted [] = Unit
IsSorted (a ∷ l) = All (NoLarger a) l × IsSorted l

-- What the inner loop makes of `x ∷ l`: the entries before the one that sinks to the end, and it.
record Sunk (x : Metadata) (l : List Metadata) : Type 0 where
  init : List Metadata
  last : Metadata
  runs : (ys : List Metadata) → sink (length l) ((x ∷ l) ++ ys) ≡ init ++ last ∷ ys
  size : length init ≡ length l
  first : NoLarger x last
  least : All (λ a. NoLarger a last) init
  perm : Perm (x ∷ l) (init ++ last ∷ [])
  bounds :
      (m : Metadata)
      → All (λ a. NoLarger a m) (x ∷ l)
      → All (λ a. NoLarger a m) init × NoLarger last m

All-weaken :
    {P Q : Metadata → Type 0} (l : List Metadata) → ((a : Metadata) → P a → Q a) → All P l → All Q l
All-weaken [] f h = tt
All-weaken (a ∷ l) f h = (f a h.0, All-weaken l f h.1)

sunk : (l : List Metadata) (x : Metadata) → Sunk x l
unfolding sink
sunk [] x = record {
  init = [];
  last = x;
  runs = λ ys. refl;
  size = refl;
  first = omega arith;
  least = tt;
  perm = Perm.refl _;
  bounds = λ m h. (tt, h.0);
}
sunk (b ∷ l) x = elim (Bool-cases (ltb x.block_size b.block_size)) [
  | inl e ↦
      let r = sunk l x in
      record {
        init = b ∷ r.init;
        last = r.last;
        runs = λ ys. rw e (ap (◌∷◌ b) (r.runs ys));
        size = ap suc r.size;
        first = r.first;
        least = (omega (arith, ltb→lt x.block_size b.block_size e, r.first), r.least);
        perm = Perm.trans (Perm.swap b x l) (Perm.cons b r.perm);
        bounds = λ m h. ((h.1.0, (r.bounds m (h.0, h.1.1)).0), (r.bounds m (h.0, h.1.1)).1);
      }
  | inr e ↦
      let r = sunk l b in
      record {
        init = x ∷ r.init;
        last = r.last;
        runs = λ ys. rw e (ap (◌∷◌ x) (r.runs ys));
        size = ap suc r.size;
        first = ground (arith, r.first);
        least = (ground (arith, r.first), r.least);
        perm = Perm.cons x r.perm;
        bounds = λ m h. ((h.0, (r.bounds m h.1).0), (r.bounds m h.1).1);
      }
]

-- Every entry of `xs` is at least as large as each of `ys`.
abbrev Above : List Metadata → List Metadata → Type 0
Above xs ys = All (λ y. All (λ a. NoLarger a y) xs) ys

All-trans :
    (l : List Metadata) (a b : Metadata) → NoLarger a b → All (NoLarger b) l → All (NoLarger a) l
All-trans l a b h = All-weaken l (λ c k. omega arith)

-- Sinking within `xs`, in front of entries that are sorted and no larger.
record Sorts (xs ys : List Metadata) (out : List Metadata) : Type 0 where
  sorted : IsSorted out
  perm : Perm (xs ++ ys) out

sink_all-Sorts :
    (rounds : ℕ) (xs ys : List Metadata)
    → length xs ≡ suc rounds
    → IsSorted ys
    → Above xs ys
    → (out : List Metadata) × ((more : List Metadata)
        → sink_all rounds (xs ++ (ys ++ more)) ≡ out ++ more)
      × Sorts xs ys out
unfolding sink_all
sink_all-Sorts rounds [] ys n s b = absurd (omega arith)
sink_all-Sorts zero (x ∷ []) ys n s b = (
  x ∷ ys,
  (λ more. refl),
  record { sorted = (All-weaken ys (λ a k. k.0) b, s); perm = Perm.refl _ },
)
sink_all-Sorts zero (x ∷ z ∷ xs) ys n s b = absurd (omega arith)
sink_all-Sorts (suc rounds) (x ∷ xs) ys n s b =
    let r = sunk xs x in
    let below : Above r.init (r.last ∷ ys) = (r.least, All-weaken ys (λ y k. (r.bounds y k).0) b) in
    let sorted : IsSorted (r.last ∷ ys) = (All-weaken ys (λ y k. (r.bounds y k).1) b, s) in
    let (out, runs, o) =
      sink_all-Sorts rounds r.init (r.last ∷ ys) (omega (arith, r.size)) sorted below in
    (
      out,
      (λ more.
          let n' : length xs ≡ suc rounds = omega arith in
          subst (λ k. sink_all rounds (sink k (x ∷ (xs ++ (ys ++ more)))) ≡ out ++ more) n'
            (rw (r.runs (ys ++ more)) (runs more))),
      record {
        sorted = o.sorted;
        perm =
            Perm.trans
              (subst (Perm (x ∷ (xs ++ ys))) (append_assoc r.init (r.last ∷ []) ys)
                (Perm.append_right ys r.perm))
              o.perm;
      },
    )

-- `heavy` with `n` entries in use returns the used ones sorted by falling size and permuted, and
-- the entries behind them as they were.
pub heavy_lem :
    (used unused : List Metadata)
    → 0 < length used
    → (out : List Metadata) × (heavy (used ++ unused) (length used) ≡ out ++ unused)
      × IsSorted out
      × Perm used out
unfolding heavy
heavy_lem [] unused h = elim h [ ]
heavy_lem (x ∷ xs) unused h =
    let (out, runs, o) = sink_all-Sorts (length xs) (x ∷ xs) [] refl tt tt in
    let n : length xs ≡ suc (length xs) - 1 = omega arith in
    (
      out,
      subst (λ k. sink_all k (x ∷ (xs ++ unused)) ≡ out ++ unused) n (runs unused),
      o.sorted,
      subst (λ l. Perm l out) (append-nil (x ∷ xs)) o.perm,
    )
