-- ===== src/Kernel/Pages/Alloc.antt =====
-- `use_any_physical_page` finds the first free page, and a page is given to one owner at a time.
use cs61_f16_psets_team_md.Base.{
  ℕ, zero, suc, ◌+◌, ◌≤◌, ◌<◌, ◌≡◌, ◌≢◌, inl, inr, refl, arith, Bool, true, false, ◌&&◌, ltb, ◌∙◌,
  some, ◌==◌, leb, if◌then◌else◌, Bool-cases, subst, ◌%◌,
}
use native.Mathlib.Decide.{ℕ_discrete, dec_lt}
use cs61_f16_psets_team_md.Kernel.Pages.{
  page_size, memsize_physical, npages, page_number, page_address, no_page, Owner, PageInfo,
  PageTable, set_page, initial_owner, is_free, pageinfo_init_from, pageinfo_init, find_page,
  use_any_physical_page, assign_physical_page, take_page,
}

-- From `pn` on, the first page whose reference count is 0, or, if there is none among the pages
-- and the entry behind the array, -1.
pub data Found (info : PageTable) (pn : ℕ) (r : ℕ) : Type 0 where
  found :
      (q : ℕ)
      → pn ≤ q
      → q ≤ npages
      → (info q).refcount ≡ 0
      → ((k : ℕ) → pn ≤ k → k < q → (info k).refcount ≢ 0)
      → r ≡ page_address q
      → Found info pn r
  full : ((k : ℕ) → pn ≤ k → k ≤ npages → (info k).refcount ≢ 0) → r ≡ no_page → Found info pn r

from_first :
    (info : PageTable) (pn k : ℕ)
    → (info pn).refcount ≢ 0
    → (pn + 1 ≤ k → (info k).refcount ≢ 0)
    → pn ≤ k
    → (info k).refcount ≢ 0
from_first info pn k used later lo = elim (ℕ_discrete pn k) [
  | yes e ↦ subst (λ j. (info j).refcount ≢ 0) e used
  | no ne ↦ later (omega arith)
]

Found-next :
    (info : PageTable) (pn r : ℕ) → (info pn).refcount ≢ 0 → Found info (pn + 1) r → Found info pn r
Found-next info pn r used (found q lo hi z before e) =
    found q (omega arith) hi z (λ k a b. from_first info pn k used (λ c. before k c b) a) e
Found-next info pn r used (full all e) =
    full (λ k a b. from_first info pn k used (λ c. all k c b) a) e

find_page-Found :
    (fuel : ℕ) (info : PageTable) (pn : ℕ)
    → pn ≤ npages
    → npages < fuel + pn
    → (r : ℕ) × (find_page fuel info pn ≡ some r) × Found info pn r
unfolding find_page
find_page-Found zero info pn a b = absurd (omega arith)
find_page-Found (suc fuel) info pn a b = elim (Bool-cases ((info pn).refcount == 0)) [
  | inl e ↦ rw e (
    page_address pn,
    refl,
    found pn (omega arith) a (ground (arith, e)) (λ k lo hi. absurd (omega arith)) refl,
  )
  | inr e ↦ rw e (elim (Bool-cases (leb npages pn)) [
    | inl f ↦ rw f (
      no_page,
      refl,
      full
          (λ k lo hi. from_first info pn k (ground (arith, e)) (λ c. absurd (ground (arith, f))) lo)
          refl,
    )
    | inr f ↦
        let (r, run, h) = find_page-Found fuel info (pn + 1) (ground arith) (omega arith) in
        rw f (r, run, Found-next info pn r (ground (arith, e)) h)
  ])
]

-- Both functions together, on a table in which some page is free and on one in which none is.
pub data Taken (info : PageTable) (owner : Owner) (info' : PageTable) (pa : ℕ) (ok : Bool)
    : Type 0 where
  taken :
      (q : ℕ)
      → q < npages
      → (info q).refcount ≡ 0
      → ((k : ℕ) → k < q → (info k).refcount ≢ 0)
      → pa ≡ page_address q
      → ok ≡ true
      → info' ≡ set_page info q (record { owner = owner; refcount = 1 })
      → Taken info owner info' pa ok
  exhausted :
      ((k : ℕ) → k < npages → (info k).refcount ≢ 0)
      → ok ≡ false
      → info' ≡ info
      → Taken info owner info' pa ok

assign_physical_page-Taken :
    (info : PageTable) (owner : Owner) (r : ℕ)
    → Found info 0 r
    → let (info', ok) = assign_physical_page info r owner in Taken info owner info' r ok
unfolding assign_physical_page
assign_physical_page-Taken info owner r (found q lo hi z before e) = elim (dec_lt q npages) [
  | yes h ↦
      let number : page_number (page_address q) ≡ q = omega arith in
      let aligned : (page_address q % page_size == 0) ≡ true = ground arith in
      let inside : leb memsize_physical (page_address q) ≡ false = ground arith in
      rw (e, number, aligned, inside, z) (taken q h z (λ k. before k (omega arith)) refl refl refl)
  | no h ↦
      let outside : leb memsize_physical (page_address q) ≡ true = ground arith in
      let aligned : (page_address q % page_size == 0) ≡ true = ground arith in
      rw (e, aligned, outside) (exhausted (λ k b. before k (omega arith) (omega arith)) refl refl)
]
assign_physical_page-Taken info owner r (full all e) =
    rw e (exhausted (λ k b. all k (omega arith) (omega arith)) refl refl)

-- Taking a page returns the lowest free one, and records its owner and one reference for it and for
-- no other page. With no free page it fails and changes nothing, whatever stands behind the array.
pub take_page-Taken :
    (info : PageTable) (owner : Owner)
    → (info' : PageTable) × (pa : ℕ) × (ok : Bool) × (take_page info owner ≡ some (info', pa, ok))
      × Taken info owner info' pa ok
unfolding take_page use_any_physical_page
take_page-Taken info owner =
    let (r, run, h) = find_page-Found (npages + 1) info 0 (omega arith) (omega arith) in
    let (info', ok) = assign_physical_page info r owner in
    (info', r, ok, rw (run, take_page), assign_physical_page-Taken info owner r h)

abbrev initial_page : ℕ → ℕ → PageInfo
initial_page end pn = record {
  owner = initial_owner end (page_address pn);
  refcount = if is_free (initial_owner end (page_address pn)) then 0 else 1;
}

pageinfo_init_from_lem :
    (end rounds pn : ℕ) (info : PageTable) (k : ℕ)
    → pageinfo_init_from end rounds pn info k
      ≡ (if leb pn k && ltb k (pn + rounds) then initial_page end k else info k)
unfolding pageinfo_init_from
pageinfo_init_from_lem end zero pn info k = ground arith
pageinfo_init_from_lem end (suc rounds) pn info k =
    let here = set_page info pn (initial_page end pn) in
    let ih = pageinfo_init_from_lem end rounds (pn + 1) here k in
    elim (ℕ_discrete pn k) [
      | yes e ↦
          ih
          ∙ subst
              (λ j.
                (if leb (pn + 1) j && ltb j (pn + 1 + rounds) then initial_page end j else here j)
                ≡ (if leb pn j && ltb j (pn + suc rounds) then initial_page end j else info j))
              e (ground arith)
      | no ne ↦ ih ∙ ground arith
    ]

-- `pageinfo_init` gives each page of the array its owner, and one reference unless it is free.
pageinfo_init_lem :
    (end : ℕ) (info : PageTable) (pn : ℕ)
    → pn < npages
    → let p = pageinfo_init end info pn in
      (p.owner ≡ initial_owner end (page_address pn))
      × (p.refcount ≡ (if is_free p.owner then 0 else 1))
unfolding pageinfo_init
pageinfo_init_lem end info pn h =
    let inside : (leb 0 pn && ltb pn (0 + npages)) ≡ true = ground arith in
    let same : pageinfo_init_from end npages 0 info pn ≡ initial_page end pn =
      pageinfo_init_from_lem end npages 0 info pn ∙ rw inside in
    rw same (refl, refl)
