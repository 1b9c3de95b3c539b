-- ===== src/Malloc/Allocator/Valid.antt =====
-- The invariant of m61.c on the active blocks, and that `m61_malloc` and `m61_free` keep it.
use cs61_f16_psets_team_md.Base.{
  ℕ, ◌+◌, ◌%◌, ◌≤◌, ◌≡◌, ◌≢◌, refl, sym, arith, true, false, not, ◌&&◌, List, [], ◌∷◌, ◌++◌, ◌==◌,
  leb, if◌then◌else◌, All, length, length-append,
}
use cs61_f16_psets_team_md.Malloc.Block.{word_mod, Metadata, metadata_size}
use cs61_f16_psets_team_md.Malloc.Allocator.{
  State, payload, header_of, request_size, too_large, block_end, new_metadata, link_front,
  add_block, m61_malloc, unlink_header, guard_fails, remove_block, m61_free, done, abort,
  wild_write,
}
use cs61_f16_psets_team_md.Malloc.Allocator.Links.{
  IsLinked, Differs, Distinct, link_front-IsLinked, unlink-IsLinked, All-middle,
  links_fail-IsLinked, link_front-header, unlink_header-header, after_unlink, middle-IsLinked,
  All-last_of,
}

-- The header of an active block as `m61_malloc` wrote it, its links aside, within the heap bounds.
pub record IsBlock (s : State) (a : ℕ) : Type 0 where
  pub is_active : (s.header a).active ≡ 0
  pub address_is : (s.header a).address ≡ payload a
  pub min_set : s.heap_min ≢ 0
  pub above_min : s.heap_min ≤ a
  pub below_max : block_end a (s.header a).block_size ≤ s.heap_max
  pub no_wrap : block_end a (s.header a).block_size ≤ word_mod

abbrev pub total_size : (ℕ → Metadata) → List ℕ → ℕ
total_size h [] = 0
total_size h (a ∷ bs) = (h a).block_size + total_size h bs

All-remove :
    (P : ℕ → Type 0) (xs : List ℕ) (a : ℕ) (ys : List ℕ) → All P (xs ++ a ∷ ys) → All P (xs ++ ys)
All-remove P [] a ys h = h.1
All-remove P (x ∷ xs) a ys h = (h.0, All-remove P xs a ys h.1)

-- `bs` are the addresses of the active blocks, the latest first.
pub record IsValid (s : State) (bs : List ℕ) : Type 0 where
  pub linked : IsLinked s.header 0 s.metadata_link bs
  pub distinct : Distinct (0 ∷ bs)
  pub blocks : All (IsBlock s) bs
  pub count : s.counters.nactive ≡ length bs % word_mod
  pub size : s.counters.active_size ≡ total_size s.header bs % word_mod

-- What the base allocator promises of a block that it returns for a request of `sz` bytes: it is
-- none of the active ones, and lies within the address space.
pub record IsFresh (p sz : ℕ) (bs : List ℕ) : Type 0 where
  pub not_null : p ≢ 0
  pub distinct : All (Differs p) bs
  pub fits : p + request_size sz ≤ word_mod

add_block-IsBlock_old :
    (s : State) (p sz file line : ℕ) (a : ℕ)
    → p ≢ 0
    → p ≢ s.metadata_link
    → a ≢ p
    → a ≢ 0
    → IsBlock s a
    → IsBlock (add_block s p sz file line) a
unfolding add_block
add_block-IsBlock_old s p sz file line a p0 ne np nz b =
    let k = link_front-header s.header s.metadata_link p (new_metadata p sz file line) a ne in
    record {
      is_active = ground (arith, k, b.is_active);
      address_is = ground (arith, k, b.address_is);
      min_set = ground (arith, b.min_set);
      above_min = ground (arith, b.min_set, b.above_min);
      below_max = ground (arith, k, b.below_max);
      no_wrap = ground (arith, k, b.no_wrap);
    }

add_block-IsBlock_new :
    (s : State) (p sz file line : ℕ)
    → p ≢ 0
    → p ≢ s.metadata_link
    → p + request_size sz ≤ word_mod
    → IsBlock (add_block s p sz file line) p
unfolding add_block
add_block-IsBlock_new s p sz file line p0 ne fits =
    let k = link_front-header s.header s.metadata_link p (new_metadata p sz file line) p ne in
    record {
      is_active = ground (arith, k);
      address_is = ground (arith, k);
      min_set = ground arith;
      above_min = ground arith;
      below_max = ground (arith, k);
      no_wrap = ground (arith, k, fits);
    }

add_block-blocks :
    (s : State) (p sz file line : ℕ) (bs : List ℕ)
    → p ≢ 0
    → p ≢ s.metadata_link
    → All (Differs p) bs
    → All (Differs 0) bs
    → All (IsBlock s) bs
    → All (IsBlock (add_block s p sz file line)) bs
add_block-blocks s p sz file line [] p0 ne d z b = tt
add_block-blocks s p sz file line (a ∷ bs) p0 ne d z b = (
  add_block-IsBlock_old s p sz file line a p0 ne d.0 z.0 b.0,
  add_block-blocks s p sz file line bs p0 ne d.1 z.1 b.1,
)

link_front-total_size :
    (h : ℕ → Metadata) (first p : ℕ) (m : Metadata) (bs : List ℕ)
    → p ≢ first
    → All (Differs p) bs
    → total_size (link_front h first p m) bs ≡ total_size h bs
link_front-total_size h first p m [] ne d = refl
link_front-total_size h first p m (a ∷ bs) ne d =
    ground
      (arith, link_front-header h first p m a ne, link_front-total_size h first p m bs ne d.1, d.0)

pub fresh-ne-link :
    (s : State) (p : ℕ) (bs : List ℕ)
    → p ≢ 0
    → All (Differs p) bs
    → IsLinked s.header 0 s.metadata_link bs
    → p ≢ s.metadata_link
fresh-ne-link s p [] p0 d l = omega (arith, l)
fresh-ne-link s p (b ∷ bs) p0 d l = omega (arith, l.0, d.0)

pub add_block-IsValid :
    (s : State) (p sz file line : ℕ) (bs : List ℕ)
    → IsValid s bs
    → IsFresh p sz bs
    → IsValid (add_block s p sz file line) (p ∷ bs)
unfolding add_block
add_block-IsValid s p sz file line bs v f =
    let m = new_metadata p sz file line in
    let ne = fresh-ne-link s p bs f.not_null f.distinct v.linked in
    let new = link_front-header s.header s.metadata_link p m p ne in
    let old = link_front-total_size s.header s.metadata_link p m bs ne f.distinct in
    record {
      linked =
          link_front-IsLinked s.header s.metadata_link p m bs f.not_null refl refl
            (f.distinct, v.distinct.1) v.linked;
      distinct = ((f.not_null, v.distinct.0), (f.distinct, v.distinct.1));
      blocks = (
        add_block-IsBlock_new s p sz file line f.not_null ne f.fits,
        add_block-blocks s p sz file line bs f.not_null ne f.distinct v.distinct.0 v.blocks,
      );
      count = omega (arith, v.count);
      size = ground (arith, new, old, v.size);
    }

-- A call of `m61_malloc` that succeeds adds its block in front of the active ones and keeps the
-- invariant, with `nactive` and `active_size` the number and the total size of the active blocks.
pub m61_malloc-IsValid :
    (s : State) (p sz file line : ℕ) (bs : List ℕ)
    → IsValid s bs
    → IsFresh p sz bs
    → too_large sz ≡ false
    → ((m61_malloc s p sz file line).1 ≡ payload p)
      × IsValid (m61_malloc s p sz file line).0 (p ∷ bs)
unfolding m61_malloc
m61_malloc-IsValid s p sz file line bs v f small =
    let p0 : (p == 0) ≡ false = ground (arith, f.not_null) in
    rw (small, p0) (refl, add_block-IsValid s p sz file line bs v f)

pub middle-IsBlock :
    (s : State) (xs : List ℕ) (a : ℕ) (ys : List ℕ) → All (IsBlock s) (xs ++ a ∷ ys) → IsBlock s a
middle-IsBlock s [] a ys h = h.0
middle-IsBlock s (x ∷ xs) a ys h = middle-IsBlock s xs a ys h.1

pub header_of-payload : (a : ℕ) → a + metadata_size ≤ word_mod → header_of (payload a) ≡ a
header_of-payload a h = omega arith

remove_block-IsBlock : (s : State) (a q : ℕ) → q ≢ a → IsBlock s q → IsBlock (remove_block s a) q
unfolding remove_block
remove_block-IsBlock s a q ne b =
    let k = unlink_header-header s.header a q ne in
    record {
      is_active = ground (arith, k, b.is_active);
      address_is = ground (arith, k, b.address_is);
      min_set = b.min_set;
      above_min = b.above_min;
      below_max = ground (arith, k, b.below_max);
      no_wrap = ground (arith, k, b.no_wrap);
    }

remove_block-blocks :
    (s : State) (a : ℕ) (l : List ℕ)
    → All (Differs a) l
    → All (IsBlock s) l
    → All (IsBlock (remove_block s a)) l
remove_block-blocks s a [] d b = tt
remove_block-blocks s a (q ∷ l) d b =
    (remove_block-IsBlock s a q d.0 b.0, remove_block-blocks s a l d.1 b.1)

Distinct-remove :
    (xs : List ℕ) (a : ℕ) (ys : List ℕ)
    → Distinct (xs ++ a ∷ ys)
    → Distinct (xs ++ ys) × All (Differs a) (xs ++ ys)
Distinct-remove [] a ys d = (d.1, d.0)
Distinct-remove (x ∷ xs) a ys d =
    let rest = Distinct-remove xs a ys d.1 in
    (
      (All-remove (Differs x) xs a ys d.0, rest.0),
      ((λ e. (All-middle (Differs x) xs a ys d.0).0 (sym e)), rest.1),
    )

unlink_header-total_size :
    (h : ℕ → Metadata) (a : ℕ) (l : List ℕ)
    → All (Differs a) l
    → total_size (unlink_header h a) l ≡ total_size h l
unlink_header-total_size h a [] d = refl
unlink_header-total_size h a (q ∷ l) d =
    omega (arith, (unlink_header-header h a q d.0).0, unlink_header-total_size h a l d.1)

total_size-middle :
    (h : ℕ → Metadata) (xs : List ℕ) (a : ℕ) (ys : List ℕ)
    → total_size h (xs ++ a ∷ ys) ≡ (h a).block_size + total_size h (xs ++ ys)
total_size-middle h [] a ys = refl
total_size-middle h (x ∷ xs) a ys = omega (arith, total_size-middle h xs a ys)

-- The new `metadata_link` is the pointer to the list without `a`.
after_unlink-link :
    (h : ℕ → Metadata) (p : ℕ) (xs : List ℕ) (a : ℕ) (ys : List ℕ)
    → All (Differs 0) (xs ++ a ∷ ys)
    → IsLinked h 0 p (xs ++ a ∷ ys)
    → after_unlink h p xs a ≡ (if not ((h a).prev_ptr == 0) then p else (h a).next_ptr)
after_unlink-link h p [] a ys z l = ground (arith, l.2)
after_unlink-link h p (x ∷ xs) a ys z l = ground (
  arith,
  (middle-IsLinked h 0 p (x ∷ xs) a ys l).0,
  All-last_of (Differs 0) x xs (a ∷ ys) z.0 z.1,
)

pub remove_block-IsValid :
    (s : State) (xs : List ℕ) (a : ℕ) (ys : List ℕ)
    → IsValid s (xs ++ a ∷ ys)
    → IsValid (remove_block s a) (xs ++ ys)
unfolding remove_block
remove_block-IsValid s xs a ys v =
    let (d, others) = Distinct-remove xs a ys v.distinct.1 in
    let b = middle-IsBlock s xs a ys v.blocks in
    record {
      linked =
          rw (after_unlink-link s.header s.metadata_link xs a ys v.distinct.0 v.linked) at
            (unlink-IsLinked s.header 0 s.metadata_link xs a ys v.distinct v.linked);
      distinct = (All-remove (Differs 0) xs a ys v.distinct.0, d);
      blocks = remove_block-blocks s a (xs ++ ys) others (All-remove (IsBlock s) xs a ys v.blocks);
      count = omega (arith, v.count, length-append xs (a ∷ ys), length-append xs ys);
      size = omega (
        arith,
        v.size,
        b.no_wrap,
        total_size-middle s.header xs a ys,
        unlink_header-total_size s.header a (xs ++ ys) others,
      );
    }

-- `m61_free` of an active block reports a wild write if the buffers behind it were overwritten.
-- Otherwise it takes out exactly that block, and the others keep the invariant.
pub m61_free-IsValid :
    (fuel : ℕ) (s : State) (xs : List ℕ) (a : ℕ) (ys : List ℕ)
    → IsValid s (xs ++ a ∷ ys)
    → (m61_free fuel s (payload a) ≡ (
        if guard_fails s (payload a) (s.header a).block_size
        then abort wild_write
        else done (remove_block s a)))
      × IsValid (remove_block s a) (xs ++ ys)
unfolding m61_free
m61_free-IsValid fuel s xs a ys v =
    let b = middle-IsBlock s xs a ys v.blocks in
    let back = header_of-payload a (omega (arith, b.no_wrap)) in
    let t0 : (payload a == 0) ≡ false = ground (arith, b.no_wrap) in
    let t1 : (leb s.heap_min a && leb a s.heap_max) ≡ true =
      ground (arith, b.above_min, b.below_max) in
    let t2 : ((s.header a).active == 1) ≡ false = ground (arith, b.is_active) in
    let t3 : ((s.header a).address == payload a) ≡ true = ground (arith, b.address_is) in
    let t4 = links_fail-IsLinked s.header s.metadata_link xs a ys v.linked in
    (rw (back, t0, t1, t2, t3, t4), remove_block-IsValid s xs a ys v)
