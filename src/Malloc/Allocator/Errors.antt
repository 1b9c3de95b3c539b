-- ===== src/Malloc/Allocator/Errors.antt =====
-- The branches of `m61_malloc` and `m61_free` that fail or abort, and the leak report.
use cs61_f16_psets_team_md.Base.{
  ℕ, zero, suc, ◌≤◌, ◌<◌, ◌≡◌, ◌≢◌, ◌⊎◌, refl, arith, true, false, ◌&&◌, List, [], ◌∷◌, map, ◌==◌,
  leb, length,
}
use cs61_f16_psets_team_md.Malloc.Block.{word_mod, add64, Metadata}
use cs61_f16_psets_team_md.Malloc.Allocator.{
  State, payload, header_of, request_size, too_large, walk, leak_report, m61_malloc, unlink_header,
  remove_block, m61_free, abort, double_free, not_in_heap, not_allocated, regions,
}
use cs61_f16_psets_team_md.Malloc.Allocator.Links.{IsLinked}
use cs61_f16_psets_team_md.Malloc.Allocator.Valid.{IsBlock, IsValid, header_of-payload}

-- A size that passes the test of `m61_malloc` can be asked for without overflow.
pub request_size-lt : (sz : ℕ) → too_large sz ≡ false → request_size sz < word_mod
request_size-lt sz h = ground arith

-- A request that is too large, or that the base allocator refuses, returns NULL, adds one to
-- `nfail` and the size to `fail_size`, and changes nothing else.
m61_malloc-failure :
    (s : State) (p sz file line : ℕ)
    → (too_large sz ≡ true) ⊎ (p ≡ 0)
    → m61_malloc s p sz file line ≡ (
      record s {
        counters = record s.counters {
          nfail = add64 s.counters.nfail 1;
          fail_size = add64 s.counters.fail_size sz;
        };
      },
      0,
    )
unfolding m61_malloc
m61_malloc-failure s p sz file line h = ground arith

walk-IsLinked :
    (bs : List ℕ) (fuel : ℕ) (h : ℕ → Metadata) (prev p : ℕ)
    → length bs ≤ fuel
    → IsLinked h prev p bs
    → walk fuel h p ≡ map h bs
unfolding walk
walk-IsLinked [] zero h prev p n l = refl
walk-IsLinked [] (suc fuel) h prev p n l = ground (arith, l)
walk-IsLinked (b ∷ bs) zero h prev p n l = absurd (omega arith)
walk-IsLinked (b ∷ bs) (suc fuel) h prev p n l =
    let rest = walk-IsLinked bs fuel h b (h b).next_ptr (omega arith) l.3 in
    ground (arith, l.0, l.1, rest)

-- The leak report lists every active block once, the latest first, with its metadata.
leak_report-IsValid :
    (fuel : ℕ) (s : State) (bs : List ℕ)
    → IsValid s bs
    → length bs ≤ fuel
    → leak_report fuel s ≡ map s.header bs
unfolding leak_report
leak_report-IsValid fuel s bs v n = walk-IsLinked bs fuel s.header 0 s.metadata_link n v.linked

m61_free-removed :
    (fuel : ℕ) (s : State) (a : ℕ)
    → IsBlock s a
    → m61_free fuel (remove_block s a) (payload a) ≡ abort double_free
unfolding m61_free
m61_free-removed fuel s a b =
    let back = header_of-payload a (omega (arith, b.no_wrap)) in
    let t0 : (payload a == 0) ≡ false = ground (arith, b.no_wrap) in
    let t1 : (leb s.heap_min a && leb a s.heap_max) ≡ true =
      ground (arith, b.above_min, b.below_max) in
    let t2 : (unlink_header s.header a a).active ≡ 1 = ground arith in rw (back, t0, t1, t2)

-- A pointer whose header would lie outside the bounds of the heap is reported as not in the heap.
pub m61_free-outside :
    (fuel : ℕ) (s : State) (ptr : ℕ)
    → ptr ≢ 0
    → (header_of ptr < s.heap_min) ⊎ (s.heap_max < header_of ptr)
    → m61_free fuel s ptr ≡ abort not_in_heap
unfolding m61_free
m61_free-outside fuel s ptr nz out =
    let t0 : (ptr == 0) ≡ false = ground (arith, nz) in
    let t1 : (leb s.heap_min (header_of ptr) && leb (header_of ptr) s.heap_max) ≡ false =
      ground (arith, out) in
    rw (t0, t1)

-- A pointer within the bounds that `m61_malloc` did not return is reported as not allocated,
-- with all active blocks that hold it.
m61_free-not_allocated :
    (fuel : ℕ) (s : State) (bs : List ℕ) (ptr : ℕ)
    → IsValid s bs
    → length bs ≤ fuel
    → ptr ≢ 0
    → s.heap_min ≤ header_of ptr
    → header_of ptr ≤ s.heap_max
    → (s.header (header_of ptr)).active ≢ 1
    → (s.header (header_of ptr)).address ≢ ptr
    → m61_free fuel s ptr ≡ abort (not_allocated (regions ptr (map s.header bs)))
unfolding m61_free
m61_free-not_allocated fuel s bs ptr v n nz lo hi act addr =
    let walked = walk-IsLinked bs fuel s.header 0 s.metadata_link n v.linked in
    let t0 : (ptr == 0) ≡ false = ground (arith, nz) in
    let t1 : (leb s.heap_min (header_of ptr) && leb (header_of ptr) s.heap_max) ≡ true =
      ground (arith, lo, hi) in
    let t2 : ((s.header (header_of ptr)).active == 1) ≡ false = ground (arith, act) in
    let t3 : ((s.header (header_of ptr)).address == ptr) ≡ false = ground (arith, addr) in
    rw (t0, t1, t2, t3, walked)
