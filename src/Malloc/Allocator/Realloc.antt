-- ===== src/Malloc/Allocator/Realloc.antt =====
-- `m61_realloc` and `m61_calloc` of pset1/m61.c.
use cs61_f16_psets_team_md.Base.{
  ℕ, ◌+◌, ◌*◌, ◌%◌, ◌^◌, ◌≤◌, ◌<◌, ◌≡◌, ◌≢◌, ◌⊎◌, inl, inr, refl, sym, ap, zero, suc, tests, min,
  ◌∙◌, arith, false, not, ◌||◌, ◌&&◌, List, [], ◌∷◌, ◌++◌, ◌==◌, ltb, if◌then◌else◌, All,
  Bool-cases,
}
use cs61_f16_psets_team_md.Malloc.Block.{word_mod}
use cs61_f16_psets_team_md.Malloc.Allocator.{
  State, Counters, payload, too_large, new_metadata, link_front, add_block, count_failure,
  guard_fails, remove_block, m61_free, done, m61_realloc, m61_calloc, copy_size, copy_bytes,
}
use cs61_f16_psets_team_md.Malloc.Allocator.Links.{Differs, All-middle, link_front-header}
use cs61_f16_psets_team_md.Malloc.Allocator.Valid.{
  IsBlock, IsValid, IsFresh, middle-IsBlock, header_of-payload, add_block-IsValid, fresh-ne-link,
  m61_free-IsValid,
}

blocks-counters :
    (s : State) (c : Counters) (bs : List ℕ)
    → All (IsBlock s) bs
    → All (IsBlock (record s { counters = c })) bs
blocks-counters s c [] b = tt
blocks-counters s c (a ∷ bs) b = (
  record {
    is_active = b.0.is_active;
    address_is = b.0.address_is;
    min_set = b.0.min_set;
    above_min = b.0.above_min;
    below_max = b.0.below_max;
    no_wrap = b.0.no_wrap;
  },
  blocks-counters s c bs b.1,
)

count_failure-IsValid :
    (s : State) (sz : ℕ) (bs : List ℕ)
    → IsValid s bs
    → IsValid (record s { counters = count_failure s.counters sz }) bs
count_failure-IsValid s sz bs v = record {
  linked = v.linked;
  distinct = v.distinct;
  blocks = blocks-counters s (count_failure s.counters sz) bs v.blocks;
  count = v.count;
  size = v.size;
}

-- Where the base allocator refuses the new block, `m61_realloc` of an active block with intact
-- buffers returns NULL and frees the old block all the same, so that its data is lost.
pub m61_realloc-failure :
    (fuel : ℕ) (s : State) (bytes : ℕ → ℕ) (xs : List ℕ) (a : ℕ) (ys : List ℕ) (sz file line : ℕ)
    → IsValid s (xs ++ a ∷ ys)
    → guard_fails s (payload a) (s.header a).block_size ≡ false
    → (m61_realloc fuel s bytes 0 (payload a) sz file line).new_ptr ≡ 0
      × ((s' : State) × ((m61_realloc fuel s bytes 0 (payload a) sz file line).after ≡ done s')
          × IsValid s' (xs ++ ys))
unfolding m61_realloc
m61_realloc-failure fuel s bytes xs a ys sz file line v g = elim (Bool-cases (sz == 0)) [
  | inl e ↦
      let r = m61_free-IsValid fuel s xs a ys v in rw e (refl, (remove_block s a, rw g at r.0, r.1))
  | inr e ↦ rw e (elim (Bool-cases (too_large sz)) [
    | inl f ↦ rw f (refl, (remove_block s' a, refused.0, refused.1))
    | inr f ↦ rw f (refl, (remove_block s' a, refused.0, refused.1))
  ])
]
  where
    s' : State
    s' = record s { counters = count_failure s.counters sz }

    refused :
        (m61_free fuel s' (payload a) ≡ done (remove_block s' a))
        × IsValid (remove_block s' a) (xs ++ ys)
    refused =
        let r = m61_free-IsValid fuel s' xs a ys (count_failure-IsValid s sz (xs ++ a ∷ ys) v) in
        (rw g at r.0, r.1)

-- The old block, once the new one at `p` is there.
record OldBlock (s s' : State) (a : ℕ) : Type 0 where
  same_size : (s'.header a).block_size ≡ (s.header a).block_size
  same_guard :
      guard_fails s' (payload a) (s'.header a).block_size
      ≡ guard_fails s (payload a) (s.header a).block_size

add_block-OldBlock :
    (s : State) (a p sz file line : ℕ)
    → p ≢ s.metadata_link
    → p ≢ a
    → payload p + sz ≢ payload a + (s.header a).block_size
    → OldBlock s (add_block s p sz file line) a
unfolding add_block
add_block-OldBlock s a p sz file line ne np apart =
    let k = link_front-header s.header s.metadata_link p (new_metadata p sz file line) a ne in
    let pa : (p == a) ≡ false = ground (arith, np) in
    let same : (link_front s.header s.metadata_link p (new_metadata p sz file line) a).block_size
        ≡ (s.header a).block_size =
      rw pa at (k.0) in
    let g : (payload p + sz == payload a + (s.header a).block_size) ≡ false =
      ground (arith, apart) in
    record { same_size = same; same_guard = rw (same, g) }

copied_lem :
    (s : State) (a p sz size : ℕ)
    → a + 56 < word_mod
    → p + 56 < word_mod
    → (s.header a).block_size ≡ size
    → (if not (payload a == 0) && not (payload p == 0) then copy_size s (payload a) sz else 0)
      ≡ min size sz
copied_lem s a p sz size ha hp e =
    let back = header_of-payload a (omega (arith, ha)) in
    let a0 : (payload a == 0) ≡ false = ground (arith, ha) in
    let p0 : (payload p == 0) ≡ false = ground (arith, hp) in rw (a0, p0, back, e) (ground arith)

copy_bytes-outside :
    (n : ℕ) (bytes : ℕ → ℕ) (to from q : ℕ)
    → (q < to) ⊎ (to + n ≤ q)
    → copy_bytes n bytes to from q ≡ bytes q
unfolding copy_bytes
copy_bytes-outside zero bytes to from q out = refl
copy_bytes-outside (suc n) bytes to from q (inl lt) =
    let other : (q == to + n) ≡ false = grind (tests, lt) in
    rw other (copy_bytes-outside n bytes to from q (inl lt))
copy_bytes-outside (suc n) bytes to from q (inr le) =
    let other : (q == to + n) ≡ false = grind (tests, le) in
    rw other (copy_bytes-outside n bytes to from q (inr (omega (arith, le))))

copy_bytes-inside :
    (n : ℕ) (bytes : ℕ → ℕ) (to from i : ℕ)
    → i < n
    → copy_bytes n bytes to from (to + i) ≡ bytes (from + i)
unfolding copy_bytes
copy_bytes-inside zero bytes to from i lt = absurd (omega (arith, lt))
copy_bytes-inside (suc n) bytes to from i lt = elim (Bool-cases (to + i == to + n)) [
  | inl e ↦ let same : n ≡ i = grind (tests, e) in rw e (ap (λ j. bytes (from + j)) same)
  | inr e ↦ rw e (copy_bytes-inside n bytes to from i (grind (tests, lt, e)))
]

-- Reallocating an active block to a size that is granted returns the new block with the first bytes
-- of the old one, as many as the smaller of the two sizes, changes no other payload, and frees the
-- old block: the new one stands in its place among the active ones. The buffers of the old block
-- are intact, and those of the new block are not at the same address.
pub m61_realloc-success :
    (fuel : ℕ) (s : State) (bytes : ℕ → ℕ) (xs : List ℕ) (a : ℕ) (ys : List ℕ) (p sz file line : ℕ)
    → IsValid s (xs ++ a ∷ ys)
    → IsFresh p sz (xs ++ a ∷ ys)
    → payload p + sz ≢ payload a + (s.header a).block_size
    → guard_fails s (payload a) (s.header a).block_size ≡ false
    → sz ≢ 0
    → too_large sz ≡ false
    → let r = m61_realloc fuel s bytes p (payload a) sz file line in
      (r.new_ptr ≡ payload p)
      × ((i : ℕ)
          → i < min (s.header a).block_size sz
          → r.bytes (payload p + i) ≡ bytes (payload a + i))
      × ((q : ℕ)
          → (q < payload p) ⊎ (payload p + min (s.header a).block_size sz ≤ q)
          → r.bytes q ≡ bytes q)
      × ((s' : State) × (r.after ≡ done s') × IsValid s' (p ∷ (xs ++ ys)))
unfolding m61_realloc
m61_realloc-success fuel s bytes xs a ys p sz file line v f apart g nz small =
    let s' = add_block s p sz file line in
    let v' = add_block-IsValid s p sz file line (xs ++ a ∷ ys) v f in
    let b = middle-IsBlock s xs a ys v.blocks in
    let np = (All-middle (Differs p) xs a ys f.distinct).0 in
    let link = fresh-ne-link s p (xs ++ a ∷ ys) f.not_null f.distinct v.linked in
    let old = add_block-OldBlock s a p sz file line link (λ e. np (sym e)) apart in
    let freed = m61_free-IsValid fuel s' (p ∷ xs) a ys v' in
    let freed_ok = rw (old.same_guard ∙ g) at freed.0 in
    let z0 : (sz == 0) ≡ false = ground (arith, nz) in
    let p0 : (p == 0) ≡ false = ground (arith, f.not_null) in
    let copied =
      copied_lem s' a p sz _ (omega (arith, b.no_wrap)) (omega (arith, f.fits)) old.same_size in
    rw (z0, small, p0)
      (
        refl,
        λ i lt.
            ap (λ n. copy_bytes n bytes (payload p) (payload a) (payload p + i)) copied
            ∙ copy_bytes-inside (min (s.header a).block_size sz) bytes (payload p) (payload a) i lt,
        λ q out.
            ap (λ n. copy_bytes n bytes (payload p) (payload a) q) copied
            ∙ copy_bytes-outside (min (s.header a).block_size sz) bytes (payload p) (payload a) q
                out,
        (remove_block s' a, freed_ok, freed.1),
      )

calloc-granted :
    (s : State) (p nmemb sz file line total : ℕ) (bs : List ℕ)
    → IsValid s bs
    → IsFresh p total bs
    → (nmemb * sz) % word_mod ≡ total
    → (ltb total sz || ltb total nmemb) ≡ false
    → too_large total ≡ false
    → let r = m61_calloc s p nmemb sz file line in
      (r.1 ≡ payload p) × (r.2 ≡ total) × IsValid r.0 (p ∷ bs)
unfolding m61_calloc
calloc-granted s p nmemb sz file line total bs v f product enough small =
    let p0 : (p == 0) ≡ false = ground (arith, f.not_null) in
    let pay : (payload p == 0) ≡ false = ground (arith, f.fits) in
    rw (product, enough, small, p0)
      (refl, rw pay refl, add_block-IsValid s p total file line bs v f)

-- Where the product of the two sizes fits in a word and is granted, `m61_calloc` returns a block of
-- that many bytes and sets all of them to 0.
m61_calloc-exact :
    (s : State) (p nmemb sz file line : ℕ) (bs : List ℕ)
    → IsValid s bs
    → IsFresh p (nmemb * sz) bs
    → 0 < nmemb
    → 0 < sz
    → too_large (nmemb * sz) ≡ false
    → let r = m61_calloc s p nmemb sz file line in
      (r.1 ≡ payload p) × (r.2 ≡ nmemb * sz) × IsValid r.0 (p ∷ bs)
unfolding m61_calloc
m61_calloc-exact s p nmemb sz file line bs v f hn hs small =
    let n : nmemb ≤ nmemb * sz = grind (arith, hs) in
    let m : sz ≤ nmemb * sz = grind (arith, hn) in
    calloc-granted s p nmemb sz file line (nmemb * sz) bs v f (ground arith) (ground arith) small

-- The overflow test of `m61_calloc` misses products that wrap to a large value: asked for n objects
-- of n bytes with n = 2 ^ 32 + k, it returns a block of fewer bytes than were asked for.
pub m61_calloc-wraps :
    (s : State) (p k file line : ℕ) (bs : List ℕ)
    → IsValid s bs
    → 0 < k
    → k < 2 ^ 30
    → IsFresh p (2 ^ 33 * k + k * k) bs
    → let n = 2 ^ 32 + k in
      let r = m61_calloc s p n n file line in
      (r.1 ≡ payload p) × (r.2 < n * n) × IsValid r.0 (p ∷ bs)
unfolding m61_calloc
m61_calloc-wraps s p k file line bs v hk hb f =
    let square : k * k ≤ 2 ^ 30 * k = grind arith in
    let r =
      calloc-granted s p (2 ^ 32 + k) (2 ^ 32 + k) file line (2 ^ 33 * k + k * k) bs v f
        (omega arith) (ground arith) (ground arith) in
    (r.0, omega (arith, r.1), r.2)
