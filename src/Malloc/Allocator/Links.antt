-- ===== src/Malloc/Allocator/Links.antt =====
-- The doubly linked list of the active blocks: `link_front` puts a block in front, and
-- `unlink_header` takes any block out.
use cs61_f16_psets_team_md.Base.{
  ℕ, ◌≡◌, ◌≢◌, refl, sym, arith, false, List, [], ◌∷◌, ◌++◌, ◌==◌, if◌then◌else◌, All,
}
use cs61_f16_psets_team_md.Malloc.Block.{Metadata}
use cs61_f16_psets_team_md.Malloc.Allocator.{link_front, unlink_header, links_fail}

-- From `p` on the links visit `blocks` in order, and lead back, the first one to `prev`.
abbrev pub IsLinked : (ℕ → Metadata) → ℕ → ℕ → List ℕ → Type 0
IsLinked h prev p [] = p ≡ 0
IsLinked h prev p (a ∷ bs) =
    (p ≡ a) × (a ≢ 0) × ((h a).prev_ptr ≡ prev) × IsLinked h a (h a).next_ptr bs

abbrev pub Differs : ℕ → ℕ → Type 0
Differs a b = b ≢ a

abbrev pub Distinct : List ℕ → Type 0
Distinct [] = Unit
Distinct (a ∷ bs) = All (Differs a) bs × Distinct bs

abbrev pub first_of : List ℕ → ℕ
first_of [] = 0
first_of (a ∷ bs) = a

abbrev pub last_of : ℕ → List ℕ → ℕ
last_of prev [] = prev
last_of prev (a ∷ bs) = last_of a bs

pub All-middle :
    (P : ℕ → Type 0) (xs : List ℕ) (a : ℕ) (ys : List ℕ) → All P (xs ++ a ∷ ys) → P a × All P ys
All-middle P [] a ys h = h
All-middle P (x ∷ xs) a ys h = All-middle P xs a ys h.1

pub All-last_of :
    (P : ℕ → Type 0) (x : ℕ) (xs ys : List ℕ) → P x → All P (xs ++ ys) → P (last_of x xs)
All-last_of P x [] ys h k = h
All-last_of P x (y ∷ xs) ys h k = All-last_of P y xs ys k.0 k.1

-- Only the headers of the list matter.
pub IsLinked-frame :
    (h h' : ℕ → Metadata) (prev p : ℕ) (bs : List ℕ)
    → All (λ a. h' a ≡ h a) bs
    → IsLinked h prev p bs
    → IsLinked h' prev p bs
IsLinked-frame h h' prev p [] f l = l
IsLinked-frame h h' prev p (a ∷ bs) f l =
    (l.0, l.1, rw f.0 l.2, rw f.0 (IsLinked-frame h h' a (h a).next_ptr bs f.1 l.3))

pub first_of-IsLinked :
    (h : ℕ → Metadata) (prev p : ℕ) (bs : List ℕ) → IsLinked h prev p bs → p ≡ first_of bs
first_of-IsLinked h prev p [] l = l
first_of-IsLinked h prev p (a ∷ bs) l = l.0

-- The two links of a block in the middle.
pub middle-IsLinked :
    (h : ℕ → Metadata) (prev p : ℕ) (xs : List ℕ) (a : ℕ) (ys : List ℕ)
    → IsLinked h prev p (xs ++ a ∷ ys)
    → ((h a).prev_ptr ≡ last_of prev xs) × ((h a).next_ptr ≡ first_of ys)
middle-IsLinked h prev p [] a ys l = (l.2, first_of-IsLinked h a (h a).next_ptr ys l.3)
middle-IsLinked h prev p (x ∷ xs) a ys l = middle-IsLinked h x (h x).next_ptr xs a ys l.3

first_of-ne : (x : ℕ) (ys : List ℕ) → x ≢ 0 → All (Differs x) ys → x ≢ first_of ys
first_of-ne x [] h d = h
first_of-ne x (y ∷ ys) h d = λ e. d.0 (sym e)

-- Where `unlink_header` writes, for the block at `a` between `prev_ptr` and `next_ptr`.
unlink_header-other :
    (h : ℕ → Metadata) (a q : ℕ)
    → q ≢ a
    → q ≢ (h a).prev_ptr
    → q ≢ (h a).next_ptr
    → unlink_header h a q ≡ h q
unlink_header-other h a q ne prev next = ground arith

unlink_header-prev :
    (h : ℕ → Metadata) (a l : ℕ)
    → (h a).prev_ptr ≡ l
    → l ≢ 0
    → l ≢ a
    → l ≢ (h a).next_ptr
    → unlink_header h a l ≡ record (h l) { next_ptr = (h a).next_ptr }
unlink_header-prev h a l e zero ne next = ground arith

unlink_header-next :
    (h : ℕ → Metadata) (a n : ℕ)
    → (h a).next_ptr ≡ n
    → n ≢ 0
    → n ≢ a
    → n ≢ (h a).prev_ptr
    → unlink_header h a n ≡ record (h n) { prev_ptr = (h a).prev_ptr }
unlink_header-next h a n e zero ne prev = ground arith

unlink_header-others :
    (h : ℕ → Metadata) (a : ℕ) (bs : List ℕ)
    → All (Differs a) bs
    → All (Differs (h a).prev_ptr) bs
    → All (Differs (h a).next_ptr) bs
    → All (λ q. unlink_header h a q ≡ h q) bs
unlink_header-others h a [] d e f = tt
unlink_header-others h a (q ∷ bs) d e f =
    (unlink_header-other h a q d.0 e.0 f.0, unlink_header-others h a bs d.1 e.1 f.1)

unlink-IsLinked_first :
    (h : ℕ → Metadata) (prev a : ℕ) (ys : List ℕ)
    → Distinct (prev ∷ a ∷ ys)
    → (h a).prev_ptr ≡ prev
    → IsLinked h a (h a).next_ptr ys
    → IsLinked (unlink_header h a) prev (h a).next_ptr ys
unlink-IsLinked_first h prev a [] d e l = l
unlink-IsLinked_first h prev a (b ∷ ys) d e l =
    let u = unlink_header h a in
    let moved : u b ≡ record (h b) { prev_ptr = (h a).prev_ptr } =
      unlink_header-next h a b l.0 l.1 d.1.0.0 (rw e d.0.1.0) in
    let rest = unlink_header-others h a ys d.1.0.1 (rw e d.0.1.1) (rw l.0 d.1.1.0) in
    (l.0, l.1, rw moved e, rw moved (IsLinked-frame h u b (h b).next_ptr ys rest l.3))

-- The pointer to the list once `a` behind `xs` is gone.
abbrev pub after_unlink : (ℕ → Metadata) → ℕ → List ℕ → ℕ → ℕ
after_unlink h p [] a = (h a).next_ptr
after_unlink h p (x ∷ xs) a = p

-- A block that is linked can be taken out: the others stay linked, in their order.
pub unlink-IsLinked :
    (h : ℕ → Metadata) (prev p : ℕ) (xs : List ℕ) (a : ℕ) (ys : List ℕ)
    → Distinct (prev ∷ (xs ++ a ∷ ys))
    → IsLinked h prev p (xs ++ a ∷ ys)
    → IsLinked (unlink_header h a) prev (after_unlink h p xs a) (xs ++ ys)
unlink-IsLinked h prev p [] a ys d l = unlink-IsLinked_first h prev a ys d l.2 l.3
unlink-IsLinked h prev p (x ∷ []) a ys d l =
    let u = unlink_header h a in
    let next = first_of-IsLinked h a (h a).next_ptr ys l.3.3 in
    let moved : u x ≡ record (h x) { next_ptr = (h a).next_ptr } =
      unlink_header-prev h a x l.3.2 l.1 (omega (arith, d.1.0.0))
        (omega (arith, next, first_of-ne x ys l.1 d.1.0.1)) in
    (l.0, l.1, rw moved l.2, rw moved (unlink-IsLinked_first h x a ys d.1 l.3.2 l.3.3))
unlink-IsLinked h prev p (x ∷ y ∷ xs) a ys d l =
    let u = unlink_header h a in
    let m = middle-IsLinked h prev p (x ∷ y ∷ xs) a ys l in
    let behind = All-middle (Differs x) (y ∷ xs) a ys d.1.0 in
    let before = All-last_of (Differs x) y xs (a ∷ ys) d.1.0.0 d.1.0.1 in
    let same : u x ≡ h x =
      unlink_header-other h a x (omega (arith, behind.0)) (omega (arith, m.0, before))
        (omega (arith, m.1, first_of-ne x ys l.1 behind.1)) in
    (l.0, l.1, rw same l.2, rw same (unlink-IsLinked h x (h x).next_ptr (y ∷ xs) a ys d.1 l.3))

next-back :
    (h : ℕ → Metadata) (prev p : ℕ) (xs : List ℕ) (a : ℕ) (ys : List ℕ)
    → IsLinked h prev p (xs ++ a ∷ ys)
    → (h a).next_ptr ≢ 0
    → (h (h a).next_ptr).prev_ptr ≡ a
next-back h prev p [] a [] l ne = absurd (ne l.3)
next-back h prev p [] a (b ∷ ys) l ne = rw l.3.0 l.3.2
next-back h prev p (x ∷ xs) a ys l ne = next-back h x (h x).next_ptr xs a ys l.3 ne

prev-back :
    (h : ℕ → Metadata) (prev p x : ℕ) (xs : List ℕ) (a : ℕ) (ys : List ℕ)
    → IsLinked h prev p (x ∷ xs ++ a ∷ ys)
    → (h (h a).prev_ptr).next_ptr ≡ a
prev-back h prev p x [] a ys l = rw l.3.2 l.3.0
prev-back h prev p x (y ∷ xs) a ys l = prev-back h x (h x).next_ptr y xs a ys l.3

-- The checks of `m61_free` pass on every block of the list.
pub links_fail-IsLinked :
    (h : ℕ → Metadata) (p : ℕ) (xs : List ℕ) (a : ℕ) (ys : List ℕ)
    → IsLinked h 0 p (xs ++ a ∷ ys)
    → links_fail h a ≡ false
links_fail-IsLinked h p [] a ys l =
    let front = middle-IsLinked h 0 p [] a ys l in
    ground (arith, next-back h 0 p [] a ys l, front.0)
links_fail-IsLinked h p (x ∷ xs) a ys l =
    ground (arith, next-back h 0 p (x ∷ xs) a ys l, prev-back h 0 p x xs a ys l)

link_front-others :
    (h : ℕ → Metadata) (first p : ℕ) (m : Metadata) (bs : List ℕ)
    → All (Differs p) bs
    → All (Differs first) bs
    → All (λ q. link_front h first p m q ≡ h q) bs
link_front-others h first p m [] d e = tt
link_front-others h first p m (q ∷ bs) d e =
    (ground (arith, d.0, e.0), link_front-others h first p m bs d.1 e.1)

-- A new block goes in front.
pub link_front-IsLinked :
    (h : ℕ → Metadata) (first p : ℕ) (m : Metadata) (bs : List ℕ)
    → p ≢ 0
    → m.prev_ptr ≡ 0
    → m.next_ptr ≡ 0
    → Distinct (p ∷ bs)
    → IsLinked h 0 first bs
    → IsLinked (link_front h first p m) 0 p (p ∷ bs)
link_front-IsLinked h first p m [] ne prev next d l =
    (refl, ne, ground (arith, l, prev), ground (arith, l, next))
link_front-IsLinked h first p m (b ∷ bs) ne prev next d l =
    let u = link_front h first p m in
    let moved : u b ≡ record (h b) { prev_ptr = p } = ground (arith, l.0, l.1, d.0.0) in
    let rest = link_front-others h first p m bs d.0.1 (rw l.0 d.1.0) in
    (
      refl,
      ne,
      ground (arith, l.0, l.1, d.0.0, prev),
      (
        ground (arith, l.0, l.1, d.0.0),
        l.1,
        rw moved refl,
        rw moved (IsLinked-frame h u b (h b).next_ptr bs rest l.3),
      ),
    )

pub link_front-header :
    (h : ℕ → Metadata) (first p : ℕ) (m : Metadata) (q : ℕ)
    → p ≢ first
    → let n = link_front h first p m q in
      let o = if p == q then m else h q in
      (n.block_size ≡ o.block_size)
      × (n.active ≡ o.active)
      × (n.address ≡ o.address)
      × (n.file ≡ o.file)
      × (n.line ≡ o.line)
link_front-header h first p m q ne = ground arith

pub unlink_header-header :
    (h : ℕ → Metadata) (a q : ℕ)
    → q ≢ a
    → let n = unlink_header h a q in
      (n.block_size ≡ (h q).block_size)
      × (n.active ≡ (h q).active)
      × (n.address ≡ (h q).address)
      × (n.file ≡ (h q).file)
      × (n.line ≡ (h q).line)
unlink_header-header h a q ne = ground arith
