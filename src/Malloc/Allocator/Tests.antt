-- ===== src/Malloc/Allocator/Tests.antt =====
-- Runs of the allocator, and its theorems at them: one block of 24 bytes at 4096, allocated at
-- line 3 of the file named by 7, and a second one of 8 bytes at 8192.
use cs61_f16_psets_team_md.Base.{
  ℕ, ◌+◌, ◌*◌, ◌^◌, ◌<◌, ◌≤◌, ◌≡◌, ◌⊎◌, inr, refl, arith, false, if◌then◌else◌, [], ◌∷◌, min,
}
use cs61_f16_psets_team_md.Malloc.Block.{Metadata}
use cs61_f16_psets_team_md.Malloc.Allocator.{
  State, guard_fails, remove_block, add_block, m61_malloc, m61_free, done, abort, wild_write,
  not_in_heap, m61_realloc, m61_calloc,
}
use cs61_f16_psets_team_md.Malloc.Allocator.Valid.{IsValid, m61_malloc-IsValid, m61_free-IsValid}
use cs61_f16_psets_team_md.Malloc.Allocator.Errors.{m61_free-outside}
use cs61_f16_psets_team_md.Malloc.Allocator.Realloc.{
  m61_realloc-failure, m61_realloc-success, m61_calloc-wraps,
}

abbrev blank : Metadata
blank = record {
  block_size = 0;
  active = 0;
  address = 0;
  file = 0;
  line = 0;
  prev_ptr = 0;
  next_ptr = 0;
}

abbrev start : State
start = record {
  counters = record {
    nactive = 0;
    active_size = 0;
    ntotal = 0;
    total_size = 0;
    nfail = 0;
    fail_size = 0;
  };
  heap_min = 0;
  heap_max = 0;
  metadata_link = 0;
  sampled = record { hitters = blank ∷ blank ∷ blank ∷ []; hitters_size = 0; sample_size = 0 };
  header = λ p. blank;
  guard = λ p. record { buffer1 = 0; buffer2 = 0 };
}

abbrev one : State
one = (m61_malloc start 4096 24 7 3).0

start-IsValid : IsValid start []
start-IsValid = omega arith

m61_malloc-IsValid_example : ((m61_malloc start 4096 24 7 3).1 ≡ 4152) × IsValid one (4096 ∷ [])
m61_malloc-IsValid_example =
    m61_malloc-IsValid start 4096 24 7 3 [] start-IsValid (omega arith) refl

abbrev one-IsValid : IsValid one (4096 ∷ [])
one-IsValid = m61_malloc-IsValid_example.1

one_intact : guard_fails one 4152 (one.header 4096).block_size ≡ false
unfolding m61_malloc add_block
one_intact = refl

m61_free-IsValid_example :
    (m61_free 3 one 4152 ≡ (
      if guard_fails one 4152 (one.header 4096).block_size
      then abort wild_write
      else done (remove_block one 4096)))
    × IsValid (remove_block one 4096) []
m61_free-IsValid_example = m61_free-IsValid 3 one [] 4096 [] one-IsValid

one_freed : m61_free 3 one 4152 ≡ done (remove_block one 4096)
one_freed = rw one_intact at m61_free-IsValid_example.0

m61_free-outside_example : m61_free 3 start 80 ≡ abort not_in_heap
m61_free-outside_example = m61_free-outside 3 start 80 (omega arith) (inr (omega arith))

m61_realloc-failure_example :
    (m61_realloc 3 one (λ q. q) 0 4152 100 7 9).new_ptr ≡ 0
    × ((s' : State) × ((m61_realloc 3 one (λ q. q) 0 4152 100 7 9).after ≡ done s') × IsValid s' [])
m61_realloc-failure_example =
    m61_realloc-failure 3 one (λ q. q) [] 4096 [] 100 7 9 one-IsValid one_intact

m61_realloc-success_example :
    let r = m61_realloc 3 one (λ q. q) 8192 4152 8 7 9 in
    (r.new_ptr ≡ 8248)
    × ((i : ℕ) → i < min (one.header 4096).block_size 8 → r.bytes (8248 + i) ≡ 4152 + i)
    × ((q : ℕ) → (q < 8248) ⊎ (8248 + min (one.header 4096).block_size 8 ≤ q) → r.bytes q ≡ q)
    × ((s' : State) × (r.after ≡ done s') × IsValid s' (8192 ∷ []))
unfolding m61_malloc add_block
m61_realloc-success_example =
    m61_realloc-success 3 one (λ q. q) [] 4096 [] 8192 8 7 9 one-IsValid (omega arith) (omega arith)
      one_intact (omega arith) refl

m61_calloc-wraps_example :
    let n = 2 ^ 32 + 1 in
    let r = m61_calloc start 4096 n n 7 9 in (r.1 ≡ 4152) × (r.2 < n * n) × IsValid r.0 (4096 ∷ [])
m61_calloc-wraps_example =
    m61_calloc-wraps start 4096 1 7 9 [] start-IsValid (omega arith) (omega arith) (omega arith)
