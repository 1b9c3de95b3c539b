-- ===== src/Malloc/Allocator.antt =====
-- `m61_malloc`, `m61_free`, `m61_realloc`, `m61_calloc` and the reports of pset1/m61.c. The address
-- that the base allocator returns, 0 for a failure, is an argument of each call that allocates.
pub mod Links
pub mod Valid
pub mod Errors
pub mod Realloc
mod Tests
use cs61_f16_psets_team_md.Base.{
  ℕ, zero, suc, ◌+◌, ◌-◌, ◌*◌, ◌%◌, Bool, true, false, not, ◌&&◌, ◌||◌, List, [], ◌∷◌, ltb, leb,
  ◌==◌, if◌then◌else◌, Bytes, take, min,
}
use cs61_f16_psets_team_md.Malloc.Block.{
  word_mod, size_max, add64, sub64, Metadata, metadata_size, statistics_size, buffers_size, Buffers,
  intact, update,
}
use cs61_f16_psets_team_md.Malloc.HeavyHitters.{Sample, sample}

-- The counters of m61.c, a part of `struct m61_statistics`.
pub record Counters : Type 0 where
  pub nactive : ℕ
  pub active_size : ℕ
  pub ntotal : ℕ
  pub total_size : ℕ
  pub nfail : ℕ
  pub fail_size : ℕ

pub record State : Type 0 where
  pub counters : Counters
  pub heap_min : ℕ
  pub heap_max : ℕ
  pub metadata_link : ℕ
  pub sampled : Sample
  pub header : ℕ → Metadata
  pub guard : ℕ → Buffers

-- `ptr + 1` for a pointer to metadata: the payload, and back.
abbrev pub payload : ℕ → ℕ
payload p = add64 p metadata_size

abbrev pub header_of : ℕ → ℕ
header_of ptr = sub64 ptr metadata_size

-- The failure branch of `m61_malloc`.
abbrev pub count_failure : Counters → ℕ → Counters
count_failure c sz = record c { nfail = add64 c.nfail 1; fail_size = add64 c.fail_size sz }

abbrev pub count_success : Counters → ℕ → Counters
count_success c sz = record c {
  ntotal = add64 c.ntotal 1;
  nactive = add64 c.nactive 1;
  total_size = add64 c.total_size sz;
  active_size = add64 c.active_size sz;
}

-- The size that `m61_malloc` asks the base allocator for.
abbrev pub request_size : ℕ → ℕ
request_size sz = metadata_size + sz + buffers_size

abbrev pub too_large : ℕ → Bool
too_large sz = ltb (size_max - statistics_size - buffers_size) sz

abbrev pub block_end : ℕ → ℕ → ℕ
block_end p sz = p + sz + metadata_size + buffers_size

-- The metadata of a new block at `p`, before it is linked.
abbrev pub new_metadata : ℕ → ℕ → ℕ → ℕ → Metadata
new_metadata p sz file line = record {
  block_size = sz;
  active = 0;
  address = payload p;
  file = file;
  line = line;
  prev_ptr = 0;
  next_ptr = 0;
}

-- Links the block at `p`, whose metadata is `m`, in front of the list that begins at `first`.
abbrev pub link_front : (ℕ → Metadata) → ℕ → ℕ → Metadata → ℕ → Metadata
link_front h first p m =
    let h' = update h p m in
    if first == 0
    then h'
    else let h'' = update h' p (record m { next_ptr = first }) in
      update h'' first (record (h'' first) { prev_ptr = p })

-- The part of `m61_malloc` behind the allocation of `p`.
unfoldable pub add_block : State → ℕ → ℕ → ℕ → ℕ → State
unfolding sample
add_block s p sz file line =
    let m = new_metadata p sz file line in
    record {
      counters = count_success s.counters sz;
      heap_min = if s.heap_min == 0 || leb p s.heap_min then p else s.heap_min;
      heap_max =
          if s.heap_max == 0 || leb s.heap_max (block_end p sz) then block_end p sz else s.heap_max;
      metadata_link = p;
      sampled = sample s.sampled m;
      header = link_front s.header s.metadata_link p m;
      guard = update s.guard (payload p + sz) intact;
    }

-- The second result is the pointer returned.
unfoldable pub m61_malloc : State → ℕ → ℕ → ℕ → ℕ → State × ℕ
m61_malloc s p sz file line =
    if too_large sz || p == 0
    then (record s { counters = count_failure s.counters sz }, 0)
    else (add_block s p sz file line, payload p)

-- The messages with which `m61_free` aborts. `not_allocated` carries the blocks that it reports.
pub data MemoryBug : Type 0 where
  not_in_heap : MemoryBug
  not_allocated : List Metadata → MemoryBug
  bad_links : MemoryBug
  wild_write : MemoryBug
  double_free : MemoryBug

pub data Freed : Type 0 where
  done : State → Freed
  abort : MemoryBug → Freed

-- The loop `for (metadata = metadata_link; metadata; metadata = metadata->next_ptr)`, as the list
-- of the metadata that it visits. `fuel` bounds its rounds.
unfoldable pub walk : ℕ → (ℕ → Metadata) → ℕ → List Metadata
walk zero h p = []
walk (suc fuel) h p = let rest = walk fuel h (h p).next_ptr in if p == 0 then [] else h p ∷ rest

-- The test of the message "is N bytes inside a region".
abbrev pub inside : ℕ → Metadata → Bool
inside ptr m = leb (header_of m.address) ptr && leb ptr (m.address + m.block_size + buffers_size)

unfoldable pub regions : ℕ → List Metadata → List Metadata
regions ptr [] = []
regions ptr (m ∷ ms) = if inside ptr m then m ∷ regions ptr ms else regions ptr ms

-- The checks of the links of the block at `p` before it is freed. The third branch of the source
-- asks for both links and stands where neither is set.
abbrev pub links_fail : (ℕ → Metadata) → ℕ → Bool
links_fail h p =
    let m = h p in
    if not (m.next_ptr == 0)
    then not ((h m.next_ptr).prev_ptr == p)
    else if not (m.prev_ptr == 0)
    then not ((h m.prev_ptr).next_ptr == p)
    else false

abbrev pub guard_fails : State → ℕ → ℕ → Bool
guard_fails s ptr size =
    let b = s.guard (ptr + size) in not (b.buffer1 == 1234) || not (b.buffer2 == 4321)

-- Takes the block at `p` out of the list, and clears its links.
abbrev pub unlink_header : (ℕ → Metadata) → ℕ → ℕ → Metadata
unlink_header h p =
    let m = h p in
    let h1 =
      if not (m.prev_ptr == 0)
      then update h m.prev_ptr (record (h m.prev_ptr) { next_ptr = m.next_ptr })
      else h in
    let h2 =
      if not (m.next_ptr == 0)
      then update h1 m.next_ptr (record (h1 m.next_ptr) { prev_ptr = m.prev_ptr })
      else h1 in
    update h2 p (record (h2 p) { prev_ptr = 0; next_ptr = 0; active = 1 })

unfoldable pub remove_block : State → ℕ → State
remove_block s p =
    let m = s.header p in
    record s {
      counters = record s.counters {
        nactive = sub64 s.counters.nactive 1;
        active_size = sub64 s.counters.active_size m.block_size;
      };
      metadata_link = if not (m.prev_ptr == 0) then s.metadata_link else m.next_ptr;
      header = unlink_header s.header p;
    }

-- `fuel` bounds the walk that only the message of `not_allocated` makes.
unfoldable pub m61_free : ℕ → State → ℕ → Freed
unfolding regions walk remove_block
m61_free fuel s ptr =
    let p = header_of ptr in
    let m = s.header p in
    if ptr == 0
    then done s
    else if not (leb s.heap_min p && leb p s.heap_max)
    then abort not_in_heap
    else if m.active == 1
    then abort double_free
    else if not (m.address == ptr)
    then abort (not_allocated (regions ptr (walk fuel s.header s.metadata_link)))
    else if links_fail s.header p
    then abort bad_links
    else if guard_fails s ptr m.block_size
    then abort wild_write
    else done (remove_block s p)

-- How many bytes `m61_realloc` copies from the old block.
abbrev pub copy_size : State → ℕ → ℕ → ℕ
copy_size s ptr sz =
    let asize = (s.header (header_of ptr)).block_size in if leb asize sz then asize else sz

-- memcpy(to, from, n), byte by byte, of areas that do not overlap.
unfoldable pub copy_bytes : ℕ → (ℕ → ℕ) → ℕ → ℕ → ℕ → ℕ
copy_bytes zero bytes to from a = bytes a
copy_bytes (suc n) bytes to from a =
    let rest = copy_bytes n bytes to from a in if a == to + n then bytes (from + n) else rest

-- `bytes` are the payloads of the blocks, by address.
pub record Reallocated : Type 0 where
  pub after : Freed
  pub new_ptr : ℕ
  pub copied : ℕ
  pub bytes : ℕ → ℕ

unfoldable pub m61_realloc : ℕ → State → (ℕ → ℕ) → ℕ → ℕ → ℕ → ℕ → ℕ → Reallocated
unfolding m61_malloc m61_free copy_bytes
m61_realloc fuel s bytes p ptr sz file line =
    let (s', new_ptr) = if sz == 0 then (s, 0) else m61_malloc s p sz file line in
    let copied = if not (ptr == 0) && not (new_ptr == 0) then copy_size s' ptr sz else 0 in
    record {
      after = m61_free fuel s' ptr;
      new_ptr = new_ptr;
      copied = copied;
      bytes = copy_bytes copied bytes new_ptr ptr;
    }

-- The third result is the number of bytes set to 0.
unfoldable pub m61_calloc : State → ℕ → ℕ → ℕ → ℕ → ℕ → State × ℕ × ℕ
unfolding m61_malloc
m61_calloc s p nmemb sz file line =
    let total = (nmemb * sz) % word_mod in
    if ltb total sz || ltb total nmemb
    then (record s { counters = record s.counters { nfail = add64 s.counters.nfail 1 } }, 0, 0)
    else let (s', ptr) = m61_malloc s p total file line in (s', ptr, if ptr == 0 then 0 else total)

-- `m61_printleakreport`: the metadata that it prints a line for.
unfoldable pub leak_report : ℕ → State → List Metadata
unfolding walk
leak_report fuel s = walk fuel s.header s.metadata_link
