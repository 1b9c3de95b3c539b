-- ===== src/Malloc/Block.antt =====
-- The metadata of a block in pset1/m61.c, the memory that holds it, and 64-bit arithmetic.
-- Memory is typed: `header p` is the `struct m61_metadata` at address `p` and `guard p` the
-- `m61_buffers` at `p`, any values where none was written. Writing one leaves the others, since the
-- blocks that the base allocator hands out do not overlap. Pointers are numbers, and NULL is 0.
use cs61_f16_psets_team_md.Base.{ℕ, ◌+◌, ◌-◌, ◌%◌, ◌^◌, ◌==◌, if◌then◌else◌}

-- The range of `unsigned long long`, `size_t` and pointers.
abbrev pub word_mod : ℕ
word_mod = 2 ^ 64

abbrev pub size_max : ℕ
size_max = word_mod - 1

abbrev pub add64 : ℕ → ℕ → ℕ
add64 a b = (a + b) % word_mod

abbrev pub sub64 : ℕ → ℕ → ℕ
sub64 a b = (a + word_mod - b) % word_mod

pub record Metadata : Type 0 where
  pub block_size : ℕ
  pub active : ℕ
  pub address : ℕ
  pub file : ℕ
  pub line : ℕ
  pub prev_ptr : ℕ
  pub next_ptr : ℕ

-- sizeof(struct m61_metadata), sizeof(struct m61_statistics) and sizeof(m61_buffers) on x86-64.
abbrev pub metadata_size : ℕ
metadata_size = 56

abbrev pub statistics_size : ℕ
statistics_size = 64

abbrev pub buffers_size : ℕ
buffers_size = 16

pub record Buffers : Type 0 where
  pub buffer1 : ℕ
  pub buffer2 : ℕ

abbrev pub intact : Buffers
intact = record { buffer1 = 1234; buffer2 = 4321 }

abbrev pub update {ℓ} : {A : Type ℓ} → (ℕ → A) → ℕ → A → ℕ → A
update m p a q = if p == q then a else m q
