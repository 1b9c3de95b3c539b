-- ===== src/Kernel/Snprintf/Buffer.antt =====
-- What `vsnprintf` leaves in its buffer.
use cs61_f16_psets_team_md.Base.{
  ℕ, ◌+◌, ◌-◌, ◌≤◌, ◌<◌, ◌≡◌, ◌⊎◌, min, true, if◌then◌else◌, ltb, Option, none, some, List, [], ◌∷◌,
  Bytes, length, get_or, pos, negsuc, ◌^◌, ◌*◌, ◌&&◌, Bool,
}
use cs61_f16_psets_team_md.Kernel.Memory.{Memory}
use cs61_f16_psets_team_md.Kernel.Format.{Arg, signed, unsigned, string, is_digit}
use cs61_f16_psets_team_md.Kernel.Printf.{Printed, Output, prints, undefined}

-- The bytes of `ps` that fit between `s` and `end`, and nothing else.
pub record Filled (m : Memory) (s end : ℕ) (ps : List Printed) (m' : Memory) (s' : ℕ) : Type 0 where
  pub stop : s' ≡ s + min (length ps) (end - s)
  pub bytes :
      (i : ℕ) (d : Printed) → i < min (length ps) (end - s) → m' (s + i) ≡ (get_or ps i d).char
  pub outside : (q : ℕ) → (q < s) ⊎ (s' ≤ q) → m' q ≡ m q

-- The buffer of `size` bytes at `s` behind a call, and its result: a size of 0, undefined
-- behaviour, or the bytes that fit with their NUL.
pub data Formatted (m : Memory) (s size : ℕ)
    : Option Output → Option (Option (Memory × ℕ)) → Type 0 where
  empty : (o : Option Output) → size ≡ 0 → Formatted m s size o (some (some (m, 0)))
  unknown : Formatted m s size (some undefined) (some none)
  formatted :
      (ps : List Printed) (m' : Memory) (n : ℕ)
      → 0 < size
      → n ≡ min (length ps) (size - 1)
      → ((i : ℕ) (d : Printed) → i < n → m' (s + i) ≡ (get_or ps i d).char)
      → m' (s + n) ≡ 0
      → ((q : ℕ) → (q < s) ⊎ (s + size ≤ q) → m' q ≡ m q)
      → Formatted m s size (some (prints ps)) (some (some (m', n)))

-- The bounds in which the arithmetic of the source on `int` is exact: the runs of digits in the
-- format, where `n` is the value of the current one, and the arguments.
abbrev pub number_bound : ℕ
number_bound = 2 ^ 29

abbrev pub numbers_fit : ℕ → Bytes → Bool
numbers_fit n [] = ltb n number_bound
numbers_fit n (c ∷ cs) =
    let run = numbers_fit (10 * n + c - b'0') cs in
    let other = numbers_fit 0 cs in ltb n number_bound && (if is_digit c then run else other)

abbrev pub arg_fits : Arg → Bool
arg_fits (signed (pos n)) = ltb n number_bound
arg_fits (signed (negsuc n)) = ltb n number_bound
arg_fits (unsigned n) = ltb n (2 ^ 32)
arg_fits (string s) = ltb (length s) number_bound

abbrev pub args_fit : List Arg → Bool
args_fit [] = true
args_fit (a ∷ args) = let rest = args_fit args in arg_fits a && rest
