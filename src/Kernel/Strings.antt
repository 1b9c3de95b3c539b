-- ===== src/Kernel/Strings.antt =====
-- The string functions of pset4/lib.c that printing uses. A string is a list of the bytes that its
-- pointer leads to; NUL stands at its end or in the list.
use cs61_f16_psets_team_md.Base.{
  ℕ, zero, suc, ◌+◌, not, ◌&&◌, ◌||◌, ltb, ℤ, pos, negsuc, if◌then◌else◌, ◌==◌, Option, none, some,
  Bytes, [], ◌∷◌, peek,
}

unfoldable pub strlen : Bytes → ℕ
strlen [] = 0
strlen (c ∷ s) = let rest = strlen s in if c == 0 then 0 else 1 + rest

unfoldable pub strnlen : Bytes → ℕ → ℕ
strnlen s zero = 0
strnlen [] (suc maxlen) = 0
strnlen (c ∷ s) (suc maxlen) = let rest = strnlen s maxlen in if c == 0 then 0 else 1 + rest

-- The pointer that the loop of `strchr` stops at, and the test behind it.
unfoldable pub find_char : Bytes → ℕ → Bytes
find_char [] c = []
find_char (b ∷ s) c = let rest = find_char s c in if b == 0 || b == c then b ∷ s else rest

unfoldable pub strchr : Bytes → ℕ → Option Bytes
unfolding find_char
strchr s c = let rest = find_char s c in if peek rest == c then some rest else none

-- The loop of `strcmp`, and the comparison at its end.
unfoldable pub compare_bytes : ℕ → ℕ → ℤ
compare_bytes x y = if ltb y x then pos 1 else if ltb x y then negsuc 0 else pos 0

unfoldable pub strcmp : Bytes → Bytes → ℤ
unfolding compare_bytes
strcmp [] b = compare_bytes 0 (peek b)
strcmp (x ∷ a) [] = compare_bytes x 0
strcmp (x ∷ a) (y ∷ b) =
    let rest = strcmp a b in
    if not (x == 0) && not (y == 0) && x == y then rest else compare_bytes x y
