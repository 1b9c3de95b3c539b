-- ===== src/Kernel/Format.antt =====
-- How `printer_vprintf` of pset4/lib.c reads a format and its arguments. A format is the bytes in
-- front of its NUL. Widths and precisions are numbers without the bound of an `int`.
pub mod Rest
use cs61_f16_psets_team_md.Base.{
  ℕ, zero, suc, ◌+◌, ◌-◌, ◌*◌, ◌%◌, ◌^◌, Bool, true, false, not, ◌&&◌, ◌||◌, if◌then◌else◌, ltb,
  leb, ◌==◌, Option, none, some, List, [], ◌∷◌, ◌++◌, Bytes, length, take, replicate, map, ◌>>=◌, ℤ,
  pos, negsuc, pos_part, neg_part, sub_ℕ, ltb_ℤ,
}
use cs61_f16_psets_team_md.Kernel.Strings.{strlen, strnlen, strchr}
use cs61_f16_psets_team_md.Kernel.Digits.{fill_digits}

-- What `va_arg` reads: an `int` or a `long`, an unsigned number or a pointer, or a string.
pub data Arg : Type 0 where
  signed : ℤ → Arg
  unsigned : ℕ → Arg
  string : Bytes → Arg

-- The flags of `flag_chars`.
pub record Flags : Type 0 where
  pub alt : Bool
  pub zeros : Bool
  pub left_justify : Bool
  pub space_positive : Bool
  pub plus_positive : Bool

abbrev pub no_flags : Flags
no_flags = record {
  alt = false;
  zeros = false;
  left_justify = false;
  space_positive = false;
  plus_positive = false;
}

abbrev pub flag_chars : Bytes
flag_chars = b'#' ∷ b'0' ∷ b'-' ∷ b' ' ∷ b'+' ∷ []

-- `flags |= 1 << (flagc - flag_chars)`, where `rest` is the string at `flagc`.
unfoldable pub set_flag : Flags → Bytes → Flags
set_flag flags rest =
    let n = length rest in
    record {
      alt = flags.alt || n == 5;
      zeros = flags.zeros || n == 4;
      left_justify = flags.left_justify || n == 3;
      space_positive = flags.space_positive || n == 2;
      plus_positive = flags.plus_positive || n == 1;
    }

unfoldable pub read_flags : Bytes → Flags → Flags × Bytes
unfolding set_flag strchr
read_flags [] flags = (flags, [])
read_flags (c ∷ cs) flags = elim (strchr flag_chars c) [
  | none ↦ (flags, c ∷ cs)
  | some rest ↦ read_flags cs (set_flag flags rest)
]

abbrev pub is_digit : ℕ → Bool
is_digit c = leb b'0' c && leb c b'9'

-- The loops that read a number.
unfoldable pub read_number : Bytes → ℕ → ℕ × Bytes
read_number [] n = (n, [])
read_number (c ∷ cs) n =
    let rest = read_number cs (10 * n + c - b'0') in if is_digit c then rest else (n, c ∷ cs)

-- `va_arg(val, int)`. No argument, or one of another type, is undefined.
unfoldable pub int_arg : List Arg → Option (ℤ × List Arg)
int_arg (signed x ∷ args) = some (x, args)
int_arg args = none

-- The width, with the rest of the format and of the arguments.
unfoldable pub read_width : Bytes → List Arg → Option (ℤ × Bytes × List Arg)
unfolding read_number int_arg
read_width [] args = some (negsuc 0, [], args)
read_width (c ∷ cs) args =
    let starred = int_arg args >>= (λ (x, args'). some (x, cs, args')) in
    let (n, rest) = read_number (c ∷ cs) 0 in
    if leb b'1' c && leb c b'9'
    then some (pos n, rest, args)
    else if c == b'*'
    then starred
    else some (negsuc 0, c ∷ cs, args)

-- The precision behind a dot. A negative one is 0, as is one that is left out.
unfoldable pub precision_number : Bytes → List Arg → Option (Option ℕ × Bytes × List Arg)
unfolding read_number int_arg
precision_number [] args = some (some 0, [], args)
precision_number (c ∷ cs) args =
    let starred = int_arg args >>= (λ (x, args'). some (some (pos_part x), cs, args')) in
    let (n, rest) = read_number (c ∷ cs) 0 in
    if is_digit c
    then some (some n, rest, args)
    else if c == b'*'
    then starred
    else some (some 0, c ∷ cs, args)

unfoldable pub read_precision : Bytes → List Arg → Option (Option ℕ × Bytes × List Arg)
unfolding precision_number
read_precision [] args = some (none, [], args)
read_precision (c ∷ cs) args =
    let rest = precision_number cs args in if c == b'.' then rest else some (none, c ∷ cs, args)

-- A number with its base and the case of its digits, and FLAG_SIGNED, FLAG_NEGATIVE and FLAG_ALT2.
pub record Number : Type 0 where
  pub num : ℕ
  pub base : ℕ
  pub lower : Bool
  pub is_signed : Bool
  pub negative : Bool
  pub alt2 : Bool

-- What a conversion character asks for.
pub data Conversion : Type 0 where
  numeric : Number → Conversion
  textual : Bytes → Conversion
  recolor : ℤ → Conversion

-- `va_arg(val, long)` or `va_arg(val, int)`, behind 'd'.
unfoldable pub signed_number : ℤ → Number
signed_number x = record {
  num = (pos_part x + neg_part x) % 2 ^ 64;
  base = 10;
  lower = false;
  is_signed = true;
  negative = ltb_ℤ x (pos 0);
  alt2 = false;
}

-- `length` is set by 'l' and 'z'.
unfoldable pub unsigned_number : Bool → ℕ → Bool → Bool → ℕ → Number
unsigned_number length base lower alt2 n = record {
  num = n % (if length then 2 ^ 64 else 2 ^ 32);
  base = base;
  lower = lower;
  is_signed = false;
  negative = false;
  alt2 = alt2;
}

unfoldable pub signed_arg : List Arg → Option (Conversion × List Arg)
unfolding signed_number
signed_arg (signed x ∷ args) = some (numeric (signed_number x), args)
signed_arg args = none

unfoldable pub unsigned_arg : Bool → ℕ → Bool → Bool → List Arg → Option (Conversion × List Arg)
unfolding unsigned_number
unsigned_arg length base lower alt2 (unsigned n ∷ args) =
    some (numeric (unsigned_number length base lower alt2 n), args)
unsigned_arg length base lower alt2 args = none

unfoldable pub string_arg : List Arg → Option (Conversion × List Arg)
string_arg (string s ∷ args) = some (textual s, args)
string_arg args = none

unfoldable pub char_arg : List Arg → Option (Conversion × List Arg)
char_arg (signed x ∷ args) =
    some (textual ((pos_part x + 256 * neg_part x - neg_part x) % 256 ∷ []), args)
char_arg args = none

unfoldable pub color_arg : List Arg → Option (Conversion × List Arg)
color_arg (signed x ∷ args) = some (recolor x, args)
color_arg args = none

-- The switch on a character other than 'l' and 'z'.
unfoldable pub convert_char : Bool → ℕ → List Arg → Option (Conversion × List Arg)
unfolding signed_arg unsigned_arg string_arg char_arg color_arg
convert_char length c args =
    if c == b'd'
    then signed_arg args
    else if c == b'u'
    then unsigned_arg length 10 false false args
    else if c == b'x'
    then unsigned_arg length 16 true false args
    else if c == b'X'
    then unsigned_arg length 16 false false args
    else if c == b'p'
    then unsigned_arg true 16 true true args
    else if c == b's'
    then string_arg args
    else if c == b'C'
    then color_arg args
    else if c == b'c'
    then char_arg args
    else some (textual (c ∷ []), args)

unfoldable pub with_rest :
    Bytes → Option (Conversion × List Arg) → Option (Conversion × Bytes × List Arg)
with_rest cs none = none
with_rest cs (some (conversion, args)) = some (conversion, cs, args)

-- The switch, with the rest of the format behind its character. At the end of the format it is a
-- percent sign, and the outer loop ends.
unfoldable pub convert : Bool → Bytes → List Arg → Option (Conversion × Bytes × List Arg)
unfolding convert_char with_rest
convert length [] args = some (textual (b'%' ∷ []), [], args)
convert length (c ∷ cs) args =
    let again = convert true cs args in
    let here = convert_char length c args in
    if c == b'l' || c == b'z' then again else with_rest cs here
