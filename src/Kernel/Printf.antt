-- ===== src/Kernel/Printf.antt =====
-- `printer_vprintf` of pset4/lib.c: the bytes that a format and its arguments come to, each with
-- the color that `putc` gets.
pub mod Total
use cs61_f16_psets_team_md.Base.{
  ℕ, zero, suc, ◌+◌, ◌-◌, Bool, true, false, not, ◌&&◌, ◌||◌, if◌then◌else◌, ltb, leb, ◌==◌, Option,
  none, some, List, [], ◌∷◌, ◌++◌, Bytes, length, take, replicate, map, ℤ, pos, negsuc, pos_part,
  neg_part, sub_ℕ, ltb_ℤ, ◌+ℤ◌, neg,
}
use cs61_f16_psets_team_md.Kernel.Strings.{strlen, strnlen}
use cs61_f16_psets_team_md.Kernel.Digits.{fill_digits}
use cs61_f16_psets_team_md.Kernel.Format.{
  Arg, Flags, no_flags, read_flags, read_width, read_precision, Number, Conversion, numeric,
  textual, recolor, convert,
}

-- A byte for `putc`, with its color.
pub record Printed : Type 0 where
  pub char : ℕ
  pub color : ℤ

-- The bytes of a call, or undefined behaviour: an argument that is missing or has another type, or
-- a number too long for `numbuf`.
pub data Output : Type 0 where
  prints : List Printed → Output
  undefined : Output

unfoldable pub number_prefix : Flags → Number → Bytes
number_prefix flags n =
    if n.is_signed
    then (if n.negative
        then b'-' ∷ []
        else if flags.plus_positive
        then b'+' ∷ []
        else if flags.space_positive
        then b' ' ∷ []
        else [])
    else if (flags.alt || n.alt2) && n.base == 16 && (not (n.num == 0) || n.alt2)
    then (if n.lower then b'0' ∷ b'x' ∷ [] else b'0' ∷ b'X' ∷ [])
    else []

-- The zeros between prefix and digits, where `len` is the number of digits.
unfoldable pub number_zeros : Flags → ℤ → Option ℕ → ℕ → ℕ → ℕ
number_zeros flags width (some precision) len prefix_len =
    if ltb len precision then precision - len else 0
number_zeros flags width none len prefix_len =
    if flags.zeros && not flags.left_justify && ltb_ℤ (pos (len + prefix_len)) width
    then pos_part width - len - prefix_len
    else 0

-- The loops of `putc`, where `width` is what is left of the width.
unfoldable pub put_field : Flags → ℤ → Bytes → ℕ → Bytes → Bytes
put_field flags width prefix zeros data_bytes =
    let spaces = replicate (pos_part width) b' ' in
    (if flags.left_justify then [] else spaces)
    ++ prefix
    ++ replicate zeros b'0'
    ++ data_bytes
    ++ (if flags.left_justify then spaces else [])

unfoldable pub pad_field : Flags → ℤ → Bytes → ℕ → Bytes → Bytes
unfolding put_field
pad_field flags width prefix zeros data_bytes =
    put_field flags (width +ℤ neg (pos (length data_bytes + zeros + length prefix))) prefix zeros
      data_bytes

-- A number, with the digits that `fill_numbuf` writes.
unfoldable pub number_field : Flags → ℤ → Option ℕ → Number → Bytes → Bytes
unfolding number_prefix number_zeros pad_field
number_field flags width precision n digits =
    let prefix = number_prefix flags n in
    let zeros = number_zeros flags width precision (length digits) (length prefix) in
    pad_field flags width prefix zeros digits

-- A string, up to its NUL or the precision.
unfoldable pub text_len : Option ℕ → Bytes → ℕ
unfolding strlen strnlen
text_len none s = strlen s
text_len (some precision) s = strnlen s precision

unfoldable pub text_field : Flags → ℤ → Option ℕ → Bytes → Bytes
unfolding text_len pad_field
text_field flags width precision s = pad_field flags width [] 0 (take (text_len precision s) s)

-- What is printed before the rest: `loop` is the rest of the loop with a color.
unfoldable pub print_bytes : ℤ → Option Bytes → Option Output → Option Output
print_bytes color none rest = some undefined
print_bytes color (some bs) none = none
print_bytes color (some bs) (some undefined) = some undefined
print_bytes color (some bs) (some (prints cs)) =
    some (prints (map (λ b. record { char = b; color = color }) bs ++ cs))

unfoldable pub print_conversion :
    Flags → ℤ → Option ℕ → ℤ → Conversion → (ℤ → Option Output) → Option Output
unfolding number_field text_field print_bytes fill_digits
print_conversion flags width precision color (numeric n) loop =
    print_bytes color
      (elim (fill_digits 23 n.lower n.num n.base []) [
        | none ↦ none
        | some digits ↦ some (number_field flags width precision n digits)
      ])
      (loop color)
print_conversion flags width precision color (textual s) loop =
    print_bytes color (some (text_field flags width precision s)) (loop color)
print_conversion flags width precision color (recolor color') loop = loop color'

-- The rest of a specification, behind the flags, where `loop` is the loop on what follows.
unfoldable pub print_precision :
    Flags
    → ℤ
    → ℤ
    → Option (Option ℕ × Bytes × List Arg)
    → (ℤ → Bytes → List Arg → Option Output)
    → Option Output
unfolding print_conversion convert
print_precision flags width color none loop = some undefined
print_precision flags width color (some (precision, cs, args)) loop = elim (convert false cs args) [
  | none ↦ some undefined
  | some (conversion, cs', args') ↦
      print_conversion flags width precision color conversion (λ color'. loop color' cs' args')
]

unfoldable pub print_width :
    Flags
    → ℤ
    → Option (ℤ × Bytes × List Arg)
    → (ℤ → Bytes → List Arg → Option Output)
    → Option Output
unfolding print_precision read_precision
print_width flags color none loop = some undefined
print_width flags color (some (width, cs, args)) loop =
    print_precision flags width color (read_precision cs args) loop

-- The loop over the format; `none` is a run out of fuel.
unfoldable pub printer_vprintf : ℕ → ℤ → Bytes → List Arg → Option Output
unfolding print_bytes print_width read_flags read_width
printer_vprintf zero color format args = none
printer_vprintf (suc fuel) color [] args = some (prints [])
printer_vprintf (suc fuel) color (c ∷ cs) args =
    let (flags, cs') = read_flags cs no_flags in
    let conversion =
      print_width flags color (read_width cs' args)
        (λ color' rest args'. printer_vprintf fuel color' rest args') in
    let plain = print_bytes color (some (c ∷ [])) (printer_vprintf fuel color cs args) in
    if c == b'%' then conversion else plain
