-- ===== src/Kernel/Printf/Total.antt =====
-- The loop of `printer_vprintf` ends on every format.
use cs61_f16_psets_team_md.Base.{
  ℕ, zero, suc, ◌≤◌, ◌<◌, arith, Bool, true, false, if◌then◌else◌, ◌==◌, Option, none, some, List,
  [], ◌∷◌, Bytes, length, ℤ,
}
use cs61_f16_psets_team_md.Kernel.Format.{
  Arg, Flags, no_flags, read_flags, read_width, read_precision, Conversion, numeric, textual,
  recolor, convert,
}
use cs61_f16_psets_team_md.Kernel.Format.Rest.{
  Within, nothing, left, read_flags_le, read_width-Within, read_precision-Within, convert-Within,
}
use cs61_f16_psets_team_md.Kernel.Printf.{
  Output, prints, undefined, text_field, print_bytes, print_conversion, print_precision,
  print_width, printer_vprintf,
}

-- A run that does not run out of fuel.
pub data Returns : Option Output → Type 0 where
  returns : (r : Output) → Returns (some r)

print_bytes-Returns :
    (color : ℤ) (bs : Option Bytes) (o : Option Output)
    → Returns o
    → Returns (print_bytes color bs o)
unfolding print_bytes
print_bytes-Returns color none o r = returns undefined
print_bytes-Returns color (some bs) _ (returns undefined) = returns undefined
print_bytes-Returns color (some bs) _ (returns (prints cs)) = returns _

print_conversion-Returns :
    (flags : Flags) (width : ℤ) (precision : Option ℕ) (color : ℤ) (conversion : Conversion)
    (loop : ℤ → Option Output)
    → ((color' : ℤ) → Returns (loop color'))
    → Returns (print_conversion flags width precision color conversion loop)
unfolding print_conversion
print_conversion-Returns flags width precision color (numeric n) loop h =
    print_bytes-Returns color _ (loop color) (h color)
print_conversion-Returns flags width precision color (textual s) loop h =
    print_bytes-Returns color (some (text_field flags width precision s)) (loop color) (h color)
print_conversion-Returns flags width precision color (recolor color') loop h = h color'

-- A loop that returns on every rest of `n` bytes at most.
abbrev ReturnsWithin : ℕ → (ℤ → Bytes → List Arg → Option Output) → Type 0
ReturnsWithin n loop =
    (color : ℤ) (cs : Bytes) (args : List Arg) → length cs ≤ n → Returns (loop color cs args)

print_precision-Returns :
    (n : ℕ) (flags : Flags) (width color : ℤ) (o : Option (Option ℕ × Bytes × List Arg))
    (loop : ℤ → Bytes → List Arg → Option Output)
    → ReturnsWithin n loop
    → Within n o
    → Returns (print_precision flags width color o loop)
unfolding print_precision
print_precision-Returns n flags width color _ loop h nothing = returns undefined
print_precision-Returns n flags width color _ loop h (left precision cs args lt) =
    converted (convert false cs args) (convert-Within false cs args)
  where
    converted :
        (o : Option (Conversion × Bytes × List Arg))
        → Within (length cs) o
        → Returns (elim o [
          | none ↦ some undefined
          | some (conversion, cs', args') ↦
              print_conversion flags width precision color conversion
                (λ color'. loop color' cs' args')
        ])
    converted _ nothing = returns undefined
    converted _ (left conversion cs' args' le) =
        print_conversion-Returns flags width precision color conversion
          (λ color'. loop color' cs' args') (λ color'. h color' cs' args' (omega arith))

print_width-Returns :
    (n : ℕ) (flags : Flags) (color : ℤ) (o : Option (ℤ × Bytes × List Arg))
    (loop : ℤ → Bytes → List Arg → Option Output)
    → ReturnsWithin n loop
    → Within n o
    → Returns (print_width flags color o loop)
unfolding print_width
print_width-Returns n flags color _ loop h nothing = returns undefined
print_width-Returns n flags color _ loop h (left width cs args lt) =
    print_precision-Returns (length cs) flags width color (read_precision cs args) loop
      (λ color' cs' args' le. h color' cs' args' (omega arith)) (read_precision-Within cs args)

if_Returns : (b : Bool) (x y : Option Output) → Returns x → Returns y → Returns (if b then x else y)
if_Returns true x y hx hy = hx
if_Returns false x y hx hy = hy

-- On every format, with every list of arguments, a round more than the format has bytes is enough
-- for the loop to end.
pub printer_vprintf_total :
    (fuel : ℕ) (color : ℤ) (format : Bytes) (args : List Arg)
    → length format < fuel
    → Returns (printer_vprintf fuel color format args)
unfolding printer_vprintf
printer_vprintf_total zero color format args h = absurd (omega arith)
printer_vprintf_total (suc fuel) color [] args h = returns (prints [])
printer_vprintf_total (suc fuel) color (c ∷ cs) args h =
    let (flags, cs') = read_flags cs no_flags in
    let short : length cs' ≤ length cs = read_flags_le cs no_flags in
    if_Returns (c == b'%') _ _
      (print_width-Returns (length cs') flags color (read_width cs' args) _
        (λ color' rest args' le. printer_vprintf_total fuel color' rest args' (omega arith))
        (read_width-Within cs' args))
      (print_bytes-Returns color (some (c ∷ [])) _
        (printer_vprintf_total fuel color cs args (omega arith)))
