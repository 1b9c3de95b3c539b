-- ===== src/Kernel/Format/Rest.antt =====
-- No part of a specification reads behind the format: what is left of it is no longer than before.
use cs61_f16_psets_team_md.Base.{
  ℕ, suc, ◌+◌, ◌-◌, ◌*◌, ◌≤◌, arith, inl, inr, Bool, true, false, if◌then◌else◌, Bool-cases, Option,
  none, some, List, [], ◌∷◌, Bytes, length, ◌>>=◌, ℤ, negsuc, pos_part,
}
use cs61_f16_psets_team_md.Kernel.Strings.{strchr}
use cs61_f16_psets_team_md.Kernel.Format.{
  Arg, signed, unsigned, string, Flags, flag_chars, set_flag, read_flags, is_digit, read_number,
  int_arg, read_width, precision_number, read_precision, Conversion, convert_char, with_rest,
  convert,
}

pub data Within {A : Type 0} (n : ℕ) : Option (A × Bytes × List Arg) → Type 0 where
  nothing : Within n none
  left : (a : A) (cs : Bytes) (args : List Arg) → length cs ≤ n → Within n (some (a, cs, args))

longer :
    {A : Type 0} {n m : ℕ} {o : Option (A × Bytes × List Arg)} → n ≤ m → Within n o → Within m o
longer h nothing = nothing
longer h (left a cs args lt) = left a cs args (omega arith)

pub read_flags_le : (cs : Bytes) (flags : Flags) → length ((read_flags cs flags).1) ≤ length cs
unfolding read_flags
read_flags_le [] flags = omega arith
read_flags_le (c ∷ cs) flags =
    flagged (strchr flag_chars c) (λ rest. read_flags_le cs (set_flag flags rest))
  where
    flagged :
        (o : Option Bytes)
        → ((rest : Bytes) → length ((read_flags cs (set_flag flags rest)).1) ≤ length cs)
        → let r : Flags × Bytes = elim o [
          | none ↦ (flags, c ∷ cs)
          | some rest ↦ read_flags cs (set_flag flags rest)
        ] in
          length r.1 ≤ suc (length cs)
    flagged none ih = omega arith
    flagged (some rest) ih = omega (arith, ih rest)

read_number_le : (cs : Bytes) (n : ℕ) → length ((read_number cs n).1) ≤ length cs
unfolding read_number
read_number_le [] n = omega arith
read_number_le (c ∷ cs) n = elim (Bool-cases (is_digit c)) [
  | inl e ↦ rw e (omega (arith, read_number_le cs (10 * n + c - b'0')))
  | inr e ↦ rw e (omega arith)
]

int_arg-Within :
    {A : Type 0} (cs : Bytes) (args : List Arg) (f : ℤ → A)
    → Within (length cs) (int_arg args >>= (λ (x, args'). some (f x, cs, args')))
unfolding int_arg
int_arg-Within cs [] f = nothing
int_arg-Within cs (signed x ∷ args) f = left (f x) cs args (omega arith)
int_arg-Within cs (unsigned n ∷ args) f = nothing
int_arg-Within cs (string s ∷ args) f = nothing

if_Within :
    {A : Type 0} {n : ℕ} (b : Bool) (x y : Option (A × Bytes × List Arg))
    → Within n x
    → Within n y
    → Within n (if b then x else y)
if_Within true x y hx hy = hx
if_Within false x y hx hy = hy

pub read_width-Within : (cs : Bytes) (args : List Arg) → Within (length cs) (read_width cs args)
unfolding read_width
read_width-Within [] args = left (negsuc 0) [] args (omega arith)
read_width-Within (c ∷ cs) args = if_Within _ _ _ (left _ _ args (read_number_le (c ∷ cs) 0)) (
    if_Within _ _ _ (longer (omega arith) (int_arg-Within cs args (λ x. x)))
      (left (negsuc 0) (c ∷ cs) args (omega arith)))

precision_number-Within :
    (cs : Bytes) (args : List Arg) → Within (length cs) (precision_number cs args)
unfolding precision_number
precision_number-Within [] args = left (some 0) [] args (omega arith)
precision_number-Within (c ∷ cs) args =
    if_Within _ _ _ (left _ _ args (read_number_le (c ∷ cs) 0)) (
      if_Within _ _ _ (longer (omega arith) (int_arg-Within cs args (λ x. some (pos_part x))))
        (left (some 0) (c ∷ cs) args (omega arith)))

pub read_precision-Within :
    (cs : Bytes) (args : List Arg) → Within (length cs) (read_precision cs args)
unfolding read_precision
read_precision-Within [] args = left none [] args (omega arith)
read_precision-Within (c ∷ cs) args =
    if_Within _ _ _ (longer (omega arith) (precision_number-Within cs args))
      (left none (c ∷ cs) args (omega arith))

with_rest-Within :
    (cs : Bytes) (o : Option (Conversion × List Arg)) → Within (length cs) (with_rest cs o)
unfolding with_rest
with_rest-Within cs none = nothing
with_rest-Within cs (some (conversion, args)) = left conversion cs args (omega arith)

pub convert-Within :
    (long_arg : Bool) (cs : Bytes) (args : List Arg) → Within (length cs) (convert long_arg cs args)
unfolding convert
convert-Within long_arg [] args = left _ [] args (omega arith)
convert-Within long_arg (c ∷ cs) args =
    if_Within _ _ _ (longer (omega arith) (convert-Within true cs args))
      (longer (omega arith) (with_rest-Within cs (convert_char long_arg c args)))
