-- ===== src/Kernel/Digits/Value.antt =====
-- The number that the digits of `fill_numbuf` of pset4/lib.c stand for.
use cs61_f16_psets_team_md.Base.{
  ℕ, zero, suc, ◌+◌, ◌-◌, ◌*◌, ◌/◌, ◌%◌, ◌≤◌, ◌<◌, ◌≡◌, refl, ap, sym, ◌∙◌, inl, inr, arith, tests,
  Bool, true, false, Bool-cases, ltb, ◌==◌, if◌then◌else◌, Option, some, Bytes, [], ◌∷◌, ◌++◌,
  length, length-append, append_assoc,
}
use native.Mathlib.Nat.{mod-lt, div-add-mod', div-lt_iff_lt-mul}
use cs61_f16_psets_team_md.Kernel.Digits.{digit, fill_digits}

abbrev digit_value : ℕ → ℕ
digit_value c = if ltb c 58 then c - 48 else if ltb c 87 then c - 55 else c - 87

-- Digits are read from the left, as `strtoul` reads them.
abbrev pub value : ℕ → ℕ → Bytes → ℕ
value base acc [] = acc
value base acc (c ∷ cs) = value base (acc * base + digit_value c) cs

value-append :
    (base acc d : ℕ) (cs : Bytes)
    → value base acc (cs ++ d ∷ []) ≡ value base acc cs * base + digit_value d
value-append base acc d [] = refl
value-append base acc d (c ∷ cs) = value-append base (acc * base + digit_value c) d cs

digit_value-digit : (lower : Bool) (n : ℕ) → n < 16 → digit_value (digit lower n) ≡ n
unfolding digit
digit_value-digit true n h = grind (tests, h)
digit_value-digit false n h = grind (tests, h)

-- The powers that bound the number of digits.
abbrev pub power : ℕ → ℕ → ℕ
power base zero = 1
power base (suc n) = power base n * base

-- The digits `ds` of `val`, put in front of `done`.
pub record Digits (base val n : ℕ) (done : Bytes) (r : Option Bytes) : Type 0 where
  pub ds : Bytes
  pub written : r ≡ some (ds ++ done)
  pub number : value base 0 ds ≡ val
  pub at_most : length ds ≤ n

more_rounds : (n q base : ℕ) → q < power base n → (q == 0) ≡ false → 0 < n
more_rounds zero q base h e = grind (tests, h, e)
more_rounds (suc n) q base h e = omega arith

-- `fill_numbuf` writes the digits of `val`, in upper or lower case, and at most `n` of them where
-- `val` is less than the `n`-th power of the base, which stands between 2 and 16. So `n` rounds are
-- enough.
pub fill_digits-Digits :
    (n : ℕ) (lower : Bool) (val base : ℕ) (done : Bytes)
    → 2 ≤ base
    → base ≤ 16
    → 0 < n
    → val < power base n
    → Digits base val n done (fill_digits n lower val base done)
unfolding fill_digits
fill_digits-Digits zero lower val base done lo hi pos h = absurd (omega (arith, pos))
fill_digits-Digits (suc n) lower val base done lo hi pos h =
    let base_pos : 0 < base = omega (arith, lo) in
    let d = digit lower (val % base) in
    let low : digit_value d ≡ val % base =
      digit_value-digit lower (val % base) (omega (arith, hi, mod-lt val base_pos)) in
    let joined = div-add-mod' val base in
    elim (Bool-cases (val / base == 0)) [
      | inl e ↦
          let none_left : val / base ≡ 0 = grind (tests, e) in
          rw e (record {
            ds = d ∷ [];
            written = refl;
            number =
                ap (◌+◌ (0 * base)) low ∙ sym (ap (λ q. q * base + val % base) none_left) ∙ joined;
            at_most = omega arith;
          })
      | inr e ↦
          let less : val / base < power base n = (div-lt_iff_lt-mul base_pos).1 h in
          let r =
            fill_digits-Digits n lower (val / base) base (d ∷ done) lo hi
              (more_rounds n (val / base) base less e) less in
          rw e (record {
            ds = r.ds ++ d ∷ [];
            written = r.written ∙ ap some (sym (append_assoc r.ds (d ∷ []) done));
            number =
                value-append base 0 d r.ds
                ∙ ap (λ q. q * base + digit_value d) r.number
                ∙ ap (◌+◌ (val / base * base)) low
                ∙ joined;
            at_most = omega (arith, r.at_most, length-append r.ds (d ∷ []));
          })
    ]
