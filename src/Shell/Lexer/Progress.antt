-- ===== src/Shell/Lexer/Progress.antt =====
-- Every call of `parse_shell_token` that returns a token advances, so the loop of `eval_line` ends.
use cs61_f16_psets_team_md.Base.{
  ℕ, zero, suc, List, Option-cases, ◌+◌, ◌≤◌, ◌<◌, ◌≡◌, ◌≢◌, ◌⊎◌, inl, inr, refl, arith, Bool,
  false, ◌&&◌, ◌||◌, some, [], ◌∷◌, ◌++◌, ◌==◌, Bool-cases, Bytes, peek, is_empty, length,
  length-drop,
}
use cs61_f16_psets_team_md.Shell.Lexer.{
  Token, WordStep, stop, skip, keep, take_step, is_space, is_digit, is_shell_special, skip_spaces,
  read_digits, word_step, read_word, read_redirection, read_token, parse_shell_token, tokens_fuel,
}

length-skip_spaces : (s : Bytes) → length (skip_spaces s) ≤ length s
unfolding skip_spaces
length-skip_spaces [] = omega arith
length-skip_spaces (c ∷ cs) = ground (arith, length-skip_spaces cs)

pub length-read_digits :
    (s : Bytes) → length (read_digits s).0 + length (read_digits s).1 ≡ length s
unfolding read_digits
length-read_digits [] = omega arith
length-read_digits (c ∷ cs) = ground (arith, length-read_digits cs)

length-take_step :
    (w : WordStep) (c : ℕ) (cs : Bytes) (loop : ℕ → Bool → Bytes × Bytes)
    → ((q : ℕ) (e : Bool) → length (loop q e).1 ≤ length cs)
    → length (take_step w c cs loop).1 ≤ suc (length cs)
unfolding take_step
length-take_step stop c cs loop h = omega arith
length-take_step (skip q e) c cs loop h = omega (arith, h q e)
length-take_step (keep q) c cs loop h = omega (arith, h q false)

length-take_step_lt :
    (w : WordStep) (c : ℕ) (cs : Bytes) (loop : ℕ → Bool → Bytes × Bytes)
    → w ≢ stop
    → ((q : ℕ) (e : Bool) → length (loop q e).1 ≤ length cs)
    → length (take_step w c cs loop).1 ≤ length cs
unfolding take_step
length-take_step_lt stop c cs loop ne h = absurd (ne refl)
length-take_step_lt (skip q e) c cs loop ne h = h q e
length-take_step_lt (keep q) c cs loop ne h = h q false

length-read_word :
    (s : Bytes) (quoted : ℕ) (escaped : Bool) → length (read_word quoted escaped s).1 ≤ length s
unfolding read_word
length-read_word [] quoted escaped = omega arith
length-read_word (c ∷ cs) quoted escaped =
    length-take_step _ c cs (λ q e. read_word q e cs) (length-read_word cs)

-- Outside quotes a byte that ends no word is taken.
pub word_step-ne-stop :
    (c next : ℕ)
    → c ≢ 0
    → is_space c ≡ false
    → is_shell_special c ≡ false
    → word_step 0 false c next ≢ stop
unfolding word_step
word_step-ne-stop c next nul space special = rw (space, special) (ground arith)

length-read_word_lt :
    (c : ℕ) (cs : Bytes)
    → c ≢ 0
    → is_space c ≡ false
    → is_shell_special c ≡ false
    → length (read_word 0 false (c ∷ cs)).1 ≤ length cs
unfolding read_word
length-read_word_lt c cs nul space special =
    length-take_step_lt _ c cs (λ q e. read_word q e cs)
      (word_step-ne-stop c (peek cs) nul space special) (length-read_word cs)

length-read_redirection : (pre s : Bytes) → length (read_redirection pre s).rest ≤ length s
unfolding read_redirection
length-read_redirection pre [] = omega arith
length-read_redirection pre (c ∷ cs) = ground (arith, length-read_digits cs)

pub peek-skip_spaces : (s : Bytes) → is_space (peek (skip_spaces s)) ≡ false
unfolding skip_spaces is_space
peek-skip_spaces [] = refl
peek-skip_spaces (c ∷ cs) = ground (arith, peek-skip_spaces cs)

-- With no digits read, `*str` is a byte at which a token starts.
abbrev pub StartsToken : Bytes → Bytes → Type 0
StartsToken digits s = (digits ≢ []) ⊎ ((peek s ≢ 0) × (is_space (peek s) ≡ false))

-- The last branch, a normal word.
length-read_token_word :
    (digits : Bytes) (c : ℕ) (cs : Bytes)
    → StartsToken digits (c ∷ cs)
    → (is_empty digits && is_shell_special c) ≡ false
    → length (read_word 0 false (c ∷ cs)).1 < length digits + suc (length cs)
length-read_token_word [] c cs (inl h) special = absurd (h refl)
length-read_token_word [] c cs (inr h) special =
    omega (arith, length-read_word_lt c cs h.0 h.1 special)
length-read_token_word (d ∷ ds) c cs h special = omega (arith, length-read_word (c ∷ cs) 0 false)

length-read_token :
    (digits s : Bytes)
    → StartsToken digits s
    → length (read_token digits s).rest < length digits + length s
unfolding read_token
length-read_token [] [] h = ground arith
length-read_token (d ∷ ds) [] h = omega arith
length-read_token digits (c ∷ cs) h = elim (Bool-cases (c == b'<' || c == b'>')) [
  | inl e ↦ rw e (omega (arith, length-read_redirection (digits ++ c ∷ []) cs))
  | inr e ↦ rw e (elim (Bool-cases (is_empty digits && (c == b'&' || c == b'|') && peek cs == c)) [
    | inl f ↦ rw f (omega (arith, length-drop 1 cs))
    | inr f ↦ rw f (elim (Bool-cases (is_empty digits && is_shell_special c)) [
      | inl g ↦ rw g (omega arith)
      | inr g ↦ rw g (length-read_token_word digits c cs h g)
    ])
  ])
]

read_digits-starts :
    (s : Bytes)
    → (peek s == 0 || peek s == b'#') ≡ false
    → is_space (peek s) ≡ false
    → StartsToken (read_digits s).0 (read_digits s).1
unfolding read_digits
read_digits-starts [] h space = ground arith
read_digits-starts (c ∷ cs) h space = elim (Bool-cases (is_digit c)) [
  | inl e ↦ rw e (inl (λ x. cc))
  | inr e ↦ rw e (inr ((λ x. ground arith), space))
]

-- A call of `parse_shell_token` that returns a token leaves a strictly shorter line.
parse_shell_token-progress :
    (str : Bytes) (t : Token) → parse_shell_token str ≡ some t → length t.rest < length str
unfolding parse_shell_token
parse_shell_token-progress str t h =
    let s = skip_spaces str in
    elim (Bool-cases (peek s == 0 || peek s == b'#')) [
      | inl e ↦ cc (rw e at h)
      | inr e ↦
          let starts = read_digits-starts s e (peek-skip_spaces str) in
          let short = length-read_token (read_digits s).0 (read_digits s).1 starts in
          ground (arith, short, length-read_digits s, length-skip_spaces str)
    ]

-- The loop of `eval_line` over the tokens ends on every line, after at most one round for each
-- byte and one for the end.
pub tokens_fuel_total :
    (fuel : ℕ) (str : Bytes)
    → length str < fuel
    → (ts : List Token) × (tokens_fuel fuel str ≡ some ts)
unfolding tokens_fuel
tokens_fuel_total zero str h = elim h [ ]
tokens_fuel_total (suc fuel) str h = elim (Option-cases (parse_shell_token str)) [
  | inl e ↦ ([], rw (e, tokens_fuel))
  | inr (t, e) ↦
      let (ts, f) =
        tokens_fuel_total fuel t.rest (omega (arith, parse_shell_token-progress str t e)) in
      (t ∷ ts, rw (e, f, tokens_fuel))
]
