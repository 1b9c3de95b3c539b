-- ===== src/Shell/Lexer/RoundTrip.antt =====
-- Text that `parse_shell_token` reads back: each token printed with a space behind it, a word in
-- double quotes with a backslash before every byte.
use cs61_f16_psets_team_md.Base.{
  ℕ, zero, suc, ◌<◌, ◌≡◌, inl, inr, refl, ap, arith, true, false, ◌||◌, some, List, [], ◌∷◌, ◌++◌,
  append_assoc, append-nil, map, ◌==◌, Option-cases, subst, Bytes, length-map, peek, All, length,
}
use cs61_f16_psets_team_md.Shell.Lexer.{
  TokenType, normal, redirection, sequence, background, pipe, and, or, lparen, rparen, other, Token,
  is_space, is_digit, is_shell_special, skip_spaces, read_digits, read_word, read_redirection,
  parse_shell_token, tokens_fuel,
}
use cs61_f16_psets_team_md.Shell.Lexer.Shape.{
  NotNul, IsDigit, IsSuffix, alone, appending, duplicate, IsToken,
}
use cs61_f16_psets_team_md.Shell.Lexer.Shape.{parse_shell_token-IsToken}

-- A token without its place in the line.
abbrev pub Lexeme : Type 0
Lexeme = TokenType × Bytes

abbrev pub lexeme : Token → Lexeme
lexeme t = (t.type, t.text)

pub quote : Bytes → Bytes → Bytes
quote [] rest = b'\"' ∷ b' ' ∷ rest
quote (c ∷ cs) rest = b'\\' ∷ c ∷ quote cs rest

pub print_token : TokenType → Bytes → Bytes → Bytes
unfolding quote
print_token normal w rest = b'\"' ∷ quote w rest
print_token type w rest = w ++ b' ' ∷ rest

pub print : List Lexeme → Bytes
unfolding print_token
print [] = []
print ((type, w) ∷ ts) = print_token type w (print ts)

abbrev token_before : TokenType → Bytes → Bytes → Token
token_before type w rest = record { type = type; text = w; rest = b' ' ∷ rest }

read_word-quote :
    (w rest : Bytes) → All NotNul w → read_word b'\"' false (quote w rest) ≡ (w, b' ' ∷ rest)
unfolding quote read_word is_space
read_word-quote [] rest h = refl
read_word-quote (c ∷ cs) rest h =
    let e : (c == 0) ≡ false = ground (arith, h.0) in rw (e, read_word-quote cs rest h.1)

read_digits-append :
    (ds : Bytes) (c : ℕ) (rest : Bytes)
    → All IsDigit ds
    → is_digit c ≡ false
    → read_digits (ds ++ c ∷ rest) ≡ (ds, c ∷ rest)
unfolding read_digits
read_digits-append [] c rest h e = ground arith
read_digits-append (d ∷ ds) c rest h e = ground (arith, read_digits-append ds c rest h.1 e)

read_redirection-append :
    (pre suffix rest : Bytes)
    → IsSuffix suffix
    → read_redirection pre (suffix ++ b' ' ∷ rest) ≡ token_before redirection (pre ++ suffix) rest
unfolding read_redirection is_digit
read_redirection-append pre suffix rest (alone e) = rw (e, append-nil)
read_redirection-append pre suffix rest (appending e) = rw e refl
read_redirection-append pre suffix rest (duplicate d ds h e) =
    rw (e, h.0, read_digits-append ds b' ' rest h.1 refl)

normal_lem :
    (w rest : Bytes)
    → All NotNul w
    → parse_shell_token (print_token normal w rest) ≡ some (token_before normal w rest)
unfolding print_token parse_shell_token is_space is_digit is_shell_special
normal_lem w rest h = rw (read_word-quote w rest h)

-- The first byte of a redirection operator starts a token, and the digits end before `<` or `>`.
module _ (mark : ℕ) (m : (mark == b'<' || mark == b'>') ≡ true) where
  skip_spaces-digits :
      (ds rest : Bytes) → All IsDigit ds → skip_spaces (ds ++ mark ∷ rest) ≡ ds ++ mark ∷ rest
  unfolding skip_spaces is_space is_digit
  skip_spaces-digits [] rest h = ground arith
  skip_spaces-digits (d ∷ ds) rest h = ground (arith, h.0)

  peek-digits :
      (ds rest : Bytes)
      → All IsDigit ds
      → (peek (ds ++ mark ∷ rest) == 0 || peek (ds ++ mark ∷ rest) == b'#') ≡ false
  unfolding is_digit
  peek-digits [] rest h = ground arith
  peek-digits (d ∷ ds) rest h = ground (arith, h.0)

  is_digit-mark : is_digit mark ≡ false
  unfolding is_digit
  is_digit-mark = ground arith

  redirection_lem :
      (digits suffix rest : Bytes)
      → All IsDigit digits
      → IsSuffix suffix
      → parse_shell_token ((digits ++ mark ∷ suffix) ++ b' ' ∷ rest)
        ≡ some (token_before redirection (digits ++ mark ∷ suffix) rest)
  unfolding parse_shell_token
  redirection_lem digits suffix rest h s =
      let more = suffix ++ b' ' ∷ rest in
      rw (
        append_assoc digits (mark ∷ suffix) (b' ' ∷ rest),
        skip_spaces-digits digits more h,
        peek-digits digits more h,
        read_digits-append digits mark more h is_digit-mark,
        m,
        read_redirection-append (digits ++ mark ∷ []) suffix rest s,
        append_assoc digits (mark ∷ []) suffix,
      )

pub parse_shell_token-print_token :
    (type : TokenType) (w rest : Bytes)
    → IsToken type w
    → parse_shell_token (print_token type w rest) ≡ some (token_before type w rest)
unfolding print_token parse_shell_token is_space is_digit is_shell_special
parse_shell_token-print_token normal w rest h = normal_lem w rest h
parse_shell_token-print_token redirection w rest h =
    rw h.text_is (redirection_lem h.mark h.mark_is h.digits h.suffix rest h.digits_are h.suffix_is)
parse_shell_token-print_token sequence w rest h = rw h
parse_shell_token-print_token background w rest h = rw h
parse_shell_token-print_token pipe w rest h = rw h
parse_shell_token-print_token and w rest h = rw h
parse_shell_token-print_token or w rest h = rw h
parse_shell_token-print_token lparen w rest h = rw h
parse_shell_token-print_token rparen w rest h = rw h
parse_shell_token-print_token other w rest h = absurd h

-- After a token a space stands, which the next call skips.
parse_shell_token-space : (s : Bytes) → parse_shell_token (b' ' ∷ s) ≡ parse_shell_token s
unfolding parse_shell_token is_space
parse_shell_token-space s = refl

tokens_fuel-space : (fuel : ℕ) (s : Bytes) → tokens_fuel fuel (b' ' ∷ s) ≡ tokens_fuel fuel s
unfolding tokens_fuel
tokens_fuel-space zero s = refl
tokens_fuel-space (suc fuel) s = rw (parse_shell_token-space s, tokens_fuel)

-- Every list of well-formed tokens is read back from its printed text, each with its type and text,
-- if one round is left for each token and one for the end.
pub tokens_fuel-print :
    (ts : List Lexeme) (fuel : ℕ)
    → All (λ t. IsToken t.0 t.1) ts
    → length ts < fuel
    → (out : List Token) × (tokens_fuel fuel (print ts) ≡ some out) × (map lexeme out ≡ ts)
unfolding tokens_fuel print
tokens_fuel-print ts zero h f = absurd (omega arith)
tokens_fuel-print [] (suc fuel) h f = ([], refl, refl)
tokens_fuel-print ((type, w) ∷ ts) (suc fuel) h f =
    let rest = print ts in
    let (out, run, same) = tokens_fuel-print ts fuel h.1 (omega arith) in
    (
      token_before type w rest ∷ out,
      rw (
        parse_shell_token-print_token type w rest h.0,
        tokens_fuel-space fuel rest,
        run,
        tokens_fuel,
      ),
      ap (◌∷◌ (type, w)) same,
    )

-- Every token that the loop of `eval_line` sees is well-formed.
pub tokens_fuel-IsToken :
    (fuel : ℕ) (str : Bytes) (ts : List Token)
    → tokens_fuel fuel str ≡ some ts
    → All (λ t. IsToken t.0 t.1) (map lexeme ts)
unfolding tokens_fuel
tokens_fuel-IsToken zero str ts h = cc
tokens_fuel-IsToken (suc fuel) str ts h = elim (Option-cases (parse_shell_token str)) [
  | inl e ↦
      let run : some [] ≡ some ts = rw (e, tokens_fuel) at h in
      let same : [] ≡ ts = cc in subst AllTokens same tt
  | inr (t, e) ↦ elim (Option-cases (tokens_fuel fuel t.rest)) [
    | inl f ↦ cc (rw (e, f, tokens_fuel) at h)
    | inr (us, f) ↦
        let run : some (t ∷ us) ≡ some ts = rw (e, f, tokens_fuel) at h in
        let same : t ∷ us ≡ ts = cc in
        subst AllTokens same
          (parse_shell_token-IsToken str t e, tokens_fuel-IsToken fuel t.rest us f)
  ]
]
  where
    AllTokens : List Token → Type 0
    AllTokens l = All (λ t. IsToken t.0 t.1) (map lexeme l)

-- A line that was read can be printed and read again with the same tokens.
pub tokens_fuel-print-tokens_fuel :
    (fuel : ℕ) (str : Bytes) (ts : List Token)
    → tokens_fuel fuel str ≡ some ts
    → (again : List Token) × (tokens_fuel (suc (length ts)) (print (map lexeme ts)) ≡ some again)
      × (map lexeme again ≡ map lexeme ts)
tokens_fuel-print-tokens_fuel fuel str ts h =
    tokens_fuel-print (map lexeme ts) (suc (length ts)) (tokens_fuel-IsToken fuel str ts h)
      (omega (arith, length-map ts lexeme))
