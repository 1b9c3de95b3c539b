-- ===== src/Shell/Lexer.antt =====
-- `parse_shell_token` of pset5/helpers.c and the token types of pset5/sh61.h. A pointer into the
-- command line is the list of the bytes behind it, without the final NUL. The text of a token is
-- its bytes without the NUL that `parse_shell_token` appends.
mod Tests
pub mod Progress
pub mod Shape
pub mod RoundTrip
use cs61_f16_psets_team_md.Base.{
  ℕ, zero, suc, Bool, true, false, not, ◌&&◌, ◌||◌, Option, none, some, List, [], ◌∷◌, ◌++◌, leb,
  ◌==◌, if◌then◌else◌, Bytes, peek, drop, is_empty,
}

-- The TOKEN_ constants. `other` is TOKEN_OTHER.
pub data TokenType : Type 0 where
  normal redirection sequence background pipe and or lparen rparen other : TokenType

-- `isspace` and `isdigit` of the C locale.
unfoldable pub is_space : ℕ → Bool
is_space c = c == b' ' || (leb 9 c && leb c 13)

unfoldable pub is_digit : ℕ → Bool
is_digit c = leb b'0' c && leb c b'9'

unfoldable pub is_shell_special : ℕ → Bool
is_shell_special c =
    c == b'<'
    || c == b'>'
    || c == b'&'
    || c == b'|'
    || c == b';'
    || c == b'('
    || c == b')'
    || c == b'#'

-- while (str && isspace(*str)) ++str;
unfoldable pub skip_spaces : Bytes → Bytes
skip_spaces [] = []
skip_spaces (c ∷ cs) = if is_space c then skip_spaces cs else c ∷ cs

-- for (; isdigit(*str); ++str) buildstring_append(...): the digits, and what stands behind them.
unfoldable pub read_digits : Bytes → Bytes × Bytes
read_digits [] = ([], [])
read_digits (c ∷ cs) =
    let (ds, rest) = read_digits cs in if is_digit c then (c ∷ ds, rest) else ([], c ∷ cs)

-- What one round of the loop over a normal word does with the byte `*str`: it stops, drops the
-- byte, or appends a byte. The number is the new value of `quoted`. The flag says that the next
-- byte is the second one of a backslash pair, which the source appends in the same round.
pub data WordStep : Type 0 where
  stop : WordStep
  skip : ℕ → Bool → WordStep
  keep : ℕ → WordStep

unfoldable pub word_step : ℕ → Bool → ℕ → ℕ → WordStep
word_step quoted true c next = keep quoted
word_step quoted false c next =
    if not (
      (not (c == 0) && not (quoted == 0))
      || (not (c == 0) && not (is_space c) && not (is_shell_special c)))
    then stop
    else if (c == b'\"' || c == b'\'') && quoted == 0
    then skip c false
    else if c == quoted
    then skip 0 false
    else if c == b'\\' && not (next == 0) && not (quoted == b'\'')
    then skip quoted true
    else keep quoted

-- A round on the byte `c` with `cs` behind it, where `loop` is the loop over `cs`.
unfoldable pub take_step : WordStep → ℕ → Bytes → (ℕ → Bool → Bytes × Bytes) → Bytes × Bytes
take_step stop c cs loop = ([], c ∷ cs)
take_step (skip quoted escaped) c cs loop = loop quoted escaped
take_step (keep quoted) c cs loop = let (w, rest) = loop quoted false in (c ∷ w, rest)

unfoldable pub read_word : ℕ → Bool → Bytes → Bytes × Bytes
unfolding word_step take_step
read_word quoted escaped [] = ([], [])
read_word quoted escaped (c ∷ cs) =
    take_step (word_step quoted escaped c (peek cs)) c cs (λ q e. read_word q e cs)

pub record Token : Type 0 where
  pub type : TokenType
  pub text : Bytes
  pub rest : Bytes

-- Behind `<` or `>`, which `pre` ends with: a second `>`, or `&` and digits, belong to the
-- operator.
unfoldable pub read_redirection : Bytes → Bytes → Token
unfolding read_digits
read_redirection pre [] = record { type = redirection; text = pre; rest = [] }
read_redirection pre (c ∷ cs) =
    if c == b'>'
    then record { type = redirection; text = pre ++ c ∷ []; rest = cs }
    else if c == b'&' && is_digit (peek cs)
    then record {
      type = redirection;
      text = pre ++ c ∷ (read_digits cs).0;
      rest = (read_digits cs).1;
    }
    else record { type = redirection; text = pre; rest = c ∷ cs }

-- The switch on a special byte.
unfoldable pub special_type : ℕ → TokenType
special_type c =
    if c == b';'
    then sequence
    else if c == b'&'
    then background
    else if c == b'|'
    then pipe
    else if c == b'('
    then lparen
    else if c == b')'
    then rparen
    else other

-- The branches behind the digits, on the digits read (`buildtoken`) and the rest (`str`).
unfoldable pub read_token : Bytes → Bytes → Token
unfolding read_redirection special_type read_word word_step
read_token digits [] = record { type = normal; text = digits; rest = [] }
read_token digits (c ∷ cs) =
    if c == b'<' || c == b'>'
    then read_redirection (digits ++ c ∷ []) cs
    else if is_empty digits && (c == b'&' || c == b'|') && peek cs == c
    then record { type = if c == b'&' then and else or; text = c ∷ c ∷ []; rest = drop 1 cs }
    else if is_empty digits && is_shell_special c
    then record { type = special_type c; text = c ∷ []; rest = cs }
    else let (w, rest) = read_word 0 false (c ∷ cs) in
      record { type = normal; text = digits ++ w; rest = rest }

-- `none` is the NULL at the end of the line or at a comment.
unfoldable pub parse_shell_token : Bytes → Option Token
unfolding skip_spaces read_digits read_token
parse_shell_token str =
    let s = skip_spaces str in
    let (digits, rest) = read_digits s in
    if peek s == 0 || peek s == b'#' then none else some (read_token digits rest)

-- The loop of `eval_line` over the tokens. Every token takes a byte, so the length of the line is
-- fuel enough.
unfoldable pub tokens_fuel : ℕ → Bytes → Option (List Token)
unfolding parse_shell_token
tokens_fuel zero str = none
tokens_fuel (suc fuel) str = elim (parse_shell_token str) [
  | none ↦ some []
  | some t ↦ elim (tokens_fuel fuel t.rest) [ none ↦ none | some ts ↦ some (t ∷ ts) ]
]
