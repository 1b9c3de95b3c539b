-- ===== src/Shell/Lexer/Shape.antt =====
-- The texts that a token of each type can have, and that `parse_shell_token` returns no other.
use cs61_f16_psets_team_md.Base.{
  ℕ, ◌≡◌, ◌≢◌, inl, inr, refl, arith, Bool, true, false, ◌&&◌, ◌||◌, some, [], ◌∷◌, ◌++◌, ◌==◌,
  if◌then◌else◌, subst, Bool-cases, Bytes, peek, is_empty, All, All-append, append_assoc,
}
use cs61_f16_psets_team_md.Shell.Lexer.{
  TokenType, normal, redirection, sequence, background, pipe, and, or, lparen, rparen, other, Token,
  WordStep, stop, skip, keep, is_digit, is_shell_special, skip_spaces, read_digits, word_step,
  take_step, read_word, read_redirection, special_type, read_token, parse_shell_token,
}

abbrev pub NotNul : ℕ → Type 0
NotNul c = c ≢ 0

abbrev pub IsDigit : ℕ → Type 0
IsDigit c = is_digit c ≡ true

-- What can follow `<` or `>` in an operator: nothing, a second `>`, or `&` and a number.
pub data IsSuffix (t : Bytes) : Type 0 where
  alone : t ≡ [] → IsSuffix t
  appending : t ≡ b'>' ∷ [] → IsSuffix t
  duplicate : (d : ℕ) (ds : Bytes) → All IsDigit (d ∷ ds) → t ≡ b'&' ∷ d ∷ ds → IsSuffix t

pub record IsRedirection (w : Bytes) : Type 0 where
  pub digits : Bytes
  pub mark : ℕ
  pub suffix : Bytes
  pub digits_are : All IsDigit digits
  pub mark_is : (mark == b'<' || mark == b'>') ≡ true
  pub suffix_is : IsSuffix suffix
  pub text_is : w ≡ digits ++ mark ∷ suffix

-- The texts of each type. No token has the type `other`.
abbrev pub IsToken : TokenType → Bytes → Type 0
IsToken normal w = All NotNul w
IsToken redirection w = IsRedirection w
IsToken sequence w = w ≡ b';' ∷ []
IsToken background w = w ≡ b'&' ∷ []
IsToken pipe w = w ≡ b'|' ∷ []
IsToken and w = w ≡ b'&' ∷ b'&' ∷ []
IsToken or w = w ≡ b'|' ∷ b'|' ∷ []
IsToken lparen w = w ≡ b'(' ∷ []
IsToken rparen w = w ≡ b')' ∷ []
IsToken other w = ⊥

read_digits-IsDigit : (s : Bytes) → All IsDigit (read_digits s).0
unfolding read_digits
read_digits-IsDigit [] = tt
read_digits-IsDigit (c ∷ cs) = elim (Bool-cases (is_digit c)) [
  | inl e ↦ rw e (e, read_digits-IsDigit cs)
  | inr e ↦ rw e tt
]

IsDigit-NotNul : (ds : Bytes) → All IsDigit ds → All NotNul ds
unfolding is_digit
IsDigit-NotNul [] h = tt
IsDigit-NotNul (d ∷ ds) h = ((λ e. ground (arith, h.0)), IsDigit-NotNul ds h.1)

-- A round keeps only a byte that is not NUL; the byte behind a backslash is none either.
abbrev StepSafe : WordStep → ℕ → ℕ → Type 0
StepSafe stop c next = Unit
StepSafe (skip q e) c next = e ≡ true → next ≢ 0
StepSafe (keep q) c next = c ≢ 0

word_step-StepSafe :
    (quoted : ℕ) (escaped : Bool) (c next : ℕ)
    → (escaped ≡ true → c ≢ 0)
    → StepSafe (word_step quoted escaped c next) c next
unfolding word_step
word_step-StepSafe quoted true c next h = h refl
word_step-StepSafe quoted false c next h = ground arith

take_step-NotNul :
    (w : WordStep) (c : ℕ) (cs : Bytes) (loop : ℕ → Bool → Bytes × Bytes)
    → StepSafe w c (peek cs)
    → ((q : ℕ) (e : Bool) → (e ≡ true → peek cs ≢ 0) → All NotNul (loop q e).0)
    → All NotNul (take_step w c cs loop).0
unfolding take_step
take_step-NotNul stop c cs loop s h = tt
take_step-NotNul (skip q e) c cs loop s h = h q e s
take_step-NotNul (keep q) c cs loop s h = (s, h q false (λ e. cc))

read_word-NotNul :
    (s : Bytes) (quoted : ℕ) (escaped : Bool)
    → (escaped ≡ true → peek s ≢ 0)
    → All NotNul (read_word quoted escaped s).0
unfolding read_word
read_word-NotNul [] quoted escaped h = tt
read_word-NotNul (c ∷ cs) quoted escaped h =
    take_step-NotNul _ c cs (λ q e. read_word q e cs)
      (word_step-StepSafe quoted escaped c (peek cs) h) (read_word-NotNul cs)

module _ (digits : Bytes) (mark : ℕ) (h : All IsDigit digits)
    (m : (mark == b'<' || mark == b'>') ≡ true) where
  append-IsRedirection :
      (suffix : Bytes) → IsSuffix suffix → IsRedirection ((digits ++ mark ∷ []) ++ suffix)
  append-IsRedirection suffix s = record {
    digits = digits;
    mark = mark;
    suffix = suffix;
    digits_are = h;
    mark_is = m;
    suffix_is = s;
    text_is = append_assoc digits (mark ∷ []) suffix;
  }

  mark-IsRedirection : IsRedirection (digits ++ mark ∷ [])
  mark-IsRedirection = record {
    digits = digits;
    mark = mark;
    suffix = [];
    digits_are = h;
    mark_is = m;
    suffix_is = alone refl;
    text_is = refl;
  }

-- `&` and at least one digit.
duplicate-IsSuffix : (cs : Bytes) → IsDigit (peek cs) → IsSuffix (b'&' ∷ (read_digits cs).0)
unfolding read_digits is_digit
duplicate-IsSuffix [] h = ground arith
duplicate-IsSuffix (d ∷ ds) h =
    duplicate d (read_digits ds).0 (h, read_digits-IsDigit ds) (rw (h, read_digits))

read_redirection-IsToken :
    (digits : Bytes) (mark : ℕ) (s : Bytes)
    → All IsDigit digits
    → (mark == b'<' || mark == b'>') ≡ true
    → let t = read_redirection (digits ++ mark ∷ []) s in IsToken t.type t.text
unfolding read_redirection
read_redirection-IsToken digits mark [] h m = mark-IsRedirection digits mark h m
read_redirection-IsToken digits mark (c ∷ cs) h m = elim (Bool-cases (c == b'>')) [
  | inl e ↦ rw e (append-IsRedirection digits mark h m (c ∷ []) (appending (ground arith)))
  | inr e ↦ rw e (elim (Bool-cases (c == b'&' && is_digit (peek cs))) [
    | inl f ↦ rw f (
        append-IsRedirection digits mark h m (c ∷ (read_digits cs).0) (
          subst (λ k. IsSuffix (k ∷ (read_digits cs).0)) (ground arith)
            (duplicate-IsSuffix cs (ground arith))))
    | inr f ↦ rw f (mark-IsRedirection digits mark h m)
  ])
]

special_type-IsToken :
    (c : ℕ)
    → is_shell_special c ≡ true
    → (c == b'<' || c == b'>') ≡ false
    → c ≢ b'#'
    → IsToken (special_type c) (c ∷ [])
unfolding is_shell_special special_type
special_type-IsToken c s r h = ground arith

-- A doubled `&` or `|`.
double-IsToken :
    (digits : Bytes) (c : ℕ) (cs : Bytes)
    → (is_empty digits && (c == b'&' || c == b'|') && peek cs == c) ≡ true
    → IsToken (if c == b'&' then and else or) (c ∷ c ∷ [])
double-IsToken digits c cs h = ground arith

read_token-IsToken :
    (digits s : Bytes)
    → All IsDigit digits
    → (digits ≡ [] → peek s ≢ b'#')
    → let t = read_token digits s in IsToken t.type t.text
unfolding read_token
read_token-IsToken digits [] h n = IsDigit-NotNul digits h
read_token-IsToken digits (c ∷ cs) h n = elim (Bool-cases (c == b'<' || c == b'>')) [
  | inl e ↦ rw e (read_redirection-IsToken digits c cs h e)
  | inr e ↦ rw e (elim (Bool-cases (is_empty digits && (c == b'&' || c == b'|') && peek cs == c)) [
    | inl f ↦ rw f (double-IsToken digits c cs f)
    | inr f ↦ rw f (elim (Bool-cases (is_empty digits && is_shell_special c)) [
      | inl g ↦
          rw g (special_type-IsToken c (ground arith) e (n (is_empty-eq_nil digits (ground arith))))
      | inr g ↦ rw g (
          All-append NotNul digits _ (IsDigit-NotNul digits h)
            (read_word-NotNul (c ∷ cs) 0 false (λ x. cc)))
    ])
  ])
]
  where
    is_empty-eq_nil : (l : Bytes) → is_empty l ≡ true → l ≡ []
    is_empty-eq_nil [] e = refl
    is_empty-eq_nil (x ∷ l) e = cc

pub read_digits-peek : (s : Bytes) → (read_digits s).0 ≡ [] → (read_digits s).1 ≡ s
unfolding read_digits
read_digits-peek [] h = refl
read_digits-peek (c ∷ cs) h = ground arith

-- The text of every token that `parse_shell_token` returns is one that its type allows: a word
-- has no NUL, an operator is spelled as the shell defines it, and TOKEN_OTHER is never returned.
pub parse_shell_token-IsToken :
    (str : Bytes) (t : Token) → parse_shell_token str ≡ some t → IsToken t.type t.text
unfolding parse_shell_token
parse_shell_token-IsToken str t h = elim (Bool-cases (peek s == 0 || peek s == b'#')) [
  | inl e ↦ cc (rw e at h)
  | inr e ↦
      let shape =
        read_token-IsToken (read_digits s).0 (read_digits s).1 (read_digits-IsDigit s)
          (λ empty. rw (read_digits-peek s empty) (λ x. ground arith)) in
      let same : read_token (read_digits s).0 (read_digits s).1 ≡ t = ground arith in
      subst {A = Token} (λ k. IsToken k.type k.text) same shape
]
  where
    s : Bytes
    s = skip_spaces str
