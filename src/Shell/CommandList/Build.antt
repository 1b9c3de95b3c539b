-- ===== src/Shell/CommandList/Build.antt =====
-- What the loop of `eval_line` builds: a list from which the tokens can be read off, whose links
-- carry the operators.
use cs61_f16_psets_team_md.Base.{
  ℕ, suc, ◌+◌, ◌≡◌, ◌≢◌, refl, sym, ap, ◌∙◌, arith, Option, none, some, List, [], ◌∷◌, ◌++◌, map,
  append_assoc, append-nil, Bytes, length, length-append, All,
}
use cs61_f16_psets_team_md.Shell.Lexer.{
  TokenType, normal, redirection, sequence, background, pipe, and, or, lparen, rparen, other, Token,
  tokens_fuel,
}
use cs61_f16_psets_team_md.Shell.Lexer.Shape.{IsToken}
use cs61_f16_psets_team_md.Shell.Lexer.RoundTrip.{Lexeme, lexeme, tokens_fuel-IsToken}
use cs61_f16_psets_team_md.Shell.Lexer.Progress.{tokens_fuel_total}
use cs61_f16_psets_team_md.Shell.CommandList.{Command, command_alloc, add_token, build, parse_line}

-- The only spelling of an operator that is no redirection.
abbrev pub spelling : TokenType → Bytes
spelling sequence = b';' ∷ []
spelling background = b'&' ∷ []
spelling pipe = b'|' ∷ []
spelling and = b'&' ∷ b'&' ∷ []
spelling or = b'|' ∷ b'|' ∷ []
spelling lparen = b'(' ∷ []
spelling rparen = b')' ∷ []
spelling type = []

-- The operator that a command stands behind.
abbrev pub opener : Option TokenType → Option Bytes → List Lexeme
opener none text = []
opener (some redirection) (some text) = (redirection, text) ∷ []
opener (some type) text = (type, spelling type) ∷ []

abbrev pub words : List Bytes → List Lexeme
words = map (λ w. (normal, w))

-- The tokens that a command list stands for, read off its `conditional`, `redirect_token`, `argv`.
pub lexemes : List Command → List Lexeme
lexemes [] = []
lexemes (c ∷ cs) = opener c.conditional c.redirect_token ++ (words c.argv ++ lexemes cs)

abbrev pub commands : List Command × Command → List Command
commands st = st.0 ++ st.1 ∷ []

-- Behind the operator `prev` each command holds the operator before it and the one behind it,
-- and the last holds none behind it.
abbrev pub IsLinked : Option TokenType → List Command → Command → Type 0
IsLinked prev [] last = (last.conditional ≡ prev) × (last.control ≡ none)
IsLinked prev (c ∷ cs) last =
    (c.conditional ≡ prev) × (c.control ≢ none) × IsLinked c.control cs last

lexemes-append : (xs ys : List Command) → lexemes (xs ++ ys) ≡ lexemes xs ++ lexemes ys
unfolding lexemes
lexemes-append [] ys = refl
lexemes-append (c ∷ cs) ys = simp (lexemes-append cs ys, append_assoc)

words-concat : (ws : List Bytes) (w : Bytes) → words (ws ++ w ∷ []) ≡ words ws ++ (normal, w) ∷ []
words-concat [] w = refl
words-concat (v ∷ ws) w = ap (◌∷◌ (normal, v)) (words-concat ws w)

add_token-lexemes :
    (before : List Command) (current : Command) (type : TokenType) (text : Bytes)
    → IsToken type text
    → lexemes (commands (add_token (before, current) type text))
      ≡ lexemes (commands (before, current)) ++ (type, text) ∷ []
unfolding add_token lexemes
add_token-lexemes before current normal text h =
    simp (lexemes-append, words-concat, append_assoc, append-nil)
add_token-lexemes before current redirection text h =
    simp (lexemes-append, append_assoc, append-nil, lexemes)
add_token-lexemes before current other text h = absurd h
add_token-lexemes before current _ text h =
    simp (h, lexemes-append, append_assoc, append-nil, lexemes)

build-lexemes :
    (ts : List Token) (st : List Command × Command)
    → All (λ t. IsToken t.0 t.1) (map lexeme ts)
    → lexemes (commands (build st ts)) ≡ lexemes (commands st) ++ map lexeme ts
unfolding build
build-lexemes [] st h = sym (append-nil _)
build-lexemes (t ∷ ts) st h =
    build-lexemes ts (add_token st t.type t.text) h.1
    ∙ rw (add_token-lexemes st.0 st.1 t.type t.text h.0, append_assoc)

IsLinked-append :
    (prev : Option TokenType) (cs : List Command) (last next : Command) (type : TokenType)
    → IsLinked prev cs last
    → next.conditional ≡ some type
    → next.control ≡ none
    → IsLinked prev (cs ++ record last { control = some type } ∷ []) next
IsLinked-append prev [] last next type l c n = (l.0, (λ e. cc), (c, n))
IsLinked-append prev (d ∷ cs) last next type l c n =
    (l.0, l.1, IsLinked-append d.control cs last next type l.2 c n)

IsLinked-argv :
    (prev : Option TokenType) (cs : List Command) (last : Command) (ws : List Bytes)
    → IsLinked prev cs last
    → IsLinked prev cs (record last { argv = ws })
IsLinked-argv prev [] last ws l = l
IsLinked-argv prev (d ∷ cs) last ws l = (l.0, l.1, IsLinked-argv d.control cs last ws l.2)

add_token-IsLinked :
    (cs : List Command) (last : Command) (type : TokenType) (text : Bytes)
    → IsLinked none cs last
    → IsLinked none (add_token (cs, last) type text).0 (add_token (cs, last) type text).1
unfolding add_token
add_token-IsLinked cs last normal text l = IsLinked-argv none cs last _ l
add_token-IsLinked cs last redirection text l =
    IsLinked-append none cs last _ redirection l refl refl
add_token-IsLinked cs last _ text l = IsLinked-append none cs last _ _ l refl refl

build-IsLinked :
    (ts : List Token) (st : List Command × Command)
    → IsLinked none st.0 st.1
    → IsLinked none (build st ts).0 (build st ts).1
unfolding build
build-IsLinked [] st l = l
build-IsLinked (t ∷ ts) st l =
    build-IsLinked ts (add_token st t.type t.text) (add_token-IsLinked st.0 st.1 t.type t.text l)

-- `eval_line` makes a command list from every line: its tokens, in order and with their operators,
-- can be read off the list, and each link holds one operator on both its sides.
pub parse_line_lem :
    (str : Bytes)
    → (ts : List Token) × (st : List Command × Command) × (tokens_fuel (suc (length str)) str
        ≡ some ts)
      × (parse_line str ≡ some st)
      × (lexemes (commands st) ≡ map lexeme ts)
      × IsLinked none st.0 st.1
unfolding parse_line
parse_line_lem str =
    let (ts, run) = tokens_fuel_total (suc (length str)) str (omega arith) in
    let start : List Command × Command = ([], command_alloc) in
    (
      ts,
      build start ts,
      run,
      rw run,
      unfold lexemes command_alloc in
          build-lexemes ts start (tokens_fuel-IsToken (suc (length str)) str ts run),
      unfold command_alloc in build-IsLinked ts start (refl, refl),
    )

abbrev pub count_operators : List Token → ℕ
count_operators [] = 0
count_operators (t ∷ ts) = elim t.type [ normal ↦ 0 | _ ↦ 1 ] + count_operators ts

add_token-length :
    (cs : List Command) (last : Command) (type : TokenType) (text : Bytes)
    → length (add_token (cs, last) type text).0 ≡ length cs + elim type [ normal ↦ 0 | _ ↦ 1 ]
unfolding add_token
add_token-length cs last normal text = omega arith
add_token-length cs last _ text = omega (arith, length-append cs)

build-length :
    (ts : List Token) (st : List Command × Command)
    → length (build st ts).0 ≡ length st.0 + count_operators ts
unfolding build
build-length [] st = omega arith
build-length (t ∷ ts) st =
    omega (
      arith,
      build-length ts (add_token st t.type t.text),
      add_token-length st.0 st.1 t.type t.text,
    )
