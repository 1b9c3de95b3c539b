-- ===== src/Shell/Lexer/Tests.antt =====
-- Runs of the tokenizer.
use Prim.Native.Char.{code}
use Prim.Native.String.{String}
use mathlib.Core.Option
use cs61_f16_psets_team_md.Base.{arith, ◌≡◌, refl, some, [], ◌∷◌, List, Bytes, map, Option}
use cs61_f16_psets_team_md.Shell.Lexer.Shape.{IsToken, parse_shell_token-IsToken}
use cs61_f16_psets_team_md.Shell.Lexer.RoundTrip.{
  Lexeme, lexeme, print, tokens_fuel-print, tokens_fuel-print-tokens_fuel,
}
use cs61_f16_psets_team_md.Shell.Lexer.{
  parse_shell_token, Token, tokens_fuel, is_space, is_digit, is_shell_special, normal, redirection,
  and, background, TokenType,
}

abbrev codes : String → Bytes
codes String.[] = []
codes (String.◌∷◌ c s) = code c ∷ codes s

abbrev line : Bytes
line = codes "a\\ b 'c|d'2 2>f && 12& # x"

shown : Option (List (TokenType × Bytes))
shown = Option.map (map (λ t. (t.type, t.text))) (tokens_fuel 40 line)

tokens_fuel-line :
    shown
    ≡ some (
        (normal, codes "a b")
        ∷ (normal, codes "c|d2")
        ∷ (redirection, codes "2>")
        ∷ (normal, codes "f")
        ∷ (and, codes "&&")
        ∷ (normal, codes "12")
        ∷ (background, codes "&")
        ∷ [])
unfolding tokens_fuel shown Option.map is_space is_digit is_shell_special
tokens_fuel-line = refl

-- The line `ls`, whose one token is at once the whole of it.
abbrev ls : Bytes
ls = codes "ls"

abbrev ls_token : Token
ls_token = record { type = normal; text = codes "ls"; rest = [] }

read_ls : parse_shell_token ls ≡ some ls_token
unfolding parse_shell_token is_space is_digit is_shell_special
read_ls = refl

parse_shell_token-IsToken_example : IsToken normal (codes "ls")
parse_shell_token-IsToken_example = parse_shell_token-IsToken ls ls_token read_ls

abbrev lexemes : List Lexeme
lexemes = (normal, codes "a \"b") ∷ (and, codes "&&") ∷ (normal, []) ∷ []

tokens_fuel-print_example :
    (out : List Token) × (tokens_fuel 4 (print lexemes) ≡ some out) × (map lexeme out ≡ lexemes)
tokens_fuel-print_example =
    tokens_fuel-print lexemes 4 (omega arith, (refl, (tt, tt))) (omega arith)

read_ls_line : tokens_fuel 3 ls ≡ some (ls_token ∷ [])
unfolding tokens_fuel is_space is_digit is_shell_special
read_ls_line = refl

tokens_fuel-print-tokens_fuel_example :
    (again : List Token) × (tokens_fuel 2 (print ((normal, ls) ∷ [])) ≡ some again)
    × (map lexeme again ≡ (normal, ls) ∷ [])
tokens_fuel-print-tokens_fuel_example =
    tokens_fuel-print-tokens_fuel 3 ls (ls_token ∷ []) read_ls_line
