-- ===== src/Shell/CommandList/Tests.antt =====
-- The line `a b>f`, and the theorems of the command list at it.
use mathlib.Core.Option
use cs61_f16_psets_team_md.Base.{◌≡◌, refl, none, some, List, [], ◌∷◌, map, Bytes}
use cs61_f16_psets_team_md.Shell.Lexer.{
  Token, normal, redirection, is_space, is_digit, is_shell_special, tokens_fuel,
}
use cs61_f16_psets_team_md.Shell.Lexer.RoundTrip.{lexeme}
use cs61_f16_psets_team_md.Shell.CommandList.{Command, add_token, build, parse_line}
use cs61_f16_psets_team_md.Shell.CommandList.Build.{lexemes, commands, IsLinked, parse_line_lem}

abbrev line : Bytes
line = b'a' ∷ b' ' ∷ b'b' ∷ b'>' ∷ b'f' ∷ []

parse_line-line :
    parse_line line
    ≡ some (
      record {
        argv = (b'a' ∷ []) ∷ (b'b' ∷ []) ∷ [];
        control = some redirection;
        conditional = none;
        redirect_token = none;
      }
          ∷ [],
      record {
        argv = (b'f' ∷ []) ∷ [];
        control = none;
        conditional = some redirection;
        redirect_token = some (b'>' ∷ []);
      },
    )
unfolding parse_line Option.map build add_token tokens_fuel is_space is_digit is_shell_special
parse_line-line = refl

parse_line_lem_example :
    (ts : List Token) × (st : List Command × Command) × (tokens_fuel 6 line ≡ some ts)
    × (parse_line line ≡ some st)
    × (lexemes (commands st) ≡ map lexeme ts)
    × IsLinked none st.0 st.1
parse_line_lem_example = parse_line_lem line

abbrev tokens : List Token
tokens =
    record { type = normal; text = b'a' ∷ []; rest = [] }
    ∷ record { type = redirection; text = b'>' ∷ []; rest = [] }
    ∷ []
