-- ===== src/Shell/CommandList.antt =====
-- The command list of pset5/sh61.c: `struct command`, its allocation and the loop of `eval_line`.
-- A line's commands are a list, first command first; `next` is the rest of the list. The fields
-- that `run_list` sets, `pid` and `prev_status`, are left out.
mod Tests
pub mod Build
use mathlib.Core.Option
use cs61_f16_psets_team_md.Base.{
  ℕ, suc, Bool, true, false, Option, none, some, List, [], ◌∷◌, ◌++◌, Bytes, length,
}
use cs61_f16_psets_team_md.Shell.Lexer.{TokenType, normal, redirection, Token, tokens_fuel}

-- `control` and `conditional` are -1, here `none`, until an operator sets them; `argc` is the
-- length of `argv`.
pub record Command : Type 0 where
  pub argv : List Bytes
  pub control : Option TokenType
  pub conditional : Option TokenType
  pub redirect_token : Option Bytes

abbrev pub argc : Command → ℕ
argc c = length c.argv

unfoldable pub command_alloc : Command
command_alloc = record { argv = []; control = none; conditional = none; redirect_token = none }

unfoldable pub command_append_arg : Command → Bytes → Command
command_append_arg c word = record c { argv = c.argv ++ word ∷ [] }

-- The branch of `eval_line` on an operator: `current` is closed, and a new command is linked.
unfoldable pub end_command : Command → TokenType → Command
end_command current type = record current { control = some type }

unfoldable pub next_command : TokenType → Bytes → Command
unfolding command_alloc
next_command redirection text = record command_alloc {
  conditional = some redirection;
  redirect_token = some text;
}
next_command type text = record command_alloc { conditional = some type }

-- The loop of `eval_line`, on the commands before `current`, and `current`.
unfoldable pub add_token : List Command × Command → TokenType → Bytes → List Command × Command
unfolding command_append_arg end_command next_command
add_token (before, current) normal text = (before, command_append_arg current text)
add_token (before, current) type text =
    (before ++ end_command current type ∷ [], next_command type text)

unfoldable pub build : List Command × Command → List Token → List Command × Command
build st [] = st
build st (t ∷ ts) = build (add_token st t.type t.text) ts

-- `eval_line` up to the call of `run_list`: the commands of a line, or `none` if the fuel runs out.
unfoldable pub parse_line : Bytes → Option (List Command × Command)
parse_line str = Option.map (build ([], command_alloc)) (tokens_fuel (suc (length str)) str)
