-- ===== src/Shell/Main.antt =====
-- The loop of `main` of pset5/sh61.c, with `fgets` on the bytes of the command file. The lines that
-- it runs are recorded, and whether `eval_line` returns behind a line is a parameter, since
-- `run_list` can end the shell. The reaping of zombies behind each round changes no state of the
-- loop.
pub mod Loop
pub mod Lines
mod Tests
use cs61_f16_psets_team_md.Base.{
  ℕ, zero, suc, ◌-◌, Bool, true, false, not, ◌&&◌, ◌||◌, if◌then◌else◌, ◌==◌, Option, none, some,
  List, [], ◌∷◌, ◌++◌, Bytes, length, is_empty, drop,
}

-- BUFSIZ of the C library.
abbrev pub bufsiz : ℕ
bufsiz = 8192

abbrev pub newline : ℕ
newline = 10

-- How the system answers a call of `fgets`: it reads, it is interrupted (EINTR) when it has taken a
-- number of bytes, which are lost, or it fails. Behind the calls that are listed it reads.
pub data Call : Type 0 where
  reads fails : Call
  interrupts : ℕ → Call

-- `fgets(s, n + 1, file)`: at most `n` bytes, up to a newline or the end of the file.
pub record Got : Type 0 where
  pub text : Bytes
  pub rest : Bytes
  pub at_end : Bool

unfoldable pub fgets : ℕ → Bytes → Got
fgets zero cs = record { text = []; rest = cs; at_end = false }
fgets (suc n) [] = record { text = []; rest = []; at_end = true }
fgets (suc n) (c ∷ cs) =
    let g = fgets n cs in
    if c == newline
    then record { text = c ∷ []; rest = cs; at_end = false }
    else record { text = c ∷ g.text; rest = g.rest; at_end = g.at_end }

-- The bytes of a buffer in front of its first NUL.
unfoldable pub until_nul : Bytes → Bytes
until_nul [] = []
until_nul (c ∷ cs) = let rest = until_nul cs in if c == 0 then [] else c ∷ rest

unfoldable pub ends_line : Bytes → Bool
ends_line [] = false
ends_line (c ∷ []) = c == newline
ends_line (c ∷ d ∷ cs) = ends_line (d ∷ cs)

-- The first `bufpos` bytes of `buf`, and `needprompt`.
pub record Reader : Type 0 where
  pub kept : Bytes
  pub needprompt : Bool

-- What the loop does: a prompt, a call of `eval_line`, and the report of an error.
pub data Turn : Type 0 where
  prompts : Turn
  evaluates : Bytes → Turn
  reports : Turn

abbrev pub Turns : Type 0
Turns = Option (List Turn)

abbrev pub turn : Turn → Turns → Turns
turn t none = none
turn t (some ts) = some (t ∷ ts)

-- The loop, from what is left of the file and its end-of-file mark.
abbrev pub MainLoop : Type 0
MainLoop = List Call → Reader → Bytes → Bool → Turns

-- The end of a round, where `buf` holds `kept`.
abbrev pub is_complete : Bytes → Bool
is_complete kept = length kept == bufsiz - 1 || (not (is_empty kept) && ends_line kept)

-- `stays` tells the lines behind which `eval_line` returns, from those that end the shell.
unfoldable pub line_end :
    (Bytes → Bool) → MainLoop → List Call → Bytes → Bool → Bytes → Bool → Turns
unfolding ends_line
line_end stays loop calls input at_end kept needprompt =
    let returned = loop calls (record { kept = []; needprompt = true }) input at_end in
    if is_complete kept
    then turn (evaluates kept) (if stays kept then returned else some [])
    else loop calls (record { kept = kept; needprompt = needprompt }) input at_end

-- `fgets` returns NULL where the file ends and no byte was read.
unfoldable pub got_text : (Bytes → Bool) → MainLoop → List Call → Reader → Got → Turns
unfolding line_end until_nul
got_text stays loop calls r g =
    if is_empty g.text && g.at_end
    then some []
    else line_end stays loop calls g.rest g.at_end (r.kept ++ until_nul g.text) r.needprompt

unfoldable pub read_line : (Bytes → Bool) → MainLoop → List Call → Reader → Bytes → Turns
unfolding got_text fgets line_end
read_line stays loop [] r input =
    got_text stays loop [] r (fgets (bufsiz - length r.kept - 1) input)
read_line stays loop (reads ∷ calls) r input =
    got_text stays loop calls r (fgets (bufsiz - length r.kept - 1) input)
read_line stays loop (interrupts n ∷ calls) r input =
    line_end stays loop calls (drop n input) false r.kept r.needprompt
read_line stays loop (fails ∷ calls) r input = some (reports ∷ [])

-- The prompt, and the rest of a round.
unfoldable pub main_round : (Bytes → Bool) → Bool → MainLoop → MainLoop
unfolding read_line
main_round stays quiet loop calls r input at_end =
    if at_end
    then some []
    else if r.needprompt && not quiet
    then turn prompts (read_line stays loop calls (record r { needprompt = false }) input)
    else read_line stays loop calls r input

unfoldable pub main_loop : ℕ → (Bytes → Bool) → Bool → MainLoop
unfolding main_round
main_loop zero stays quiet calls r input at_end = none
main_loop (suc fuel) stays quiet calls r input at_end =
    main_round stays quiet (main_loop fuel stays quiet) calls r input at_end

abbrev pub first_reader : Reader
first_reader = record { kept = []; needprompt = true }
