-- ===== src/Shell/RunList/Tests.antt =====
-- Lines that are read and run.
use cs61_f16_psets_team_md.Base.{
  ℕ, ◌≡◌, refl, pos, Bytes, List, [], ◌∷◌, none, some, map, false, true, ◌+◌, if◌then◌else◌, ◌==◌,
}
use cs61_f16_psets_team_md.Shell.Lexer
use cs61_f16_psets_team_md.Shell.CommandList
use cs61_f16_psets_team_md.Shell.System.{Status, exited, signaled}
use cs61_f16_psets_team_md.Shell.Behaviour.{World, Outcome, behave}
use cs61_f16_psets_team_md.Shell.RunList.{eval_line, run_list}
use cs61_f16_psets_team_md.Shell.CommandList.{Command}
use cs61_f16_psets_team_md.Shell.Lexer.{TokenType, sequence}
use cs61_f16_psets_team_md.Shell.Run.{new_cell}
use cs61_f16_psets_team_md.Shell.Redirect.{is_cd}
use cs61_f16_psets_team_md.Shell.Finishes.{Finishes}
use cs61_f16_psets_team_md.Shell.Wiring.{wire}
use cs61_f16_psets_team_md.Shell.RunList.Piped.{pipeline, connected, no_commands, command_behind}
use cs61_f16_psets_team_md.Shell.RunList.Piped.Stages.{run_list-pipeline}
use cs61_f16_psets_team_md.Shell.RunList.Total.{run_list-Finishes}
use cs61_f16_psets_team_md.Shell.RunList.Step.{Runs}
use cs61_f16_psets_team_md.Shell.RunList.Sequence.{nil, plain, sequence_started, run_list-sequence}
use cs61_f16_psets_team_md.Shell.RunList.Chain.{
  chain, links_started, none_left, program_behind, at_empty,
}
use cs61_f16_psets_team_md.Shell.RunList.Chain.Child.{extra_shells, program}
use cs61_f16_psets_team_md.Shell.RunList.Chain.Whole.{ChainRuns, awaited_child, run_list-chain}

abbrev failing : List Bytes → Status
failing [] = exited 0
failing ([] ∷ ws) = exited 0
failing ((c ∷ cs) ∷ ws) = if c == b'f' then exited 1 else exited 0

abbrev failing_world : World
failing_world = record { found = λ argv. true; status = failing }

abbrev run_line : Bytes → Outcome
run_line line = behave failing_world (λ n. none) 1 (eval_line line)

-- "a ; b"
sequence_test :
    (run_line (b'a' ∷ b';' ∷ b'b' ∷ [])).started ≡ ((b'a' ∷ []) ∷ []) ∷ ((b'b' ∷ []) ∷ []) ∷ []
unfolding eval_line behave cs61_f16_psets_team_md.Shell.Lexer.tokens_fuel
    cs61_f16_psets_team_md.Shell.Lexer.is_space cs61_f16_psets_team_md.Shell.Lexer.is_digit
    cs61_f16_psets_team_md.Shell.Lexer.is_shell_special
    cs61_f16_psets_team_md.Shell.CommandList.build
    cs61_f16_psets_team_md.Shell.CommandList.add_token
sequence_test = refl

-- "f && b ; c": both processes run `c`.
chain_test :
    (run_line (b'f' ∷ b'&' ∷ b'&' ∷ b'b' ∷ b';' ∷ b'c' ∷ [])).started
    ≡ ((b'f' ∷ []) ∷ []) ∷ ((b'c' ∷ []) ∷ []) ∷ ((b'c' ∷ []) ∷ []) ∷ []
unfolding eval_line behave cs61_f16_psets_team_md.Shell.Lexer.tokens_fuel
    cs61_f16_psets_team_md.Shell.Lexer.is_space cs61_f16_psets_team_md.Shell.Lexer.is_digit
    cs61_f16_psets_team_md.Shell.Lexer.is_shell_special
    cs61_f16_psets_team_md.Shell.CommandList.build
    cs61_f16_psets_team_md.Shell.CommandList.add_token
chain_test = refl

-- "a ; b", where neither can be executed: the children go on as shells too, and `b` is called for
-- by two of them.
not_found_test :
    (behave
      (record { found = λ argv. false; status = failing })
      (λ n. none)
      1
      (eval_line (b'a' ∷ b';' ∷ b'b' ∷ []))).shells
    ≡ 4
unfolding eval_line behave cs61_f16_psets_team_md.Shell.Lexer.tokens_fuel
    cs61_f16_psets_team_md.Shell.Lexer.is_space cs61_f16_psets_team_md.Shell.Lexer.is_digit
    cs61_f16_psets_team_md.Shell.Lexer.is_shell_special
    cs61_f16_psets_team_md.Shell.CommandList.build
    cs61_f16_psets_team_md.Shell.CommandList.add_token
not_found_test = refl

abbrev word : List Bytes
word = (b'a' ∷ []) ∷ []

abbrev other_word : List Bytes
other_word = (b'b' ∷ []) ∷ []

-- "a ; b ;", where `a` is killed.
abbrev plain_command : List Bytes → Command
plain_command argv = record {
  argv = argv;
  control = some sequence;
  conditional = some sequence;
  redirect_token = none;
}

abbrev empty_command : Command
empty_command = record {
  argv = [];
  control = none;
  conditional = some sequence;
  redirect_token = none;
}

abbrev plain_commands : List Command
plain_commands = plain_command word ∷ plain_command other_word ∷ []

killed : List Bytes → Status
killed argv = signaled 2

abbrev killed_world : World
killed_world = record { found = λ argv. true; status = killed }

run_list-Finishes_example : Finishes (run_list (map new_cell plain_commands))
run_list-Finishes_example = run_list-Finishes (map new_cell plain_commands)

run_list-sequence_example :
    Runs
      (behave killed_world (λ n. none) 1 (run_list (map new_cell plain_commands)))
      (sequence_started killed_world plain_commands)
      1
unfolding is_cd
run_list-sequence_example =
    run_list-sequence killed_world (λ n. none) 0 plain_commands
      (plain (plain_command word) (plain_command other_word ∷ [])
        (record {
          words = refl;
          no_redirection = refl;
          no_cd = refl;
          no_pipe = refl;
          no_operator = refl;
          no_condition = refl;
          executable = refl;
        })
        (plain (plain_command other_word) []
          (record {
            words = refl;
            no_redirection = refl;
            no_cd = refl;
            no_pipe = refl;
            no_operator = refl;
            no_condition = refl;
            executable = refl;
          })
          nil))

sequence_started_test : sequence_started killed_world plain_commands ≡ word ∷ []
unfolding sequence_started killed
sequence_started_test = refl

failing_code : List Bytes → ℕ
failing_code argv = 1

-- "a && b || a ;": `b` is skipped, and `a` runs twice.
run_list-chain_example :
    ChainRuns
      (behave
        (program failing_code (λ argv. true))
        (λ n. none)
        1
        (run_list (
          map new_cell (
            chain none word
              ((true, other_word) ∷ (false, word) ∷ [])
              (some sequence)
              (empty_command ∷ [])))))
      (word
        ∷ links_started failing_code (failing_code word) ((true, other_word) ∷ (false, word) ∷ []))
      (extra_shells failing_code (failing_code word) true other_word ((false, word) ∷ []) + 1)
      (awaited_child (some sequence) 1)
unfolding is_cd
run_list-chain_example =
    run_list-chain failing_code (λ argv. true) (λ n. none) 0 word true other_word
      ((false, word) ∷ []) (some sequence) (empty_command ∷ [])
      (record { words = refl; no_cd = refl; executable = refl })
      (program_behind true other_word ((false, word) ∷ [])
        (record { words = refl; no_cd = refl; executable = refl })
        (program_behind false word [] (record { words = refl; no_cd = refl; executable = refl })
          none_left))
      (record { no_redirection = refl; no_pipe = refl; no_operator = refl })
      (at_empty empty_command [] refl)

links_started_test :
    links_started failing_code 1 ((true, other_word) ∷ (false, word) ∷ []) ≡ word ∷ []
unfolding links_started failing_code
links_started_test = refl

-- "a | b | a".
run_list-pipeline_example :
    wire 3 []
      (pos 0)
      (pos 1)
      (run_list (map new_cell (pipeline none word (other_word ∷ word ∷ []))))
    ≡ connected (pos 0) 3 word (other_word ∷ word ∷ [])
unfolding is_cd
run_list-pipeline_example =
    run_list-pipeline 3 word other_word (word ∷ [])
      (command_behind (b'a' ∷ []) [] (other_word ∷ word ∷ [])
        (command_behind (b'b' ∷ []) [] (word ∷ []) (command_behind (b'a' ∷ []) [] [] no_commands)))
      refl

connected_test :
    connected (pos 0) 3 word (other_word ∷ word ∷ [])
    ≡ record { program = word; input = pos 0; output = pos 4; inherited = [] }
      ∷ record { program = other_word; input = pos 3; output = pos 6; inherited = [] }
      ∷ record { program = word; input = pos 5; output = pos 1; inherited = [] }
      ∷ []
unfolding connected
connected_test = refl

-- "a < b": `a` reads from the file.
redirection_test :
    wire 3 [] (pos 0) (pos 1) (eval_line (b'a' ∷ b'<' ∷ b'b' ∷ []))
    ≡ record { program = word; input = pos 3; output = pos 1; inherited = [] } ∷ []
unfolding eval_line wire cs61_f16_psets_team_md.Shell.Lexer.tokens_fuel
    cs61_f16_psets_team_md.Shell.Lexer.is_space cs61_f16_psets_team_md.Shell.Lexer.is_digit
    cs61_f16_psets_team_md.Shell.Lexer.is_shell_special
    cs61_f16_psets_team_md.Shell.CommandList.build
    cs61_f16_psets_team_md.Shell.CommandList.add_token
redirection_test = refl

-- "a | b ; c": `b` is not run, since its output is taken from behind the descriptors.
pipeline_sequence_test :
    wire 3 [] (pos 0) (pos 1) (eval_line (b'a' ∷ b'|' ∷ b'b' ∷ b';' ∷ b'c' ∷ []))
    ≡ record { program = word; input = pos 0; output = pos 4; inherited = [] }
      ∷ record { program = (b'c' ∷ []) ∷ []; input = pos 0; output = pos 1; inherited = [] }
      ∷ []
unfolding eval_line wire cs61_f16_psets_team_md.Shell.Lexer.tokens_fuel
    cs61_f16_psets_team_md.Shell.Lexer.is_space cs61_f16_psets_team_md.Shell.Lexer.is_digit
    cs61_f16_psets_team_md.Shell.Lexer.is_shell_special
    cs61_f16_psets_team_md.Shell.CommandList.build
    cs61_f16_psets_team_md.Shell.CommandList.add_token
pipeline_sequence_test = refl
