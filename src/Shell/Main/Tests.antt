-- ===== src/Shell/Main/Tests.antt =====
-- Files that are read.
use cs61_f16_psets_team_md.Base.{◌≡◌, refl, arith, true, false, some, [], ◌∷◌, map}
use cs61_f16_psets_team_md.Shell.Main.{
  reads, interrupts, fails, prompts, evaluates, reports, main_loop, first_reader,
}
use cs61_f16_psets_team_md.Shell.Main.Lines.{
  IsText, nil_text, text_behind, no_lines, line_behind, ended_line, print_lines, no_calls, reading,
  interrupting, none_stays, stay_behind, Evaluates,
}
use cs61_f16_psets_team_md.Shell.Main.Loop.{main_loop-print_lines}

-- A NUL hides the rest of its line, and the next line is put behind what is left.
nul_test :
    main_loop 9 (λ l. true) true [] first_reader (b'a' ∷ 0 ∷ b'b' ∷ 10 ∷ b'c' ∷ 10 ∷ []) false
    ≡ some (evaluates (b'a' ∷ b'c' ∷ 10 ∷ []) ∷ [])
unfolding main_loop
nul_test = refl

failure_test :
    main_loop 9
      (λ l. true)
      false
      (reads ∷ fails ∷ [])
      first_reader
      (b'a' ∷ 10 ∷ b'c' ∷ 10 ∷ [])
      false
    ≡ some (prompts ∷ evaluates (b'a' ∷ 10 ∷ []) ∷ prompts ∷ reports ∷ [])
unfolding main_loop
failure_test = refl

-- An interruption loses the bytes that are already read.
lost_test :
    main_loop 9 (λ l. true) true (interrupts 1 ∷ []) first_reader (b'a' ∷ b'b' ∷ 10 ∷ []) false
    ≡ some (evaluates (b'b' ∷ 10 ∷ []) ∷ [])
unfolding main_loop
lost_test = refl

-- A line that ends the shell is the last.
ending_test :
    main_loop 9 (λ l. false) true [] first_reader (b'a' ∷ 10 ∷ b'b' ∷ 10 ∷ []) false
    ≡ some (evaluates (b'a' ∷ 10 ∷ []) ∷ [])
unfolding main_loop
ending_test = refl

a_IsText : IsText (b'a' ∷ [])
a_IsText = text_behind b'a' [] refl refl nil_text

b_IsText : IsText (b'b' ∷ [])
b_IsText = text_behind b'b' [] refl refl nil_text

main_loop-print_lines_example :
    Evaluates
      (main_loop 6
        (λ l. true)
        false
        (interrupts 0 ∷ reads ∷ [])
        first_reader
        (print_lines ((b'a' ∷ []) ∷ []) (b'b' ∷ []))
        false)
      (map ended_line ((b'a' ∷ []) ∷ []))
unfolding print_lines
main_loop-print_lines_example =
    main_loop-print_lines (λ l. true) false (interrupts 0 ∷ reads ∷ []) ((b'a' ∷ []) ∷ [])
      (b'b' ∷ []) (interrupting (reads ∷ []) (reading [] no_calls))
      (line_behind (b'a' ∷ []) [] (record { is_text = a_IsText; fits = omega arith }) no_lines)
      (stay_behind (b'a' ∷ []) [] refl none_stays)
      (record { is_text = b_IsText; fits = omega arith })
