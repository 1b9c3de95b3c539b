-- ===== src/Shell/Main/Loop.antt =====
-- The rounds of the loop of `main` on a file of lines.
use cs61_f16_psets_team_md.Base.{
  ℕ, zero, suc, ◌+◌, ◌-◌, ◌≤◌, ◌<◌, ◌≡◌, refl, sym, ap, subst, ◌∙◌, arith, Bool, true, false, not,
  some, List, [], ◌∷◌, ◌++◌, Bytes, length, map, inl, inr, Bool-cases,
}
use cs61_f16_psets_team_md.Shell.Main.{
  bufsiz, newline, Call, reads, interrupts, fgets, Reader, MainLoop, line_end, got_text, read_line,
  main_round, main_loop, first_reader,
}
use cs61_f16_psets_team_md.Shell.Main.Lines.{
  IsLine, AllLines, ended_line, print_lines, NoFailure, fgets-line, fgets-last, Evaluates,
  Evaluates-stops, Evaluates-prompts, Evaluates-line, at_start, got_text-line, got_text-last,
  AllStay, stay_behind, nil_text, line_behind, no_calls, reading, interrupting,
}

-- The end of the file.
main_loop-end :
    (fuel : ℕ) (stays : Bytes → Bool) (quiet : Bool) (calls : List Call) (r : Reader)
    (input : Bytes)
    → main_loop (suc fuel) stays quiet calls r input true ≡ some []
unfolding main_loop main_round
main_loop-end fuel stays quiet calls r input = refl

shorter : (l rest : Bytes) → length rest < length (l ++ newline ∷ rest)
shorter [] rest = omega arith
shorter (c ∷ cs) rest = omega (arith, shorter cs rest)

module _ (stays : Bytes → Bool) (quiet : Bool) where
  round-Evaluates :
      (loop : MainLoop) (calls : List Call) (b : Bool) (input : Bytes) (ls : List Bytes)
      → ((b' : Bool) → Evaluates (read_line stays loop calls (at_start b') input) ls)
      → Evaluates (main_round stays quiet loop calls (at_start b) input false) ls
  unfolding main_round
  round-Evaluates loop calls true input ls h = elim (Bool-cases (not quiet)) [
    | inl e ↦ rw e (Evaluates-prompts _ ls (h false))
    | inr e ↦ rw e (h true)
  ]
  round-Evaluates loop calls false input ls h = h false

  -- A round that reads, where `ih` is the rest of the loop.
  reading-Evaluates :
      (fuel : ℕ) (calls : List Call) (b : Bool) (ls : List Bytes) (last : Bytes)
      → AllLines ls
      → AllStay stays ls
      → IsLine last
      → length (print_lines ls last) ≤ fuel
      → ((ls' : List Bytes)
          → AllLines ls'
          → AllStay stays ls'
          → length (print_lines ls' last) < length (print_lines ls last)
          → Evaluates
              (main_loop fuel stays quiet calls first_reader (print_lines ls' last) false)
              (map ended_line ls'))
      → Evaluates
          (got_text stays
            (main_loop fuel stays quiet)
            calls
            (at_start b)
            (fgets (bufsiz - 1) (print_lines ls last)))
          (map ended_line ls)
  unfolding print_lines got_text
  reading-Evaluates fuel calls b [] [] all st li lt ih =
      rw (fgets-last (bufsiz - 1) [] nil_text (omega arith)) Evaluates-stops
  reading-Evaluates zero calls b [] (c ∷ cs) all st li lt ih = absurd (omega (arith, lt))
  reading-Evaluates (suc fuel) calls b [] (c ∷ cs) all st li lt ih =
      let loop : MainLoop = main_loop (suc fuel) stays quiet in
      subst (λ t. Evaluates t [])
        (sym (
          ap (got_text stays loop calls (at_start b))
            (fgets-last (bufsiz - 1) (c ∷ cs) li.is_text (omega (arith, li.fits)))
          ∙ got_text-last stays loop calls b c cs li.is_text li.fits
          ∙ main_loop-end fuel stays quiet calls _ []))
        Evaluates-stops
  reading-Evaluates fuel calls b _ last (line_behind l ls li' all) (stay_behind _ _ ok st) li lt
        ih =
      let loop : MainLoop = main_loop fuel stays quiet in
      let rest = print_lines ls last in
      subst (λ t. Evaluates t (ended_line l ∷ map ended_line ls))
        (sym (
          ap (got_text stays loop calls (at_start b))
            (fgets-line (bufsiz - 1) l rest li'.is_text (omega (arith, li'.fits)))
          ∙ got_text-line stays loop calls b l rest li'.is_text ok))
        (Evaluates-line _ (ended_line l) _ (ih ls all st (shorter l rest)))

  main_loop-Evaluates :
      (fuel : ℕ) (calls : List Call) (b : Bool) (ls : List Bytes) (last : Bytes)
      → NoFailure calls
      → AllLines ls
      → AllStay stays ls
      → IsLine last
      → length calls + length (print_lines ls last) < fuel
      → Evaluates
          (main_loop fuel stays quiet calls (at_start b) (print_lines ls last) false)
          (map ended_line ls)
  unfolding main_loop read_line line_end
  main_loop-Evaluates zero calls b ls last ok all st li lt = absurd (omega (arith, lt))
  main_loop-Evaluates (suc fuel) _ b ls last no_calls all st li lt =
      round-Evaluates (main_loop fuel stays quiet) [] b (print_lines ls last) _ (λ b'.
        reading-Evaluates fuel [] b' ls last all st li (omega (arith, lt)) (λ ls' all' st' lt'.
          main_loop-Evaluates fuel [] true ls' last no_calls all' st' li (omega (arith, lt, lt'))))
  main_loop-Evaluates (suc fuel) _ b ls last (reading calls ok) all st li lt =
      round-Evaluates (main_loop fuel stays quiet) (reads ∷ calls) b (print_lines ls last) _ (λ b'.
        reading-Evaluates fuel calls b' ls last all st li (omega (arith, lt)) (λ ls' all' st' lt'.
          main_loop-Evaluates fuel calls true ls' last ok all' st' li (omega (arith, lt, lt'))))
  main_loop-Evaluates (suc fuel) _ b ls last (interrupting calls ok) all st li lt =
      round-Evaluates (main_loop fuel stays quiet) (interrupts 0 ∷ calls) b (print_lines ls last) _
        (λ b'. main_loop-Evaluates fuel calls b' ls last ok all st li (omega (arith, lt)))

-- Of a file of lines without NUL that fit in the buffer, and behind each of which `eval_line`
-- returns in this process, with no other process reading the file, `main` runs each once and in
-- order, with its newline, and stops, wherever its calls of `fgets` are interrupted before they
-- take a byte. What follows the last newline is not run.
pub main_loop-print_lines :
    (stays : Bytes → Bool) (quiet : Bool) (calls : List Call) (ls : List Bytes) (last : Bytes)
    → NoFailure calls
    → AllLines ls
    → AllStay stays ls
    → IsLine last
    → Evaluates
        (main_loop
          (length calls + length (print_lines ls last) + 1)
          stays
          quiet
          calls
          first_reader
          (print_lines ls last)
          false)
        (map ended_line ls)
main_loop-print_lines stays quiet calls ls last ok all st li =
    main_loop-Evaluates stays quiet (length calls + length (print_lines ls last) + 1) calls true ls
      last ok all st li (omega arith)
