-- ===== src/Shell/Main/Lines.antt =====
-- The lines that the loop of `main` runs.
use cs61_f16_psets_team_md.Base.{
  ℕ, zero, suc, ◌-◌, ◌<◌, ◌≡◌, refl, ap, arith, tests, Bool, true, false, ◌||◌, if◌then◌else◌, ◌==◌,
  some, List, [], ◌∷◌, ◌++◌, Bytes, length, is_empty,
}
use cs61_f16_psets_team_md.Shell.Main.{
  bufsiz, newline, Call, reads, interrupts, fgets, until_nul, ends_line, Reader, Turn, prompts,
  evaluates, reports, Turns, turn, MainLoop, is_complete, line_end, got_text, first_reader,
}

-- Bytes without a newline and a NUL.
pub data IsText : Bytes → Type 0 where
  nil_text : IsText []
  text_behind :
      (c : ℕ) (cs : Bytes) → (c == newline) ≡ false → (c == 0) ≡ false → IsText cs → IsText (c ∷ cs)

-- A text that fits in the buffer with its newline and a NUL.
pub record IsLine (l : Bytes) : Type 0 where
  pub is_text : IsText l
  pub fits : length l < bufsiz - 1

pub data AllLines : List Bytes → Type 0 where
  no_lines : AllLines []
  line_behind : (l : Bytes) (ls : List Bytes) → IsLine l → AllLines ls → AllLines (l ∷ ls)

abbrev pub ended_line : Bytes → Bytes
ended_line l = l ++ newline ∷ []

-- A file of lines, and what follows its last newline.
unfoldable pub print_lines : List Bytes → Bytes → Bytes
print_lines [] last = last
print_lines (l ∷ ls) last = l ++ newline ∷ print_lines ls last

-- Calls that read, or are interrupted before they have taken a byte.
pub data NoFailure : List Call → Type 0 where
  no_calls : NoFailure []
  reading : (calls : List Call) → NoFailure calls → NoFailure (reads ∷ calls)
  interrupting : (calls : List Call) → NoFailure calls → NoFailure (interrupts 0 ∷ calls)

-- Lines behind which `eval_line` returns.
pub data AllStay (stays : Bytes → Bool) : List Bytes → Type 0 where
  none_stays : AllStay stays []
  stay_behind :
      (l : Bytes) (ls : List Bytes)
      → stays (l ++ newline ∷ []) ≡ true
      → AllStay stays ls
      → AllStay stays (l ∷ ls)

unfoldable pub evaluated : List Turn → List Bytes
evaluated [] = []
evaluated (prompts ∷ ts) = evaluated ts
evaluated (reports ∷ ts) = evaluated ts
evaluated (evaluates l ∷ ts) = l ∷ evaluated ts

pub fgets-line :
    (n : ℕ) (l rest : Bytes)
    → IsText l
    → length l < n
    → fgets n (l ++ newline ∷ rest) ≡ record { text = ended_line l; rest = rest; at_end = false }
unfolding fgets
fgets-line zero l rest t lt = absurd (omega (arith, lt))
fgets-line (suc n) _ rest nil_text lt = refl
fgets-line (suc n) _ rest (text_behind c cs e z t) lt =
    rw (e, fgets-line n cs rest t (omega (arith, lt))) refl

pub fgets-last :
    (n : ℕ) (l : Bytes)
    → IsText l
    → length l < n
    → fgets n l ≡ record { text = l; rest = []; at_end = true }
unfolding fgets
fgets-last zero l t lt = absurd (omega (arith, lt))
fgets-last (suc n) _ nil_text lt = refl
fgets-last (suc n) _ (text_behind c cs e z t) lt =
    rw (e, fgets-last n cs t (omega (arith, lt))) refl

until_nul-line : (l : Bytes) → IsText l → until_nul (ended_line l) ≡ ended_line l
unfolding until_nul
until_nul-line _ nil_text = refl
until_nul-line _ (text_behind c cs e z t) = rw (z, until_nul-line cs t) refl

until_nul-text : (l : Bytes) → IsText l → until_nul l ≡ l
unfolding until_nul
until_nul-text _ nil_text = refl
until_nul-text _ (text_behind c cs e z t) = rw (z, until_nul-text cs t) refl

ends_line-line : (l : Bytes) → ends_line (ended_line l) ≡ true
unfolding ends_line
ends_line-line [] = refl
ends_line-line (c ∷ []) = refl
ends_line-line (c ∷ d ∷ cs) = ends_line-line (d ∷ cs)

ends_line-text : (l : Bytes) → IsText l → ends_line l ≡ false
unfolding ends_line
ends_line-text _ nil_text = refl
ends_line-text _ (text_behind c _ e z nil_text) = e
ends_line-text _ (text_behind c _ e z (text_behind d cs e' z' t)) =
    ends_line-text (d ∷ cs) (text_behind d cs e' z' t)

ended_line-nonempty : (l : Bytes) → is_empty (ended_line l) ≡ false
ended_line-nonempty [] = refl
ended_line-nonempty (c ∷ cs) = refl

or_true : (b : Bool) → (b || true) ≡ true
or_true true = refl
or_true false = refl

is_complete-line : (l : Bytes) → is_complete (ended_line l) ≡ true
is_complete-line l =
    rw (ended_line-nonempty l, ends_line-line l) (or_true (length (ended_line l) == bufsiz - 1))

is_complete-text :
    (c : ℕ) (cs : Bytes)
    → IsText (c ∷ cs)
    → length (c ∷ cs) < bufsiz - 1
    → is_complete (c ∷ cs) ≡ false
is_complete-text c cs t lt =
    let fits : (length (c ∷ cs) == bufsiz - 1) ≡ false = grind (tests, lt) in
    rw (fits, ends_line-text (c ∷ cs) t) refl

-- Where the loop stops, with the lines that it has run.
pub record Evaluates (t : Turns) (ls : List Bytes) : Type 0 where
  pub turns : List Turn
  pub result : t ≡ some turns
  pub lines : evaluated turns ≡ ls

pub Evaluates-stops : Evaluates (some []) []
unfolding evaluated
Evaluates-stops = record { turns = []; result = refl; lines = refl }

pub Evaluates-prompts :
    (t : Turns) (ls : List Bytes) → Evaluates t ls → Evaluates (turn prompts t) ls
unfolding evaluated
Evaluates-prompts t ls r = record {
  turns = prompts ∷ r.turns;
  result = ap (turn prompts) r.result;
  lines = r.lines;
}

pub Evaluates-line :
    (t : Turns) (l : Bytes) (ls : List Bytes)
    → Evaluates t ls
    → Evaluates (turn (evaluates l) t) (l ∷ ls)
unfolding evaluated
Evaluates-line t l ls r = record {
  turns = evaluates l ∷ r.turns;
  result = ap (turn (evaluates l)) r.result;
  lines = ap (◌∷◌ l) r.lines;
}

abbrev pub at_start : Bool → Reader
at_start needprompt = record { kept = []; needprompt = needprompt }

-- A line is run, and what follows the last one is kept.
pub got_text-line :
    (stays : Bytes → Bool) (loop : MainLoop) (calls : List Call) (b : Bool) (l rest : Bytes)
    → IsText l
    → stays (ended_line l) ≡ true
    → got_text stays loop calls
        (at_start b)
        (record { text = ended_line l; rest = rest; at_end = false })
      ≡ turn (evaluates (ended_line l)) (loop calls first_reader rest false)
unfolding got_text line_end
got_text-line stays loop calls b l rest t ok =
    rw (ended_line-nonempty l, until_nul-line l t, ok)
      (ap
        (λ x.
          if x
          then turn (evaluates (ended_line l)) (loop calls first_reader rest false)
          else loop calls (record { kept = ended_line l; needprompt = b }) rest false)
        (is_complete-line l))

pub got_text-last :
    (stays : Bytes → Bool) (loop : MainLoop) (calls : List Call) (b : Bool) (c : ℕ) (cs : Bytes)
    → IsText (c ∷ cs)
    → length (c ∷ cs) < bufsiz - 1
    → got_text stays loop calls (at_start b) (record { text = c ∷ cs; rest = []; at_end = true })
      ≡ loop calls (record { kept = c ∷ cs; needprompt = b }) [] true
unfolding got_text line_end
got_text-last stays loop calls b c cs t lt = rw (until_nul-text (c ∷ cs) t) (
    ap
      (λ x.
        if x
        then turn (evaluates (c ∷ cs))
            (if stays (c ∷ cs) then loop calls first_reader [] true else some [])
        else loop calls (record { kept = c ∷ cs; needprompt = b }) [] true)
      (is_complete-text c cs t lt))
