-- ===== src/Kernel/Console/Bounds.antt =====
-- Printing stays on the console.
use cs61_f16_psets_team_md.Base.{ℕ, ◌≤◌, ◌≡◌, Option, none, some, List}
use cs61_f16_psets_team_md.Kernel.Printf.{Printed, Output, prints, undefined}
use cs61_f16_psets_team_md.Kernel.Console.{console_size, Cells}

-- The cursor has not left the console, and no cell behind it has changed.
pub record OnConsole (cells : Cells) (cp : Cells × ℕ) : Type 0 where
  pub inside : cp.1 ≤ console_size
  pub kept : (q : ℕ) → console_size ≤ q → cp.0 q ≡ cells q

-- A call that returns the cells and the cursor behind its output, unless its arguments are
-- undefined behaviour.
pub data ConsolePrinted (cells : Cells) : Option Output → Option (Option (Cells × ℕ)) → Type 0 where
  unknown : ConsolePrinted cells (some undefined) (some none)
  printed :
      (ps : List Printed) (cells' : Cells) (cursor : ℕ)
      → OnConsole cells (cells', cursor)
      → ConsolePrinted cells (some (prints ps)) (some (some (cells', cursor)))
