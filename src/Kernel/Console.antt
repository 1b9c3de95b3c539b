-- ===== src/Kernel/Console.antt =====
-- `console_putc`, `console_vprintf` and `console_clear` of pset4/lib.c on the cells of memory from
-- the console's start on.
mod Bounds
mod Tests
use Prim.Native.Nat.{bit_or}
use cs61_f16_psets_team_md.Base.{
  ℕ, zero, suc, ◌+◌, ◌-◌, ◌*◌, ◌%◌, ◌^◌, Bool, not, ◌||◌, if◌then◌else◌, leb, ◌==◌, Option, none,
  some, List, [], ◌∷◌, Bytes, length, ℤ, pos, negsuc, pos_part, neg_part, ltb_ℤ, ◌>>=◌,
}
use cs61_f16_psets_team_md.Kernel.Format.{Arg}
use cs61_f16_psets_team_md.Kernel.Printf.{Printed, Output, prints, undefined, printer_vprintf}

-- CONSOLE_ROWS * CONSOLE_COLUMNS.
abbrev pub console_size : ℕ
console_size = 2000

abbrev pub Cells : Type 0
Cells = ℕ → ℕ

-- `*cp->cursor++ = c | color`, in 16 bits.
unfoldable pub color_bits : ℤ → ℕ
color_bits color = (pos_part color + 65535 * neg_part color) % 2 ^ 16

unfoldable pub put_cell : Cells × ℕ → ℕ → ℤ → Cells × ℕ
unfolding color_bits
put_cell (cells, cursor) c color =
    (λ q. if q == cursor then bit_or c (color_bits color) else cells q, cursor + 1)

-- The loop that blanks the rest of a row.
unfoldable pub put_spaces : ℕ → Cells × ℕ → ℤ → Cells × ℕ
unfolding put_cell
put_spaces zero cp color = cp
put_spaces (suc n) cp color = put_spaces n (put_cell cp b' ' color) color

unfoldable pub console_putc : Cells × ℕ → Printed → Cells × ℕ
unfolding put_spaces
console_putc (cells, cursor) p =
    let cursor' = if leb console_size cursor then 0 else cursor in
    if p.char == 10
    then put_spaces (80 - cursor' % 80) (cells, cursor') p.color
    else put_cell (cells, cursor') p.char p.color

unfoldable pub console_print : Cells × ℕ → List Printed → Cells × ℕ
unfolding console_putc
console_print cp [] = cp
console_print cp (p ∷ ps) = console_print (console_putc cp p) ps

-- `none` is undefined behaviour.
unfoldable pub console_output : Cells → ℕ → Output → Option (Cells × ℕ)
unfolding console_print
console_output cells cursor undefined = none
console_output cells cursor (prints ps) = some (console_print (cells, cursor) ps)

-- The cursor at which printing starts.
unfoldable pub console_start : ℤ → ℕ
console_start cpos =
    if ltb_ℤ cpos (pos 0) || not (ltb_ℤ cpos (pos console_size)) then 0 else pos_part cpos

-- The outer `none` is a run out of fuel.
unfoldable pub console_vprintf : Cells → ℤ → ℤ → Bytes → List Arg → Option (Option (Cells × ℕ))
unfolding console_output console_start printer_vprintf
console_vprintf cells cpos color format args =
    printer_vprintf (length format + 1) color format args
    >>= (λ o. some (console_output cells (console_start cpos) o))

-- The loop of `console_clear`, from the cell `i` on.
unfoldable pub clear_cells : ℕ → Cells → ℕ → Cells
clear_cells zero cells i = cells
clear_cells (suc left) cells i =
    clear_cells left (λ q. if q == i then bit_or b' ' 0x0700 else cells q) (i + 1)

-- The cells and `cursorpos`.
unfoldable pub console_clear : Cells → Cells × ℕ
unfolding clear_cells
console_clear cells = (clear_cells console_size cells 0, 0)
