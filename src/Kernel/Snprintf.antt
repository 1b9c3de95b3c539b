-- ===== src/Kernel/Snprintf.antt =====
-- `string_putc` and `vsnprintf` of pset4/lib.c. The buffer does not wrap around the end of memory,
-- and `size` is in the range of an `int`.
mod Buffer
mod Tests
use cs61_f16_psets_team_md.Base.{
  ℕ, zero, suc, ◌+◌, ◌-◌, if◌then◌else◌, ltb, ◌==◌, Option, none, some, List, [], ◌∷◌, Bytes,
  length, ℤ, pos, ◌>>=◌,
}
use cs61_f16_psets_team_md.Kernel.Memory.{Memory, store}
use cs61_f16_psets_team_md.Kernel.Format.{Arg}
use cs61_f16_psets_team_md.Kernel.Printf.{Printed, Output, prints, undefined, printer_vprintf}

unfoldable pub string_putc : Memory × ℕ → ℕ → ℕ → Memory × ℕ
unfolding store
string_putc (m, s) end c = if ltb s end then (store m s c, s + 1) else (m, s)

-- The calls of `string_putc` for one after another of the bytes printed.
unfoldable pub string_print : Memory × ℕ → ℕ → List Printed → Memory × ℕ
unfolding string_putc
string_print sp end [] = sp
string_print sp end (p ∷ ps) = string_print (string_putc sp end p.char) end ps

-- The NUL behind the bytes, and the result; `none` is undefined behaviour.
unfoldable pub finish_string : ℕ → Memory × ℕ → Memory × ℕ
unfolding store
finish_string s (m, s') = (store m s' 0, s' - s)

unfoldable pub string_output : Memory → ℕ → ℕ → Output → Option (Memory × ℕ)
unfolding string_print finish_string
string_output m s end undefined = none
string_output m s end (prints ps) = some (finish_string s (string_print (m, s) end ps))

-- The loop has a round for each byte of the format and one for its end; the outer `none` is a run
-- out of fuel.
unfoldable pub vsnprintf : Memory → ℕ → ℕ → Bytes → List Arg → Option (Option (Memory × ℕ))
unfolding string_output printer_vprintf
vsnprintf m s size format args =
    if size == 0
    then some (some (m, 0))
    else (printer_vprintf (length format + 1) (pos 0) format args
        >>= (λ o. some (string_output m s (s + size - 1) o)))
