-- ===== src/Kernel/Snprintf/Tests.antt =====
-- A line of two numbers and a string, printed into a buffer of 16 bytes and of none.
use cs61_f16_psets_team_md.Base.{◌≡◌, refl, some, Bytes, [], ◌∷◌, List, pos, negsuc, take, map}
use cs61_f16_psets_team_md.Kernel.Memory.{Memory}
use cs61_f16_psets_team_md.Kernel.Format.{Arg, signed, unsigned}
use cs61_f16_psets_team_md.Kernel.Printf.{prints, printer_vprintf}

abbrev blank : Memory
blank q = 255

-- "%-4d|%#06x"
abbrev format : Bytes
format = b'%' ∷ b'-' ∷ b'4' ∷ b'd' ∷ b'|' ∷ b'%' ∷ b'#' ∷ b'0' ∷ b'6' ∷ b'x' ∷ []

abbrev args : List Arg
args = signed (negsuc 6) ∷ unsigned 0xab ∷ []

-- "-7  |0x00ab"
printer_vprintf_test :
    printer_vprintf 12 (pos 0) format args
    ≡ some (
        prints (
          map
            (λ c. record { char = c; color = pos 0 })
            (b'-' ∷ b'7' ∷ b' ' ∷ b' ' ∷ b'|' ∷ b'0' ∷ b'x' ∷ b'0' ∷ b'0' ∷ b'a' ∷ b'b' ∷ [])))
unfolding printer_vprintf cs61_f16_psets_team_md.Base.◌+ℤ◌ cs61_f16_psets_team_md.Base.neg
printer_vprintf_test = refl
