-- ===== src/Kernel/Console/Tests.antt =====
-- A line that ends a row in the middle of the console.
use cs61_f16_psets_team_md.Base.{Bytes, [], ◌∷◌}
use cs61_f16_psets_team_md.Kernel.Console.{Cells}

abbrev blank : Cells
blank q = 0x0720

-- "%d" and a newline.
abbrev format : Bytes
format = b'%' ∷ b'd' ∷ 10 ∷ []
