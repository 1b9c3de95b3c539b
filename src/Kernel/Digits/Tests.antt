-- ===== src/Kernel/Digits/Tests.antt =====
-- The digits of a number in base 16.
use cs61_f16_psets_team_md.Base.{arith, true, []}
use cs61_f16_psets_team_md.Kernel.Digits.{fill_digits}
use cs61_f16_psets_team_md.Kernel.Digits.Value.{Digits, fill_digits-Digits}

fill_digits-Digits_example : Digits 16 0xbeef 16 [] (fill_digits 16 true 0xbeef 16 [])
fill_digits-Digits_example =
    fill_digits-Digits 16 true 0xbeef 16 [] (omega arith) (omega arith) (omega arith) (omega arith)
