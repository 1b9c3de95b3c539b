-- ===== src/Kernel/Memory/Tests.antt =====
-- Copies between areas that overlap, in a memory that has its address at each byte.
use cs61_f16_psets_team_md.Base.{◌≡◌}
use cs61_f16_psets_team_md.Kernel.Memory.{memmove}
use cs61_f16_psets_team_md.Kernel.Memory.Copy.{memmove-moved}

memmove-moved_example : memmove (λ p. p) 12 10 5 14 ≡ 12
memmove-moved_example = memmove-moved (λ p. p) 12 10 5 14
