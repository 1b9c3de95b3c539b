-- ===== src/Malloc/HeavyHitters/Tests.antt =====
-- Runs of the sampling, and the theorem on `heavy` at two used entries of three.
use mathlib.Core.List.{Perm}
use cs61_f16_psets_team_md.Base.{ℕ, ◌≡◌, refl, arith, List, [], ◌∷◌, ◌++◌}
use cs61_f16_psets_team_md.Malloc.Block.{Metadata}
use cs61_f16_psets_team_md.Malloc.HeavyHitters.{heavy}
use cs61_f16_psets_team_md.Malloc.HeavyHitters.Sort.{IsSorted, heavy_lem}

abbrev sized : ℕ → Metadata
sized n = record {
  block_size = n;
  active = 0;
  address = 0;
  file = 0;
  line = 0;
  prev_ptr = 0;
  next_ptr = 0;
}

heavy-three : heavy (sized 1 ∷ sized 2 ∷ sized 3 ∷ []) 3 ≡ sized 3 ∷ sized 2 ∷ sized 1 ∷ []
unfolding heavy
heavy-three = refl

heavy_lem_example :
    (out : List Metadata) × (heavy (sized 1 ∷ sized 2 ∷ sized 3 ∷ []) 2 ≡ out ++ sized 3 ∷ [])
    × IsSorted out
    × Perm (sized 1 ∷ sized 2 ∷ []) out
heavy_lem_example = heavy_lem (sized 1 ∷ sized 2 ∷ []) (sized 3 ∷ []) (omega arith)
