-- ===== src/Malloc/HeavyHitters.antt =====
-- `heavy` of pset1/m61.c, the bubble sort of the heavy hitters, and the sampling in `m61_malloc`.
pub mod Sort
mod Tests
use cs61_f16_psets_team_md.Base.{
  ℕ, zero, suc, ◌+◌, ◌-◌, Bool, true, false, ◌&&◌, not, List, [], ◌∷◌, ltb, ◌==◌, if◌then◌else◌,
  set, get_or, map,
}
use cs61_f16_psets_team_md.Malloc.Block.{Metadata, add64}

-- The inner loop of `heavy`, `rounds` of it from the head of the list on.
unfoldable pub sink : ℕ → List Metadata → List Metadata
sink zero l = l
sink (suc rounds) [] = []
sink (suc rounds) (a ∷ []) = a ∷ []
sink (suc rounds) (a ∷ b ∷ l) =
    let swap = ltb a.block_size b.block_size in
    (if swap then b else a) ∷ sink rounds ((if swap then a else b) ∷ l)

-- The outer loop: `i` runs from 0 to `n - 2`, and the inner one takes `n - i - 1` rounds.
unfoldable pub sink_all : ℕ → List Metadata → List Metadata
unfolding sink
sink_all zero l = l
sink_all (suc rounds) l = sink_all rounds (sink (suc rounds) l)

unfoldable pub heavy : List Metadata → ℕ → List Metadata
unfolding sink_all
heavy array n = sink_all (n - 1) array

-- The globals of the sampling. `hitters` has the three entries of `heavy_hitters`.
pub record Sample : Type 0 where
  pub hitters : List Metadata
  pub hitters_size : ℕ
  pub sample_size : ℕ

abbrev pub same_site : Metadata → Metadata → Bool
same_site h m = h.file == m.file && h.line == m.line

-- The loop over the entries, with `heavy_hitter` as its second result.
unfoldable pub credit : Metadata → List Metadata → List Metadata × Bool
credit m [] = ([], false)
credit m (h ∷ hs) =
    let (rest, found) = credit m hs in
    if same_site h m
    then (record h { block_size = add64 h.block_size m.block_size } ∷ rest, true)
    else (h ∷ rest, found)

-- The sampling of `m61_malloc`, from `int heavy_hitter = 0` to the call of `heavy`.
unfoldable pub sample : Sample → Metadata → Sample
unfolding credit heavy
sample s m =
    let (hs, found) = credit m s.hitters in
    let grow = not found && ltb s.hitters_size 3 in
    let replace = not found && ltb (get_or (map (λ h. h.block_size) hs) 2 0) m.block_size in
    let hs' = if grow then set hs s.hitters_size m else if replace then set hs 2 m else hs in
    let n = if grow then s.hitters_size + 1 else s.hitters_size in
    record {
      hitters = heavy hs' n;
      hitters_size = n;
      sample_size = add64 s.sample_size m.block_size;
    }
