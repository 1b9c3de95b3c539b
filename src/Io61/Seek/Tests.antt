-- ===== src/Io61/Seek/Tests.antt =====
-- A seek to the fourth byte of a file, and a read behind it.
use cs61_f16_psets_team_md.Base.{ℕ, ◌+◌, ◌≡◌, refl, some, [], ◌∷◌, length, drop}
use cs61_f16_psets_team_md.Io61.System.{IoFile}
use cs61_f16_psets_team_md.Io61.Read.{io61_read}
use cs61_f16_psets_team_md.Io61.Read.Cache.{Took}
use cs61_f16_psets_team_md.Io61.Read.Tests.{regular, readable, five, opened, opened-IsCache}
use cs61_f16_psets_team_md.Io61.Write.{returned}
use cs61_f16_psets_team_md.Io61.Seek.{io61_seek}
use cs61_f16_psets_team_md.Io61.Seek.Exact.{io61_read-io61_seek}

io61_read-io61_seek_example :
    (f' : IoFile ℕ) × (io61_seek 0 (regular five) opened 3 ≡ returned (some 0) f')
    × Took five
        (λ o. drop o five)
        (40 ∷ 50 ∷ [])
        5
        (io61_read (10 + length (drop f'.file five) + 1) (regular five) f' 10)
io61_read-io61_seek_example =
    io61_read-io61_seek (regular five) five (readable five) opened 3 10 refl opened-IsCache
