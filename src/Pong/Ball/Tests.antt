-- ===== src/Pong/Ball/Tests.antt =====
-- The ball on a board of three columns and two rows, and on one of a single column.
use cs61_f16_psets_team_md.Base.{◌≡◌, ◌<◌, refl, arith, pos, negsuc}
use cs61_f16_psets_team_md.Pong.Ball.{play, update_axis, start}
use cs61_f16_psets_team_md.Pong.Ball.Wave.{wave, clock, play-wave}

play-wave_example :
    ((play 3 2 7).x_axis.place ≡ pos 1)
    × ((play 3 2 7).y_axis.place ≡ pos 1)
    × (wave 3 (clock 3 7) < 3)
    × (wave 2 (clock 2 7) < 2)
play-wave_example = play-wave 3 2 7 (omega arith) (omega arith)

-- A single column: the ball leaves the board at once.
single_column : (update_axis 1 start.x_axis).place ≡ negsuc 0
unfolding update_axis
single_column = refl
