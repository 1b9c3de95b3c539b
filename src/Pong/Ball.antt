-- ===== src/Pong/Ball.antt =====
-- The position of the ball in `main` of pset6/pong61.c.
mod Wave
mod Tests
use cs61_f16_psets_team_md.Base.{
  ℕ, zero, suc, Bool, ◌||◌, not, if◌then◌else◌, ℤ, pos, negsuc, ◌+ℤ◌, neg, ltb_ℤ,
}

-- A coordinate and its step: `x` and `dx`, or `y` and `dy`.
pub record Axis : Type 0 where
  pub place : ℤ
  pub step : ℤ

pub record Ball : Type 0 where
  pub x_axis : Axis
  pub y_axis : Axis

abbrev pub start : Ball
start = record {
  x_axis = record { place = pos 0; step = pos 1 };
  y_axis = record { place = pos 0; step = pos 1 };
}

-- `x += dx`, and the test of the board's edges; `size` is `width` or `height`.
unfoldable pub update_axis : ℕ → Axis → Axis
unfolding ◌+ℤ◌ neg
update_axis size a =
    let x = a.place +ℤ a.step in
    let dx = neg a.step in
    if ltb_ℤ x (pos 0) || not (ltb_ℤ x (pos size))
    then record { place = x +ℤ (dx +ℤ dx); step = dx }
    else record { place = x; step = a.step }

unfoldable pub update_position : ℕ → ℕ → Ball → Ball
unfolding update_axis
update_position width height b = record {
  x_axis = update_axis width b.x_axis;
  y_axis = update_axis height b.y_axis;
}

-- The ball after `n` rounds of the loop.
unfoldable pub play : ℕ → ℕ → ℕ → Ball
unfolding update_position
play width height zero = start
play width height (suc n) = update_position width height (play width height n)
