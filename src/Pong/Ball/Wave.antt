-- ===== src/Pong/Ball/Wave.antt =====
-- The ball of pset6/pong61.c goes to and fro between the edges.
use cs61_f16_psets_team_md.Base.{
  ℕ, zero, suc, ◌-◌, ◌*◌, ◌≤◌, ◌<◌, ◌≡◌, ◌⊎◌, inl, inr, refl, ◌∙◌, ap, ap₂, Bool-cases, arith,
  tests, ltb, ◌==◌, if◌then◌else◌, pos, negsuc, ◌+ℤ◌, neg,
}
use cs61_f16_psets_team_md.Pong.Ball.{Axis, update_axis, update_position, play}

-- How many rounds the way to the far edge and back takes.
abbrev pub period : ℕ → ℕ
period size = 2 * (size - 1)

-- The time within that way, as a clock that `period` resets.
abbrev pub clock : ℕ → ℕ → ℕ
clock size zero = 0
clock size (suc n) = let t = clock size n in if suc t == period size then 0 else suc t

-- The triangular wave.
abbrev pub wave : ℕ → ℕ → ℕ
wave size t = if ltb t size then t else period size - t

-- An axis at the time `t`. The step at the near edge is the one of the way back, or of the start.
pub record Tracks (size t : ℕ) (a : Axis) : Type 0 where
  pub at : a.place ≡ pos (wave size t)
  pub up : 0 < t → t < size → a.step ≡ pos 1
  pub down : size ≤ t → a.step ≡ negsuc 0
  pub edge : t ≡ 0 → (a.step ≡ pos 1) ⊎ (a.step ≡ negsuc 0)

-- A round that moves up, or turns back behind the far edge.
rise :
    (size p : ℕ)
    → 2 ≤ size
    → p < size
    → update_axis size (record { place = pos p; step = pos 1 }) ≡ (
        if suc p == size
        then record { place = pos (size - 2); step = negsuc 0 }
        else record { place = pos (suc p); step = pos 1 })
unfolding update_axis ◌+ℤ◌ neg
rise size p h lt = ground arith

-- A round that moves down, or turns back before the near edge.
fall :
    (size p : ℕ)
    → 2 ≤ size
    → p < size
    → update_axis size (record { place = pos p; step = negsuc 0 }) ≡ (
        if p == 0
        then record { place = pos 1; step = pos 1 }
        else record { place = pos (p - 1); step = negsuc 0 })
unfolding update_axis ◌+ℤ◌ neg
fall size p h lt = ground arith

abbrev tick : ℕ → ℕ → ℕ
tick size t = if suc t == period size then 0 else suc t

Tracks-rise :
    (size t : ℕ) (a : Axis)
    → 2 ≤ size
    → t < size
    → a.place ≡ pos t
    → a.step ≡ pos 1
    → Tracks size (tick size t) (update_axis size a)
Tracks-rise size t a h lt e e' =
    let next : update_axis size a ≡ update_axis size (record { place = pos t; step = pos 1 }) =
      ap₂ (λ p s. update_axis size (record { place = p; step = s })) e e' in
    rw (next, rise size t h lt)
      (elim (Bool-cases (suc t == size)) [
        | inl f ↦ rw f (record {
          at = ap pos (grind (tests, f, h));
          up = λ a b. absurd (grind (tests, f, h, a, b));
          down = λ b. refl;
          edge = λ b. inr refl;
        })
        | inr f ↦ rw f (record {
          at = ap pos (grind (tests, f, h, lt));
          up = λ a b. refl;
          down = λ b. absurd (grind (tests, f, h, lt, b));
          edge = λ b. inl refl;
        })
      ])

Tracks-fall :
    (size t p : ℕ) (a : Axis)
    → 2 ≤ size
    → t < period size
    → ((t ≡ 0) × (p ≡ 0)) ⊎ ((size ≤ t) × (p ≡ period size - t))
    → a.place ≡ pos p
    → a.step ≡ negsuc 0
    → Tracks size (tick size t) (update_axis size a)
Tracks-fall size t p a h lt where_it_is e e' =
    let next : update_axis size a ≡ update_axis size (record { place = pos p; step = negsuc 0 }) =
      ap₂ (λ q s. update_axis size (record { place = q; step = s })) e e' in
    let low : p < size = grind (tests, h, lt, where_it_is) in
    rw (next, fall size p h low)
      (elim (Bool-cases (p == 0)) [
        | inl f ↦ rw f (record {
          at = ap pos (grind (tests, f, h, lt, where_it_is));
          up = λ a b. refl;
          down = λ b. absurd (grind (tests, f, h, lt, where_it_is, b));
          edge = λ b. inl refl;
        })
        | inr f ↦ rw f (record {
          at = ap pos (grind (tests, f, h, lt, where_it_is));
          up = λ a b. absurd (grind (tests, f, h, lt, where_it_is, a, b));
          down = λ b. refl;
          edge = λ b. inr refl;
        })
      ])

update_axis-Tracks :
    (size t : ℕ) (a : Axis)
    → 2 ≤ size
    → t < period size
    → Tracks size t a
    → Tracks size (tick size t) (update_axis size a)
update_axis-Tracks size zero a h lt c = elim (c.edge refl) [
  | inl e ↦ Tracks-rise size 0 a h (omega (arith, h)) (c.at ∙ ap pos (grind (tests, h))) e
  | inr e ↦ Tracks-fall size 0 0 a h lt (inl (refl, refl)) (c.at ∙ ap pos (grind (tests, h))) e
]
update_axis-Tracks size (suc t) a h lt c = elim (Bool-cases (ltb (suc t) size)) [
  | inl e ↦
      let below : suc t < size = grind (tests, e) in
      Tracks-rise size (suc t) a h below (c.at ∙ ap pos (grind (tests, below)))
        (c.up (omega arith) below)
  | inr e ↦
      let above : size ≤ suc t = grind (tests, e) in
      Tracks-fall size (suc t) (period size - suc t) a h lt (inr (above, refl))
        (c.at ∙ ap pos (grind (tests, above))) (c.down above)
]

clock-period : (size n : ℕ) → 2 ≤ size → clock size n < period size
clock-period size zero h = omega (arith, h)
clock-period size (suc n) h = grind (tests, clock-period size n h)

-- The place on the wave is on the board.
wave_below : (size t : ℕ) → 2 ≤ size → t < period size → wave size t < size
wave_below size t h lt = grind (tests, h, lt)

Tracks-start : (size : ℕ) → 2 ≤ size → Tracks size 0 (record { place = pos 0; step = pos 1 })
Tracks-start size h = record {
  at = ap pos (grind (tests, h));
  up = λ a b. refl;
  down = λ b. absurd (omega (arith, h, b));
  edge = λ b. inl refl;
}

play-Tracks :
    (width height n : ℕ)
    → 2 ≤ width
    → 2 ≤ height
    → Tracks width (clock width n) (play width height n).x_axis
      × Tracks height (clock height n) (play width height n).y_axis
unfolding play update_position
play-Tracks width height zero w h = (Tracks-start width w, Tracks-start height h)
play-Tracks width height (suc n) w h =
    let (x, y) = play-Tracks width height n w h in
    (
      update_axis-Tracks width (clock width n) _ w (clock-period width n w) x,
      update_axis-Tracks height (clock height n) _ h (clock-period height n h) y,
    )

-- On a board of two columns and two rows at least, the ball of the main loop follows a triangular
-- wave in each direction, and after every round it is on the board.
pub play-wave :
    (width height n : ℕ)
    → 2 ≤ width
    → 2 ≤ height
    → ((play width height n).x_axis.place ≡ pos (wave width (clock width n)))
      × ((play width height n).y_axis.place ≡ pos (wave height (clock height n)))
      × (wave width (clock width n) < width)
      × (wave height (clock height n) < height)
play-wave width height n w h =
    let (x, y) = play-Tracks width height n w h in
    (
      x.at,
      y.at,
      wave_below width (clock width n) w (clock-period width n w),
      wave_below height (clock height n) h (clock-period height n h),
    )
