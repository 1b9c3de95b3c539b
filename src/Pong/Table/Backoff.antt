-- ===== src/Pong/Table/Backoff.antt =====
-- The waits and the writes of pset6/pong61.c.
use cs61_f16_psets_team_md.Base.{
  ℕ, zero, suc, ◌+◌, ◌-◌, ◌^◌, ◌≤◌, ◌≡◌, refl, arith, tests, Bool, true, false, leb, ◌==◌, List, [],
  ◌∷◌, All,
}
use native.Mathlib.Nat.{pow-suc}
use cs61_f16_psets_team_md.Pong.Response.{Connection, clear_response}
use cs61_f16_psets_team_md.Pong.Table.{
  retry_seconds, WriteResult, wrote, again, failed, sent, write_loop,
}

sixteen : (k : ℕ) → 16 ≤ 2 ^ suc (suc (suc (suc k)))
sixteen zero = omega arith
sixteen (suc k) = omega (arith, sixteen k, pow-suc 2 (suc (suc (suc (suc k)))))

-- A retry waits at most 128 seconds; and though the source asks for a wait that doubles from a
-- tenth of a second on, the first three retries do not wait, and all others do.
pub retry_seconds_lem :
    (count : ℕ)
    → 1 ≤ count
    → (retry_seconds count ≤ 128) × ((retry_seconds count == 0) ≡ leb count 3)
unfolding retry_seconds
retry_seconds_lem zero h = absurd (omega (arith, h))
retry_seconds_lem (suc zero) h = (omega arith, refl)
retry_seconds_lem (suc (suc zero)) h = (omega arith, refl)
retry_seconds_lem (suc (suc (suc zero))) h = (omega arith, refl)
retry_seconds_lem (suc (suc (suc (suc k)))) h = grind (tests, sixteen k)

-- How many bytes the results of write(2) took.
abbrev pub taken : List WriteResult → ℕ
taken [] = 0
taken (wrote n ∷ ws) = n + taken ws
taken (r ∷ ws) = taken ws

-- A write that took bytes, or none yet.
abbrev pub is_progress : WriteResult → Bool
is_progress (wrote zero) = false
is_progress (wrote (suc n)) = true
is_progress again = true
is_progress failed = false

-- Writes that take some bytes each, or are interrupted, send a request as soon as they took all of
-- its bytes, and the connection then waits for a response.
pub write_loop-sent :
    (c : Connection) (size : ℕ) (ws : List WriteResult)
    → All (λ w. is_progress w ≡ true) ws
    → size ≤ taken ws
    → write_loop c size ws ≡ sent (clear_response c)
unfolding write_loop
write_loop-sent c zero ws p h = refl
write_loop-sent c (suc n) [] p h = absurd (omega (arith, h))
write_loop-sent c (suc n) (wrote zero ∷ ws) p h = absurd (grind (tests, p))
write_loop-sent c (suc n) (wrote (suc m) ∷ ws) p h =
    write_loop-sent c (n - m) ws p.1 (omega (arith, h))
write_loop-sent c (suc n) (again ∷ ws) p h = write_loop-sent c (suc n) ws p.1 h
write_loop-sent c (suc n) (failed ∷ ws) p h = absurd (grind (tests, p))
