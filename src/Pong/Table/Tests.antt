-- ===== src/Pong/Table/Tests.antt =====
-- A table with a broken connection, one in use and a finished one.
use cs61_f16_psets_team_md.Base.{ℕ, ◌+◌, refl, false, [], ◌∷◌, negsuc}
use cs61_f16_psets_team_md.Pong.Response.{HttpState, body, finished, broken, Connection}
use cs61_f16_psets_team_md.Pong.Table.{persistent_connect}
use cs61_f16_psets_team_md.Pong.Table.Reuse.{Reused, persistent_connect-Reused}

abbrev node : ℕ → HttpState → Connection
node fd state = record {
  fd = fd;
  state = state;
  status_code = negsuc 0;
  content_length = 0;
  has_content_length = false;
  eof = false;
  buf = [];
}

persistent_connect-Reused_example :
    Reused
      (λ n. n + 3)
      (node 0 body)
      (node 3 broken ∷ node 4 body ∷ [])
      (node 5 finished)
      (node 6 finished ∷ [])
      4
      (persistent_connect
        (λ n. n + 3)
        (node 0 body)
        (record {
          connections = node 3 broken ∷ node 4 body ∷ node 5 finished ∷ node 6 finished ∷ [];
          opened = 4;
        }))
persistent_connect-Reused_example =
    persistent_connect-Reused (λ n. n + 3) (node 0 body) (node 3 broken ∷ node 4 body ∷ [])
      (node 5 finished) (node 6 finished ∷ []) 4 (refl, (refl, tt)) refl
