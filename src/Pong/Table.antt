-- ===== src/Pong/Table.antt =====
-- The connections of pset6/pong61.c: the table of `persistent_connect`, the loop of writes of
-- `http_send_request`, and the waiting times of `pong_thread`.
mod Reuse
mod Backoff
mod Tests
use mathlib.Core.Option
use cs61_f16_psets_team_md.Base.{
  ℕ, zero, suc, ◌+◌, ◌-◌, ◌/◌, ◌^◌, Bool, true, false, not, ◌||◌, negsuc, if◌then◌else◌, ltb, ◌==◌,
  Option, none, some, Bytes, List, [], ◌∷◌, length, take, drop, ◌++◌,
}
use cs61_f16_psets_team_md.Pong.Response.{
  HttpState, request, finished, broken, Connection, clear_response,
}

-- The table, and how many connections were opened. The nth call of `http_connect` returns the
-- socket `socket n`.
pub record Table : Type 0 where
  pub connections : List Connection
  pub opened : ℕ

-- `http_connect`. malloc leaves what it does not set, as in `memory`.
unfoldable pub http_connect : (ℕ → ℕ) → Connection → ℕ → Connection
http_connect socket memory opened = record memory {
  fd = socket opened;
  state = request;
  eof = false;
}

abbrev pub is_finished : HttpState → Bool
is_finished finished = true
is_finished s = false

abbrev pub is_broken : HttpState → Bool
is_broken broken = true
is_broken s = false

-- What the search of `persistent_connect` leaves: the nodes that it went past, and those from the
-- first one in `HTTP_DONE` on.
pub record Search : Type 0 where
  pub past : List Connection
  pub found : List Connection
  pub opened : ℕ

-- A node that is passed: a broken one gets a new connection.
unfoldable pub pass_node : (ℕ → ℕ) → Connection → Connection → ℕ → Connection × ℕ
unfolding http_connect
pass_node socket memory c opened =
    if is_broken c.state then (http_connect socket memory opened, opened + 1) else (c, opened)

unfoldable pub search_table : (ℕ → ℕ) → Connection → List Connection → ℕ → Search
unfolding pass_node
search_table socket memory [] opened = record { past = []; found = []; opened = opened }
search_table socket memory (c ∷ cs) opened =
    let (c', opened') = pass_node socket memory c opened in
    let rest = search_table socket memory cs opened' in
    if is_finished c.state
    then record { past = []; found = c ∷ cs; opened = opened }
    else record rest { past = c' ∷ rest.past }

-- `persistent_connect`: the connection returned, and the table behind the call. Where none is
-- found, `prev` is NULL, so that the table becomes the new node.
unfoldable pub connect_found : (ℕ → ℕ) → Connection → Search → Connection × Table
unfolding http_connect
connect_found socket memory s = elim s.found [
  | [] ↦
      let c = http_connect socket memory s.opened in
      (c, record { connections = c ∷ []; opened = s.opened + 1 })
  | c ∷ cs ↦ (c, record { connections = s.past ++ c ∷ cs; opened = s.opened })
]

unfoldable pub persistent_connect : (ℕ → ℕ) → Connection → Table → Connection × Table
unfolding search_table connect_found
persistent_connect socket memory t =
    connect_found socket memory (search_table socket memory t.connections t.opened)

-- A result of write(2): how many bytes it took; -1 with EINTR or EAGAIN; or another error.
pub data WriteResult : Type 0 where
  wrote : ℕ → WriteResult
  again : WriteResult
  failed : WriteResult

pub data Sent : Type 0 where
  sent : Connection → Sent
  exited : Sent
  waiting : Sent

-- The loop of `http_send_request` with `left` bytes to write, and what follows it.
unfoldable pub write_loop : Connection → ℕ → List WriteResult → Sent
unfolding clear_response
write_loop c zero ws = sent (clear_response c)
write_loop c (suc left) [] = waiting
write_loop c (suc left) (wrote zero ∷ ws) = exited
write_loop c (suc left) (wrote (suc n) ∷ ws) = write_loop c (left - n) ws
write_loop c (suc left) (again ∷ ws) = write_loop c (suc left) ws
write_loop c (suc left) (failed ∷ ws) = exited

-- Its assertion, and the request, of `size` bytes.
unfoldable pub http_send_request : Connection → ℕ → List WriteResult → Sent
unfolding write_loop
http_send_request c size ws = elim c.state [
  | request ↦ write_loop c size ws
  | finished ↦ write_loop c size ws
  | _ ↦ exited
]

-- `sleep(MIN(pow(2, count) * 0.1, 128))` in whole seconds, to which sleep(3) converts its argument;
-- the first wait is `sleep(0.1)`.
unfoldable pub retry_seconds : ℕ → ℕ
retry_seconds count = if count == 1 then 0 else if ltb (2 ^ count) 1280 then 2 ^ count / 10 else 128

-- `conn->state == HTTP_BROKEN || conn->status_code == -1`.
abbrev pub is_lost : Connection → Bool
is_lost c = is_broken c.state || elim c.status_code [ negsuc n ↦ n == 0 | _ ↦ false ]

-- The loop of `pong_thread` over the connections that the attempts leave, with the count of failed
-- ones: the connection that it goes on with, and the seconds that it waits before each attempt.
unfoldable pub retry : ℕ → List Connection → Option (Connection × List ℕ)
unfolding retry_seconds
retry count [] = none
retry count (c ∷ cs) =
    let rest = retry (count + 1) cs in
    if is_lost c
    then Option.map (λ r. (r.0, retry_seconds (count + 1) ∷ r.1)) rest
    else some (c, [])
