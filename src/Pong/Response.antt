-- ===== src/Pong/Response.antt =====
-- The responses of the server in pset6/pong61.c: `http_process_response_headers`,
-- `http_check_response_body`, and the loops that read and call them. The C library's sscanf and
-- strtoul on a line are parameters, and the results of read(2) a list. `buf` is a list without
-- the bound BUFSIZ, and without the NUL that is stored behind it.
pub mod Headers
pub mod Receive
pub mod Body
mod Tests
use cs61_f16_psets_team_md.Base.{
  ℕ, zero, suc, ◌+◌, ◌≤◌, Bool, true, false, not, ◌&&◌, ◌||◌, if◌then◌else◌, leb, ◌==◌, Option,
  none, some, Bytes, List, [], ◌∷◌, ◌++◌, length, take, drop, peek, is_empty, ℤ, pos, negsuc, ltb_ℤ,
}

-- `http_connection::state`.
pub data HttpState : Type 0 where
  request initial headers body finished closed broken : HttpState

-- `buf` has the `len` bytes of the buffer.
pub record Connection : Type 0 where
  pub fd : ℕ
  pub state : HttpState
  pub status_code : ℤ
  pub content_length : ℕ
  pub has_content_length : Bool
  pub eof : Bool
  pub buf : Bytes

-- `sscanf(line, "HTTP/1.%d %d", ...)`: the second number, or `none` if it does not find two; and
-- `strtoul(text, NULL, 0)`.
pub record Scanner : Type 0 where
  pub scan_status : Bytes → Option ℤ
  pub strtoul : Bytes → ℕ

-- `state < 0`.
abbrev pub is_over : HttpState → Bool
is_over finished = true
is_over closed = true
is_over broken = true
is_over s = false

abbrev pub in_headers : HttpState → Bool
in_headers initial = true
in_headers headers = true
in_headers s = false

abbrev pub in_body : HttpState → Bool
in_body body = true
in_body s = false

-- The end of `http_send_request`, which clears the response.
unfoldable pub clear_response : Connection → Connection
clear_response c = record c {
  state = initial;
  status_code = negsuc 0;
  content_length = 0;
  has_content_length = false;
  buf = [];
}

abbrev pub content_length_name : Bytes
content_length_name =
    b'C' ∷ b'o' ∷ b'n' ∷ b't' ∷ b'e' ∷ b'n' ∷ b't' ∷ b'-' ∷ b'L' ∷ b'e' ∷ b'n' ∷ b'g' ∷ b't' ∷ b'h'
    ∷ b':' ∷ b' ' ∷ []

-- `strncmp(a, b, length b) == 0`.
unfoldable pub starts_with : Bytes → Bytes → Bool
starts_with a [] = true
starts_with [] (y ∷ ys) = false
starts_with (x ∷ xs) (y ∷ ys) = x == y && starts_with xs ys

unfoldable pub status_line : Scanner → Connection → Bytes → Connection
status_line sc c line = elim (sc.scan_status line) [
  | none ↦ record c { state = broken }
  | some code ↦ record c { state = headers; status_code = code }
]

-- What the loop does with a line that ends at CRLF, by the state.
unfoldable pub take_line : Scanner → Connection → Bytes → Connection
unfolding status_line starts_with
take_line sc c line = elim c.state [
  | initial ↦ status_line sc c line
  | _ ↦
      if is_empty line
      then record c { state = body }
      else if starts_with line content_length_name
      then record c { content_length = sc.strtoul (drop 16 line); has_content_length = true }
      else c
]

-- A round of the loop on the bytes `a` and `b` at `i` and `i + 1`, where `more` is the loop at
-- `i + 1` and `again` the loop behind the line.
unfoldable pub header_round :
    Scanner
    → Connection
    → Bytes
    → ℕ
    → ℕ
    → Bytes
    → (Bytes → Connection)
    → (Connection → Connection)
    → Connection
unfolding take_line
header_round sc c before a b rest more again =
    if not (in_headers c.state)
    then record c { buf = before ++ a ∷ b ∷ rest }
    else if a == 13 && b == 10
    then again (take_line sc c before)
    else more (before ++ a ∷ [])

-- The loop, with the bytes of the buffer before `i` and from `i` on.
unfoldable pub header_loop : Scanner → Connection → Bytes → Bytes → Connection
unfolding header_round
header_loop sc c before [] = record c { buf = before }
header_loop sc c before (a ∷ []) = record c { buf = before ++ a ∷ [] }
header_loop sc c before (a ∷ b ∷ rest) =
    header_round sc c before a b rest (λ before'. header_loop sc c before' (b ∷ rest))
      (λ c'. header_loop sc c' [] rest)

-- The Boolean is the value returned: more header data is to be read.
unfoldable pub http_process_response_headers : Scanner → Connection → Connection × Bool
unfolding header_loop
http_process_response_headers sc c =
    let c1 = header_loop sc c [] c.buf in
    let c2 = if c.eof then record c1 { state = broken } else c1 in (c2, in_headers c2.state)

unfoldable pub http_check_response_body : Connection → Connection × Bool
http_check_response_body c =
    let c1 =
      if in_body c.state && (c.has_content_length || c.eof) && leb c.content_length (length c.buf)
      then record c { state = finished }
      else c in
    let c2 =
      if c1.eof
      then record c1 { state = elim c1.state [ finished ↦ closed | _ ↦ broken ] }
      else c1 in
    (c2, in_body c2.state)

-- A result of read(2): bytes, none of them at the end of the connection; -1 with EINTR or EAGAIN;
-- or another error, at which the program exits.
pub data ReadResult : Type 0 where
  got : Bytes → ReadResult
  again : ReadResult
  failed : ReadResult

-- What a loop of reads comes to: it returns, with the reads that are left; the program exits; or it
-- waits for another read.
pub data Received : Type 0 where
  returned : Connection → List ReadResult → Received
  exited : Received
  waiting : Connection → Received

-- The buffer behind a read that stores its bytes behind `kept`.
unfoldable pub after_read : Connection → Bytes → Bytes → Connection
after_read c kept [] = record c { buf = kept; eof = true }
after_read c kept (b ∷ bs) = record c { buf = kept ++ b ∷ bs }

-- The loop of `http_receive_response_headers`. It sets `len` to 0 before each read. Here `p` is
-- what the call of `http_process_response_headers` gave, and `loop` the rest of the loop.
unfoldable pub headers_round :
    Connection × Bool → ReadResult → List ReadResult → (Connection → Received) → Received
unfolding after_read
headers_round (c, false) r rs loop = returned c (r ∷ rs)
headers_round (c, true) (got bs) rs loop = loop (after_read c [] bs)
headers_round (c, true) again rs loop = loop (record c { buf = [] })
headers_round (c, true) failed rs loop = exited

-- Without another read the loop waits, or returns.
unfoldable pub last_round : Connection × Bool → Received
last_round (c, false) = returned c []
last_round (c, true) = waiting c

unfoldable pub receive_headers_loop : Scanner → Connection → List ReadResult → Received
unfolding http_process_response_headers headers_round last_round
receive_headers_loop sc c [] = last_round (http_process_response_headers sc c)
receive_headers_loop sc c (r ∷ rs) =
    headers_round (http_process_response_headers sc c) r rs (λ c'. receive_headers_loop sc c' rs)

-- The test of the status behind the loop.
unfoldable pub overloaded : Received → Received
overloaded (returned c rs) = if ltb_ℤ c.status_code (pos 500) then returned c rs else exited
overloaded exited = exited
overloaded (waiting c) = waiting c

unfoldable pub http_receive_response_headers : Scanner → Connection → List ReadResult → Received
unfolding receive_headers_loop overloaded
http_receive_response_headers sc c rs =
    if is_over c.state then returned c rs else overloaded (receive_headers_loop sc c rs)

-- The loop of `http_receive_response_body`. The source reads up to BUFSIZ bytes behind the `len`
-- bytes that it has, whatever room is left.
unfoldable pub body_round :
    Connection × Bool → ReadResult → List ReadResult → (Connection → Received) → Received
unfolding after_read
body_round (c, false) r rs loop = returned c (r ∷ rs)
body_round (c, true) (got bs) rs loop = loop (after_read c c.buf bs)
body_round (c, true) again rs loop = loop c
body_round (c, true) failed rs loop = exited

unfoldable pub receive_body_loop : Connection → List ReadResult → Received
unfolding http_check_response_body body_round last_round
receive_body_loop c [] = last_round (http_check_response_body c)
receive_body_loop c (r ∷ rs) =
    body_round (http_check_response_body c) r rs (λ c'. receive_body_loop c' rs)

unfoldable pub http_receive_response_body : Connection → List ReadResult → Received
unfolding receive_body_loop
http_receive_response_body c rs = if is_over c.state then returned c rs else receive_body_loop c rs
