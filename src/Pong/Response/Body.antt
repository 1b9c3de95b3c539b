-- ===== src/Pong/Response/Body.antt =====
-- How `http_receive_response_body` of pset6/pong61.c gathers a body.
use cs61_f16_psets_team_md.Base.{
  ◌<◌, ℕ, ◌≤◌, ◌≡◌, inl, inr, refl, sym, ap, ◌∙◌, arith, tests, Bool-cases, true, false, leb, Bytes,
  List, [], ◌∷◌, ◌++◌, length, map, All, append-nil, append_assoc, is_empty,
}
use cs61_f16_psets_team_md.Pong.Response.{
  body, finished, closed, Connection, http_check_response_body, ReadResult, got, Received, returned,
  after_read, body_round, last_round, receive_body_loop, http_receive_response_body,
}

abbrev pub concat : List Bytes → Bytes
concat [] = []
concat (b ∷ bs) = b ++ concat bs

-- The reads that bring the chunks, none of which is empty.
abbrev pub arrivals : List Bytes → List ReadResult
arrivals chunks = map got chunks

abbrev pub IsChunk : Bytes → Type 0
IsChunk b = is_empty b ≡ false

-- A body that waits for `n` bytes.
abbrev pub awaiting : Connection → ℕ → Bytes → Connection
awaiting c n buf = record c {
  state = body;
  content_length = n;
  has_content_length = true;
  eof = false;
  buf = buf;
}

-- The body is complete: it is a beginning of the bytes that come, and the reads behind it are left.
pub record Gathered (c : Connection) (n : ℕ) (all : Bytes) (r : Received) : Type 0 where
  pub buf' : Bytes
  pub left : List Bytes
  pub returns : r ≡ returned (record (awaiting c n buf') { state = finished }) (arrivals left)
  pub enough : n ≤ length buf'
  pub parts : buf' ++ concat left ≡ all

-- With enough bytes in the buffer the loop returns.
enough-done :
    (c : Connection) (n : ℕ) (buf : Bytes) (rs : List ReadResult)
    → leb n (length buf) ≡ true
    → receive_body_loop (awaiting c n buf) rs
      ≡ returned (record (awaiting c n buf) { state = finished }) rs
unfolding receive_body_loop http_check_response_body body_round last_round
enough-done c n buf [] e = rw e refl
enough-done c n buf (r ∷ rs) e = rw e refl

-- Otherwise it reads.
receive_body_loop-more :
    (c : Connection) (n : ℕ) (buf b : Bytes) (rs : List ReadResult)
    → leb n (length buf) ≡ false
    → IsChunk b
    → receive_body_loop (awaiting c n buf) (got b ∷ rs)
      ≡ receive_body_loop (awaiting c n (buf ++ b)) rs
unfolding receive_body_loop http_check_response_body body_round after_read
receive_body_loop-more c n buf [] rs e h = absurd (grind (tests, h))
receive_body_loop-more c n buf (x ∷ b) rs e h = rw e refl

receive_body_loop-Gathered :
    (c : Connection) (n : ℕ) (buf : Bytes) (chunks : List Bytes)
    → All IsChunk chunks
    → n ≤ length (buf ++ concat chunks)
    → Gathered c n (buf ++ concat chunks) (receive_body_loop (awaiting c n buf) (arrivals chunks))
receive_body_loop-Gathered c n buf [] h e = record {
  buf' = buf;
  left = [];
  returns = enough-done c n buf [] (grind (tests, e, ap length (append-nil buf)));
  enough = omega (arith, e, ap length (append-nil buf));
  parts = refl;
}
receive_body_loop-Gathered c n buf (b ∷ chunks) h e = elim (Bool-cases (leb n (length buf))) [
  | inl f ↦ record {
    buf' = buf;
    left = b ∷ chunks;
    returns = enough-done c n buf (arrivals (b ∷ chunks)) f;
    enough = grind (tests, f);
    parts = refl;
  }
  | inr f ↦
      let joined = append_assoc buf b (concat chunks) in
      let g =
        receive_body_loop-Gathered c n (buf ++ b) chunks h.1 (omega (arith, e, ap length joined)) in
      record {
        buf' = g.buf';
        left = g.left;
        returns = receive_body_loop-more c n buf b (arrivals chunks) f h.0 ∙ g.returns;
        enough = g.enough;
        parts = g.parts ∙ joined;
      }
]

-- `BUFSIZ`, the size of `buf`.
abbrev pub bufsiz : ℕ
bufsiz = 8192

-- Where `n` bytes are declared, the buffer and the chunks that arrive have as many, and all of them
-- fit in `buf` with a NUL, `http_receive_response_body` returns with the connection ready for
-- another request: its buffer has these bytes in order, with at least `n` of them, and it reads no
-- chunk more.
pub http_receive_response_body-Gathered :
    (c : Connection) (n : ℕ) (buf : Bytes) (chunks : List Bytes)
    → All IsChunk chunks
    → n ≤ length (buf ++ concat chunks)
    → length (buf ++ concat chunks) < bufsiz
    → Gathered c n
        (buf ++ concat chunks)
        (http_receive_response_body (awaiting c n buf) (arrivals chunks))
unfolding http_receive_response_body
http_receive_response_body-Gathered c n buf chunks h e fits =
    receive_body_loop-Gathered c n buf chunks h e

-- A body of no declared length ends with the connection.
abbrev pub undeclared : Connection → Bytes → Connection
undeclared c buf = record c {
  state = body;
  content_length = 0;
  has_content_length = false;
  eof = false;
  buf = buf;
}

-- Where no length is declared, the body is everything up to the end of the connection, which is
-- then closed.
pub http_receive_response_body-closed :
    (c : Connection) (buf : Bytes) (chunks : List Bytes)
    → All IsChunk chunks
    → http_receive_response_body (undeclared c buf) (arrivals chunks ++ got [] ∷ [])
      ≡ returned (record (undeclared c (buf ++ concat chunks)) { state = closed; eof = true }) []
unfolding http_receive_response_body receive_body_loop http_check_response_body body_round
    last_round after_read
http_receive_response_body-closed c buf [] h =
    let nothing : leb 0 (length buf) ≡ true = grind (tests) in
    rw (nothing, http_check_response_body)
      (ap (λ w. returned (record (undeclared c w) { state = closed; eof = true }) [])
        (sym (append-nil buf)))
http_receive_response_body-closed c buf ([] ∷ chunks) h = absurd (grind (tests, h))
http_receive_response_body-closed c buf ((x ∷ b) ∷ chunks) h =
    http_receive_response_body-closed c (buf ++ x ∷ b) chunks h.1
    ∙ ap (λ w. returned (record (undeclared c w) { state = closed; eof = true }) [])
        (append_assoc buf (x ∷ b) (concat chunks))
