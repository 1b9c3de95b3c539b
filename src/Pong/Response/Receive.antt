-- ===== src/Pong/Response/Receive.antt =====
-- What `http_receive_response_headers` of pset6/pong61.c makes of a response that arrives at once,
-- and of a line that two reads share.
use cs61_f16_psets_team_md.Base.{
  ℕ, ◌≡◌, refl, sym, ap, ◌∙◌, true, false, Option, some, none, Bytes, List, [], ◌∷◌, All, ℤ, pos,
  ltb_ℤ,
}
use cs61_f16_psets_team_md.Pong.Response.{
  initial, body, Connection, Scanner, in_headers, clear_response, http_process_response_headers,
  ReadResult, got, returned, after_read, headers_round, last_round, receive_headers_loop,
  overloaded, http_receive_response_headers,
}
use cs61_f16_psets_team_md.Pong.Response.Headers.{
  IsPlain, IsHeader, crlf, header_text, declared, with_length, header_loop-IsPlain,
  http_process_response_headers_lem,
}

-- A buffer without a full line stays as it is, and more is to be read.
process-IsPlain :
    (sc : Scanner) (c : Connection) (p : Bytes)
    → in_headers c.state ≡ true
    → IsPlain p
    → http_process_response_headers sc (record c { eof = false; buf = p })
      ≡ (record c { eof = false; buf = p }, true)
unfolding http_process_response_headers
process-IsPlain sc c p h q =
    ap (λ k. (k, in_headers k.state))
      (header_loop-IsPlain sc (record c { eof = false; buf = p }) [] p h q)
    ∙ ap (λ b. (record c { eof = false; buf = p }, b)) h

-- A round that needs more reads some.
receive_headers_loop-more :
    (sc : Scanner) (c : Connection) (p : Bytes) (x : ℕ) (xs : Bytes) (rs : List ReadResult)
    → in_headers c.state ≡ true
    → IsPlain p
    → receive_headers_loop sc (record c { eof = false; buf = p }) (got (x ∷ xs) ∷ rs)
      ≡ receive_headers_loop sc (record c { eof = false; buf = x ∷ xs }) rs
unfolding receive_headers_loop headers_round after_read
receive_headers_loop-more sc c p x xs rs h q =
    ap (λ r. headers_round r (got (x ∷ xs)) rs (λ k. receive_headers_loop sc k rs))
      (process-IsPlain sc c p h q)

-- In the headers, a read that brings no CR is lost if another one follows: the loop goes on as if
-- only the second one had come.
pub receive_headers_loop-lost :
    (sc : Scanner) (c : Connection) (x y : ℕ) (xs ys : Bytes) (rs : List ReadResult)
    → in_headers c.state ≡ true
    → IsPlain (x ∷ xs)
    → receive_headers_loop sc
        (record c { eof = false; buf = [] })
        (got (x ∷ xs) ∷ got (y ∷ ys) ∷ rs)
      ≡ receive_headers_loop sc (record c { eof = false; buf = [] }) (got (y ∷ ys) ∷ rs)
receive_headers_loop-lost sc c x y xs ys rs h p =
    receive_headers_loop-more sc c [] x xs (got (y ∷ ys) ∷ rs) h tt
    ∙ receive_headers_loop-more sc c (x ∷ xs) y ys rs h p
    ∙ sym (receive_headers_loop-more sc c [] y ys rs h tt)

-- A round that needs no more returns.
receive_headers_loop-done :
    (sc : Scanner) (c c' : Connection) (rs : List ReadResult)
    → http_process_response_headers sc c ≡ (c', false)
    → receive_headers_loop sc c rs ≡ returned c' rs
unfolding receive_headers_loop headers_round last_round
receive_headers_loop-done sc c c' [] e = ap last_round e
receive_headers_loop-done sc c c' (r ∷ rs) e =
    ap (λ p. headers_round p r rs (λ k. receive_headers_loop sc k rs)) e

receive_headers_loop-first :
    (sc : Scanner) (c : Connection) (line after : Bytes) (rs : List ReadResult)
    → in_headers c.state ≡ true
    → receive_headers_loop sc (record c { eof = false; buf = [] }) (got (crlf line after) ∷ rs)
      ≡ receive_headers_loop sc (record c { eof = false; buf = crlf line after }) rs
receive_headers_loop-first sc c [] after rs h =
    receive_headers_loop-more sc c [] 13 (10 ∷ after) rs h tt
receive_headers_loop-first sc c (x ∷ line) after rs h =
    receive_headers_loop-more sc c [] x (crlf line after) rs h tt

overloaded-below :
    (c : Connection) (rs : List ReadResult)
    → ltb_ℤ c.status_code (pos 500) ≡ true
    → overloaded (returned c rs) ≡ returned c rs
unfolding overloaded
overloaded-below c rs e = rw e refl

status_code-with_length :
    (c : Connection) (n : Option ℕ) → (with_length c n).status_code ≡ c.status_code
status_code-with_length c none = refl
status_code-with_length c (some n) = refl

-- Behind a request, a response whose headers come with the first read, with a status below 500, is
-- received: `status_code` and the content length are those of its lines, and the bytes of the body
-- that came along are in the buffer.
pub http_receive_response_headers_lem :
    (sc : Scanner) (c : Connection) (line : Bytes) (hs : List Bytes) (rest : Bytes) (code : ℤ)
    (rs : List ReadResult)
    → IsPlain line
    → sc.scan_status line ≡ some code
    → ltb_ℤ code (pos 500) ≡ true
    → All IsHeader hs
    → http_receive_response_headers sc
        (record (clear_response c) { eof = false })
        (got (crlf line (header_text hs rest)) ∷ rs)
      ≡ returned
          (record (with_length
            (record (clear_response c) { status_code = code; eof = false })
            (declared sc none hs)) { state = body; buf = rest })
          rs
unfolding http_receive_response_headers clear_response
http_receive_response_headers_lem sc c line hs rest code rs p scanned low q =
    let c0 = clear_response c in
    ap overloaded (
      receive_headers_loop-first sc c0 line (header_text hs rest) rs refl
      ∙ receive_headers_loop-done sc
          (record c0 { state = initial; eof = false; buf = crlf line (header_text hs rest) })
          (record (with_length (record c0 { status_code = code; eof = false })
            (declared sc none hs)) { state = body; buf = rest })
          rs (http_process_response_headers_lem sc c0 line hs rest code p scanned q))
    ∙ overloaded-below
        (record (with_length (record c0 { status_code = code; eof = false })
          (declared sc none hs)) { state = body; buf = rest })
        rs
        (ap (λ k. ltb_ℤ k (pos 500))
            (status_code-with_length (record c0 { status_code = code; eof = false })
              (declared sc none hs))
          ∙ low)
