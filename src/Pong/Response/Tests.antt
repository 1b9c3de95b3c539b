-- ===== src/Pong/Response/Tests.antt =====
-- A response of the server, and the theorems on it.
use cs61_f16_psets_team_md.Base.{
  ℕ, ◌+◌, ◌*◌, ◌-◌, ◌≡◌, refl, arith, true, false, some, none, Bytes, [], ◌∷◌, pos, negsuc,
}
use cs61_f16_psets_team_md.Pong.Response.{
  request, initial, body, Connection, Scanner, clear_response, starts_with, got, returned,
  receive_headers_loop, http_receive_response_headers, http_receive_response_body,
}
use cs61_f16_psets_team_md.Pong.Response.Headers.{IsPlain, crlf, header_text}
use cs61_f16_psets_team_md.Pong.Response.Receive.{
  receive_headers_loop-lost, http_receive_response_headers_lem,
}
use cs61_f16_psets_team_md.Pong.Response.Body.{
  arrivals, awaiting, Gathered, http_receive_response_body-Gathered,
}

-- A scanner of decimal numbers: the status is behind the ninth byte of a line.
abbrev decimal : ℕ → Bytes → ℕ
decimal n [] = n
decimal n (c ∷ cs) = decimal (10 * n + (c - 48)) cs

abbrev scanner : Scanner
scanner = record {
  scan_status = λ line. elim line [
    | c1 ∷ c2 ∷ c3 ∷ c4 ∷ c5 ∷ c6 ∷ c7 ∷ c8 ∷ c9 ∷ code ↦ some (pos (decimal 0 code))
    | _ ↦ none
  ];
  strtoul = decimal 0;
}

abbrev fresh : Connection
fresh = record {
  fd = 3;
  state = request;
  status_code = negsuc 0;
  content_length = 0;
  has_content_length = false;
  eof = false;
  buf = [];
}

-- "HTTP/1.0 200" and "Content-Length: 12".
abbrev line : Bytes
line = b'H' ∷ b'T' ∷ b'T' ∷ b'P' ∷ b'/' ∷ b'1' ∷ b'.' ∷ b'0' ∷ b' ' ∷ b'2' ∷ b'0' ∷ b'0' ∷ []

abbrev length_header : Bytes
length_header =
    b'C' ∷ b'o' ∷ b'n' ∷ b't' ∷ b'e' ∷ b'n' ∷ b't' ∷ b'-' ∷ b'L' ∷ b'e' ∷ b'n' ∷ b'g' ∷ b't' ∷ b'h'
    ∷ b':' ∷ b' ' ∷ b'1' ∷ b'2' ∷ []

line-IsPlain : IsPlain line
line-IsPlain = ground arith

length_header-IsPlain : IsPlain length_header
length_header-IsPlain = ground arith

http_receive_response_headers_lem_example :
    http_receive_response_headers scanner
      (record (clear_response fresh) { eof = false })
      (got (crlf line (header_text (length_header ∷ []) [])) ∷ [])
    ≡ returned
        (record (clear_response fresh) {
          status_code = pos 200;
          content_length = 12;
          has_content_length = true;
          eof = false;
          state = body;
          buf = [];
        })
        []
unfolding clear_response starts_with
http_receive_response_headers_lem_example =
    http_receive_response_headers_lem scanner fresh line (length_header ∷ []) [] (pos 200) []
      line-IsPlain refl refl ((length_header-IsPlain, refl), tt)

receive_headers_loop-lost_example :
    let c = record fresh { state = initial; eof = false; buf = [] } in
    receive_headers_loop scanner c (got (72 ∷ 84 ∷ []) ∷ got (84 ∷ 80 ∷ []) ∷ [])
    ≡ receive_headers_loop scanner c (got (84 ∷ 80 ∷ []) ∷ [])
receive_headers_loop-lost_example =
    receive_headers_loop-lost scanner (record fresh { state = initial }) 72 84 (84 ∷ []) (80 ∷ [])
      [] refl (ground arith)

http_receive_response_body-Gathered_example : Gathered fresh 3 (1 ∷ 2 ∷ 3 ∷ 4 ∷ []) (
    http_receive_response_body
      (awaiting fresh 3 (1 ∷ []))
      (arrivals ((2 ∷ []) ∷ (3 ∷ 4 ∷ []) ∷ [])))
http_receive_response_body-Gathered_example =
    http_receive_response_body-Gathered fresh 3 (1 ∷ []) ((2 ∷ []) ∷ (3 ∷ 4 ∷ []) ∷ [])
      (refl, (refl, tt)) (omega arith) (omega arith)
