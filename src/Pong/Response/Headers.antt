-- ===== src/Pong/Response/Headers.antt =====
-- How `http_process_response_headers` of pset6/pong61.c reads the lines of a response.
use cs61_f16_psets_team_md.Base.{
  Bool-cases, inl, inr, ℕ, ◌≡◌, ◌≢◌, refl, sym, ap, ◌∙◌, tests, true, false, ◌==◌, if◌then◌else◌,
  Option, some, none, Bytes, List, [], ◌∷◌, ◌++◌, drop, is_empty, All, append-nil, append_assoc, ℤ,
}
use cs61_f16_psets_team_md.Pong.Response.{
  initial, headers, body, Connection, Scanner, in_headers, content_length_name, starts_with,
  status_line, take_line, header_round, header_loop, http_process_response_headers,
}

-- A line, or a part of one, without CR.
abbrev pub IsPlain : Bytes → Type 0
IsPlain line = All (λ x. x ≢ 13) line

-- The bytes `xs` and CRLF, in front of `rest`.
abbrev pub crlf : Bytes → Bytes → Bytes
crlf xs rest = xs ++ 13 ∷ 10 ∷ rest

header_loop-cons :
    (sc : Scanner) (c : Connection) (before : Bytes) (x y : ℕ) (rest : Bytes)
    → in_headers c.state ≡ true
    → x ≢ 13
    → header_loop sc c before (x ∷ y ∷ rest) ≡ header_loop sc c (before ++ x ∷ []) (y ∷ rest)
unfolding header_loop header_round
header_loop-cons sc c before x y rest h ne =
    let plain : (x == 13) ≡ false = grind (tests, ne) in rw (h, plain) refl

-- A line in the headers is taken at its CRLF.
pub header_loop-crlf :
    (sc : Scanner) (c : Connection) (before line rest : Bytes)
    → in_headers c.state ≡ true
    → IsPlain line
    → header_loop sc c before (crlf line rest)
      ≡ header_loop sc (take_line sc c (before ++ line)) [] rest
unfolding header_loop header_round
header_loop-crlf sc c before [] rest h p =
    rw h (ap (λ l. header_loop sc (take_line sc c l) [] rest) (sym (append-nil before)))
header_loop-crlf sc c before (x ∷ []) rest h p =
    header_loop-cons sc c before x 13 (10 ∷ rest) h p.0
    ∙ header_loop-crlf sc c (before ++ x ∷ []) [] rest h p.1
    ∙ ap (λ l. header_loop sc (take_line sc c l) [] rest) (append-nil (before ++ x ∷ []))
header_loop-crlf sc c before (x ∷ y ∷ line) rest h p =
    header_loop-cons sc c before x y (crlf line rest) h p.0
    ∙ header_loop-crlf sc c (before ++ x ∷ []) (y ∷ line) rest h p.1
    ∙ ap (λ l. header_loop sc (take_line sc c l) [] rest) (append_assoc before (x ∷ []) (y ∷ line))

-- Bytes without CR stay in the buffer.
pub header_loop-IsPlain :
    (sc : Scanner) (c : Connection) (before xs : Bytes)
    → in_headers c.state ≡ true
    → IsPlain xs
    → header_loop sc c before xs ≡ record c { buf = before ++ xs }
unfolding header_loop
header_loop-IsPlain sc c before [] h p = ap (λ b. record c { buf = b }) (sym (append-nil before))
header_loop-IsPlain sc c before (x ∷ []) h p = refl
header_loop-IsPlain sc c before (x ∷ y ∷ xs) h p =
    header_loop-cons sc c before x y xs h p.0
    ∙ header_loop-IsPlain sc c (before ++ x ∷ []) (y ∷ xs) h p.1
    ∙ ap (λ b. record c { buf = b }) (append_assoc before (x ∷ []) (y ∷ xs))

-- Outside of the headers the loop leaves the buffer.
pub header_loop-over :
    (sc : Scanner) (c : Connection) (before xs : Bytes)
    → in_headers c.state ≡ false
    → header_loop sc c before xs ≡ record c { buf = before ++ xs }
unfolding header_loop header_round
header_loop-over sc c before [] h = ap (λ b. record c { buf = b }) (sym (append-nil before))
header_loop-over sc c before (x ∷ []) h = refl
header_loop-over sc c before (x ∷ y ∷ xs) h = rw h refl

-- The header lines `hs` and the empty line behind them.
abbrev pub header_text : List Bytes → Bytes → Bytes
header_text [] rest = crlf [] rest
header_text (h ∷ hs) rest = crlf h (header_text hs rest)

-- The content length that the lines `hs` declare, where `n` was declared before.
abbrev pub declared : Scanner → Option ℕ → List Bytes → Option ℕ
declared sc n [] = n
declared sc n (h ∷ hs) =
    declared sc (if starts_with h content_length_name then some (sc.strtoul (drop 16 h)) else n) hs

abbrev pub IsHeader : Bytes → Type 0
IsHeader h = IsPlain h × (is_empty h ≡ false)

-- A connection with the content length `n`.
abbrev pub with_length : Connection → Option ℕ → Connection
with_length c none = c
with_length c (some n) = record c { content_length = n; has_content_length = true }

-- The connection among its headers, with the content length `n` declared.
abbrev pub among_headers : Connection → Option ℕ → Connection
among_headers c n = record (with_length c n) { state = headers }

declare-again :
    (c : Connection) (n : Option ℕ) (k : ℕ)
    → record (among_headers c n) { content_length = k; has_content_length = true }
      ≡ among_headers c (some k)
declare-again c none k = refl
declare-again c (some m) k = refl

take_line-status :
    (sc : Scanner) (c : Connection) (line : Bytes) (code : ℤ)
    → sc.scan_status line ≡ some code
    → take_line sc (record c { state = initial }) line
      ≡ record c { state = headers; status_code = code }
unfolding take_line status_line
take_line-status sc c line code e = rw (e, status_line) refl

take_line-header :
    (sc : Scanner) (c : Connection) (n : Option ℕ) (h : Bytes)
    → is_empty h ≡ false
    → take_line sc (among_headers c n) h
      ≡ among_headers c
          (if starts_with h content_length_name then some (sc.strtoul (drop 16 h)) else n)
unfolding take_line
take_line-header sc c n h e = rw e (elim (Bool-cases (starts_with h content_length_name)) [
  | inl f ↦ rw f (declare-again c n (sc.strtoul (drop 16 h)))
  | inr f ↦ rw f refl
])

header_loop-header_text :
    (sc : Scanner) (c : Connection) (n : Option ℕ) (hs : List Bytes) (rest : Bytes)
    → All IsHeader hs
    → header_loop sc (among_headers c n) [] (header_text hs rest)
      ≡ record (with_length c (declared sc n hs)) { state = body; buf = rest }
unfolding take_line
header_loop-header_text sc c n [] rest p =
    header_loop-crlf sc (among_headers c n) [] [] rest refl tt
    ∙ header_loop-over sc (record (with_length c n) { state = body }) [] rest refl
header_loop-header_text sc c n (h ∷ hs) rest p =
    header_loop-crlf sc (among_headers c n) [] h (header_text hs rest) refl p.0.0
    ∙ ap (λ k. header_loop sc k [] (header_text hs rest)) (take_line-header sc c n h p.0.1)
    ∙ header_loop-header_text sc c
        (if starts_with h content_length_name then some (sc.strtoul (drop 16 h)) else n) hs rest p.1

-- What the parser does not set stays.
parsed_fields :
    (c : Connection) (code : ℤ) (buf rest : Bytes) (n : Option ℕ)
    → record (with_length
        (record c { state = initial; eof = false; buf = buf; status_code = code })
        n) { state = body; buf = rest }
      ≡ record (with_length (record c { status_code = code; eof = false }) n) {
        state = body;
        buf = rest;
      }
parsed_fields c code buf rest none = refl
parsed_fields c code buf rest (some n) = refl

-- A buffer that holds a response's headers and the beginning `rest` of its body is parsed in one
-- call: the status and the last content length are those of its lines, and the body's bytes stay in
-- the buffer.
pub http_process_response_headers_lem :
    (sc : Scanner) (c : Connection) (line : Bytes) (hs : List Bytes) (rest : Bytes) (code : ℤ)
    → IsPlain line
    → sc.scan_status line ≡ some code
    → All IsHeader hs
    → http_process_response_headers sc
        (record c { state = initial; eof = false; buf = crlf line (header_text hs rest) })
      ≡ (
        record (with_length (record c { status_code = code; eof = false }) (declared sc none hs)) {
          state = body;
          buf = rest;
        },
        false,
      )
unfolding http_process_response_headers
http_process_response_headers_lem sc c line hs rest code p scanned q =
    let first = record c { state = initial; eof = false; buf = crlf line (header_text hs rest) } in
    let parsed : header_loop sc first [] first.buf
        ≡ record (with_length (record c { status_code = code; eof = false })
            (declared sc none hs)) { state = body; buf = rest } =
      header_loop-crlf sc first [] line (header_text hs rest) refl p
      ∙ ap (λ k. header_loop sc k [] (header_text hs rest))
          (take_line-status sc first line code scanned)
      ∙ header_loop-header_text sc (record first { status_code = code }) none hs rest q
      ∙ parsed_fields c code first.buf rest (declared sc none hs) in
    rw parsed refl
