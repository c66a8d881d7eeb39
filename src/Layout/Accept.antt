-- ===== src/Layout/Accept.antt =====
-- Messages that `_parse_msg` accepts: a start line, lines of headers, an empty line and a body.
use telling.Layout.Message.{length-split, take_start_line}
use telling.Layout.Parse.{skip_headers, parse_start_line, parse_from, parse_msg}
use telling.Layout.{MsgType, no_layout}
use telling.Lines.Split.{NoNewline, consume_line-lf, consume_line-crlf}
use telling.Lines.{consume_line}
use telling.MsgError.{ok}
use telling.Prelude.{
  ℕ, zero, suc, ◌+◌, ◌-◌, ◌%◌, ◌^◌, ◌≤◌, ◌<◌, ◌≡◌, ◌≢◌, refl, List, [], ◌∷◌, ◌++◌, Bytes, ◌∙◌,
  length, length-pos, length-append, ltb, false, append_assoc, take, arith,
}

-- The two ends of line that the library writes.
pub data Newline : Bytes → Type 0 where
  lf : Newline (b'\n' ∷ [])
  crlf : Newline (b'\r' ∷ b'\n' ∷ [])

pub consume_line-Newline :
    (line rest : Bytes) {nl : Bytes}
    → Newline nl
    → NoNewline line
    → consume_line (line ++ (nl ++ rest)) ≡ (line, rest)
consume_line-Newline line rest lf h = consume_line-lf line rest h
consume_line-Newline line rest crlf h = consume_line-crlf line rest h

-- The text of some lines, each with its end.
abbrev pub lines_text : Bytes → List Bytes → Bytes
lines_text nl [] = []
lines_text nl (line ∷ lines) = line ++ (nl ++ lines_text nl lines)

abbrev pub AreHeaders : List Bytes → Type 0
AreHeaders [] = Unit {0}
AreHeaders (line ∷ lines) = NoNewline line × (line ≢ []) × AreHeaders lines

skip_headers-empty :
    (fuel : ℕ) (nl body : Bytes) → Newline nl → skip_headers (suc fuel) (nl ++ body) ≡ ok body
unfolding skip_headers
skip_headers-empty fuel nl body n = rw (consume_line-Newline [] body n tt)

skip_headers-line :
    (fuel : ℕ) (line nl rest : Bytes)
    → Newline nl
    → NoNewline line
    → line ≢ []
    → rest ≢ []
    → skip_headers (suc fuel) (line ++ (nl ++ rest)) ≡ skip_headers fuel rest
unfolding skip_headers
skip_headers-line fuel [] nl rest n h ne more = absurd (ne refl)
skip_headers-line fuel (c ∷ cs) nl [] n h ne more = absurd (more refl)
skip_headers-line fuel (c ∷ cs) nl (d ∷ ds) n h ne more =
    rw (consume_line-Newline (c ∷ cs) (d ∷ ds) n h)

behind-ne-nil :
    (lines : List Bytes) (nl body : Bytes) → Newline nl → lines_text nl lines ++ (nl ++ body) ≢ []
behind-ne-nil [] nl body lf e = cc
behind-ne-nil [] nl body crlf e = cc
behind-ne-nil ((c ∷ cs) ∷ lines) nl body n e = cc
behind-ne-nil ([] ∷ lines) nl body lf e = cc
behind-ne-nil ([] ∷ lines) nl body crlf e = cc

-- The loop passes over the header lines and the empty line.
pub skip_headers-lines :
    (fuel : ℕ) (lines : List Bytes) (nl body : Bytes)
    → Newline nl
    → AreHeaders lines
    → length (lines_text nl lines) < fuel
    → skip_headers fuel (lines_text nl lines ++ (nl ++ body)) ≡ ok body
skip_headers-lines zero lines nl body n h f = elim f [ ]
skip_headers-lines (suc fuel) [] nl body n h f = skip_headers-empty fuel nl body n
skip_headers-lines (suc fuel) (line ∷ lines) nl body n h f =
    let rest = lines_text nl lines ++ (nl ++ body) in
    rw (append_assoc line, append_assoc nl)
      (skip_headers-line fuel line nl rest n h.0 h.1 (behind-ne-nil lines nl body n)
        ∙ skip_headers-lines fuel lines nl body n h.2 (
            omega (
              arith,
              length-pos line h.1,
              length-append line (nl ++ lines_text nl lines),
              length-append nl (lines_text nl lines),
            )))

parse_msg-run :
    (msg line rest body : Bytes) (given : MsgType)
    → consume_line msg ≡ (line, rest)
    → length line ≤ 0xFFFF
    → rest ≢ []
    → skip_headers (suc (length rest)) rest ≡ ok body
    → parse_msg msg given ≡ parse_from msg given line rest body
unfolding parse_msg
parse_msg-run [] line rest body given c small more h = absurd (unfold consume_line in ground arith)
parse_msg-run (b ∷ bs) line [] body given c small more h = absurd (more refl)
parse_msg-run (b ∷ bs) line (r ∷ rs) body given c small more h =
    let fits : ltb 0xFFFF (length line) ≡ false = ground arith in rw (c, fits, h)

parse_from-run :
    (msg line rest body : Bytes) (given : MsgType) (at : ℕ)
    → length msg - length body ≡ at
    → at ≤ 0xFFFF
    → parse_from msg given line rest body
      ≡ parse_start_line
          (record no_layout { p_body = at })
          given
          line
          (take (length msg - length rest) msg)
unfolding parse_from
parse_from-run msg line rest body given at e small =
    let fits : ltb 0xFFFF at ≡ false = ground arith in
    let whole : at % 2 ^ 16 ≡ at = omega arith in rw (e, fits, whole)

-- A message whose header fits is laid out by its start line; the body may be any bytes.
pub parse_msg-accept :
    (line nl : Bytes) (lines : List Bytes) (body : Bytes) (given : MsgType)
    → Newline nl
    → NoNewline line
    → AreHeaders lines
    → length line + length nl + length (lines_text nl lines) + length nl ≤ 0xFFFF
    → parse_msg (line ++ (nl ++ (lines_text nl lines ++ (nl ++ body)))) given
      ≡ parse_start_line
          (record no_layout {
            p_body = length line + length nl + length (lines_text nl lines) + length nl;
          })
          given
          line
          (line ++ nl)
parse_msg-accept line nl lines body given n one h small =
    let headers = lines_text nl lines in
    let rest = headers ++ (nl ++ body) in
    let msg = line ++ (nl ++ rest) in
    let sizes : length msg ≡ length line + length nl + length headers + (length nl + length body) =
      length-split line nl headers (nl ++ body) ∙ omega (arith, length-append nl body) in
    let behind : length rest ≡ length headers + (length nl + length body) =
      omega (arith, length-append headers (nl ++ body), length-append nl body) in
    parse_msg-run msg line rest body given (consume_line-Newline line rest n one) (omega arith)
      (behind-ne-nil lines nl body n)
      (skip_headers-lines (suc (length rest)) lines nl body n h (omega arith))
    ∙ parse_from-run msg line rest body given _ (omega arith) small
    ∙ rw (take_start_line line nl rest)
