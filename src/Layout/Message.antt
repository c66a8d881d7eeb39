-- ===== src/Layout/Message.antt =====
-- `_parse_msg` on a whole message: it ends, and what an accepted message looks like.
use telling.Layout.Bounds.{InLine}
use telling.Layout.Parse.{
  skip_headers, parse_start_line, parse_from, parse_msg, choose_type, line_parts,
}
use telling.Layout.StartLine.{parse_start_line_lem}
use telling.Layout.{
  MsgType, request, MsgLayout, no_layout, msg_type, line_length, set_elements, set_start_line,
}
use telling.Lines.Split.{NoNewline, Eol, consume_line-LineOf, consume_line-shorter}
use telling.Lines.{consume_line}
use telling.MsgError.{ok, no_fuel, ◌>>=◌, >>=-Continues, >>=-ne-no_fuel}
use telling.Prelude.{
  ℕ, zero, suc, ◌+◌, ◌-◌, ◌%◌, ◌^◌, ◌≤◌, ◌<◌, ◌≡◌, ◌≢◌, refl, ◌⊎◌, inl, inr, Option, [], ◌∷◌, ◌++◌,
  Bytes, ◌∙◌, subst, length, length-pos, take, take-append, length-append, append_assoc, arith,
}

-- Enough rounds for the loop over the headers.
skip_headers-fuel : (fuel : ℕ) (pos : Bytes) → length pos < fuel → skip_headers fuel pos ≢ no_fuel
unfolding skip_headers
skip_headers-fuel zero pos h = elim h [ ]
skip_headers-fuel (suc fuel) [] h = unfold consume_line in ground arith
skip_headers-fuel (suc fuel) (c ∷ cs) h =
    ground (arith, consume_line-shorter (c ∷ cs), skip_headers-fuel fuel (consume_line (c ∷ cs)).1)

-- Header lines in front of `rest`: lines that are not empty, and an empty one.
pub data HeaderBlock (rest : Bytes) : Bytes → Type 0 where
  last_line : {eol : Bytes} → Eol rest eol → HeaderBlock rest eol
  cons_line :
      {text line eol headers : Bytes}
      → text ≡ line ++ (eol ++ headers)
      → NoNewline line
      → line ≢ []
      → Eol (headers ++ rest) eol
      → HeaderBlock rest headers
      → HeaderBlock rest text

skip_headers-step :
    (fuel : ℕ) (pos : Bytes) {rest : Bytes}
    → skip_headers (suc fuel) pos ≡ ok rest
    → (((consume_line pos).0 ≡ []) × ((consume_line pos).1 ≡ rest))
      ⊎ (((consume_line pos).0 ≢ []) × (skip_headers fuel (consume_line pos).1 ≡ ok rest))
unfolding skip_headers
skip_headers-step fuel pos h = ground arith

-- What the loop passes over is a block of header lines.
pub skip_headers-HeaderBlock :
    (fuel : ℕ) (pos : Bytes) {rest : Bytes}
    → skip_headers fuel pos ≡ ok rest
    → (headers : Bytes) × (pos ≡ headers ++ rest) × HeaderBlock rest headers
skip_headers-HeaderBlock zero pos h = absurd (unfold skip_headers in cc)
skip_headers-HeaderBlock (suc fuel) pos {rest} h =
    let l = consume_line-LineOf pos in
    elim (skip_headers-step fuel pos h) [
      | inl (empty, same) ↦
          (l.eol, l.splits ∙ rw (empty, same), last_line (subst (λ r. Eol r l.eol) same l.ends))
      | inr (more, later) ↦
          let (headers, e, block) = skip_headers-HeaderBlock fuel (consume_line pos).1 later in
          (
            (consume_line pos).0 ++ (l.eol ++ headers),
            l.splits ∙ rw (e, append_assoc, append_assoc),
            cons_line refl l.no_newline more (subst (λ r. Eol r l.eol) e l.ends) block,
          )
    ]

set_elements-ends :
    (kind : MsgType) (n : ℕ) (l : MsgLayout) (s t f : Option ℕ)
    → set_elements kind n l s t f ≢ no_fuel
unfolding set_elements
set_elements-ends request n l s t f = ground arith
set_elements-ends _ n l s t f = ground arith

set_start_line-ends :
    (l : MsgLayout) (text : Bytes) (kind : MsgType) (s t f : Option ℕ)
    → set_start_line l text kind s t f ≢ no_fuel
unfolding set_start_line line_length
set_start_line-ends l text kind s t f = grind (arith, set_elements-ends)

parse_from-ends :
    (begin start header_beg body : Bytes) (given : MsgType)
    → parse_from begin given start header_beg body ≢ no_fuel
unfolding parse_from parse_start_line
parse_from-ends begin start header_beg body given = grind (arith, set_start_line-ends)

-- `_parse_msg` ends on every message: the loop over the header lines has rounds enough.
pub parse_msg-ends : (msg : Bytes) (given : MsgType) → parse_msg msg given ≢ no_fuel
unfolding parse_msg
parse_msg-ends [] given = ground arith
parse_msg-ends (b ∷ bs) given =
    let begin : Bytes = b ∷ bs in
    let (start, rest) = consume_line begin in
    let loop =
      >>=-ne-no_fuel (parse_from begin given start rest) (skip_headers (suc (length rest)) rest)
        (λ body. parse_from-ends begin start rest body given)
        (skip_headers-fuel (suc (length rest)) rest (omega arith)) in
    ground (arith, loop)

-- An accepted message: a start line, header lines, and the body.
pub record Parsed (msg : Bytes) (given : MsgType) (l : MsgLayout) : Type 0 where
  pub line : Bytes
  pub eol : Bytes
  pub headers : Bytes
  pub body : Bytes
  pub splits : msg ≡ line ++ (eol ++ (headers ++ body))
  pub one_line : NoNewline line
  pub ends : Eol (headers ++ body) eol
  pub block : HeaderBlock body headers
  pub len : l.sl_len ≡ length line
  pub nl : l.sl_nl ≡ length eol
  pub body_at : l.p_body ≡ length line + length eol + length headers
  pub small : l.p_body ≤ 0xFFFF
  pub in_line : InLine l
  pub has_type : line ≢ [] → msg_type l ≡ choose_type given (line_parts line)

-- What the guards of `_parse_msg` leave.
parse_msg-guards :
    (msg : Bytes) (given : MsgType) {l : MsgLayout}
    → parse_msg msg given ≡ ok l
    → (length (consume_line msg).0 ≤ 0xFFFF)
      × ((consume_line msg).1 ≢ [])
      × (skip_headers (suc (length (consume_line msg).1)) (consume_line msg).1
          >>= parse_from msg given (consume_line msg).0 (consume_line msg).1)
        ≡ ok l
unfolding parse_msg
parse_msg-guards [] given h = ground arith
parse_msg-guards (b ∷ bs) given h = ground arith

parse_from-guards :
    (begin start header_beg body : Bytes) (given : MsgType) {l : MsgLayout}
    → parse_from begin given start header_beg body ≡ ok l
    → (length begin - length body ≤ 0xFFFF)
      × (parse_start_line
            (record no_layout { p_body = (length begin - length body) % 2 ^ 16 })
            given
            start
            (take (length begin - length header_beg) begin)
          ≡ ok l)
unfolding parse_from
parse_from-guards begin start header_beg body given h = ground arith

-- The measures of a text that is split at the end of its first line and behind its headers.
pub length-split :
    (line eol headers body : Bytes)
    → length (line ++ (eol ++ (headers ++ body)))
      ≡ length line + length eol + length headers + length body
length-split line eol headers body = omega (
  arith,
  length-append line (eol ++ (headers ++ body)),
  length-append eol (headers ++ body),
  length-append headers body,
)

pub take_start_line :
    (line eol rest : Bytes)
    → take (length (line ++ (eol ++ rest)) - length rest) (line ++ (eol ++ rest)) ≡ line ++ eol
take_start_line line eol rest =
    let n : length (line ++ (eol ++ rest)) - length rest ≡ length (line ++ eol) =
      omega
        (arith, length-append line (eol ++ rest), length-append eol rest, length-append line eol) in
    rw (n, ← append_assoc line eol rest) (take-append (line ++ eol) rest)

-- The parts of an accepted message, put together.
assemble :
    (given : MsgType) (line eol rest headers body : Bytes) {msg : Bytes} {l : MsgLayout}
    → msg ≡ line ++ (eol ++ rest)
    → rest ≡ headers ++ body
    → NoNewline line
    → Eol rest eol
    → HeaderBlock body headers
    → length line ≤ 0xFFFF
    → rest ≢ []
    → length msg - length body ≤ 0xFFFF
    → parse_start_line
        (record no_layout { p_body = (length msg - length body) % 2 ^ 16 })
        given
        line
        (take (length msg - length rest) msg)
      ≡ ok l
    → Parsed msg given l
assemble given line eol rest headers body {msg} {l} whole split one ends block small more short e =
    let at = record no_layout { p_body = (length msg - length body) % 2 ^ 16 } in
    let text : take (length msg - length rest) msg ≡ line ++ eol =
      rw whole (take_start_line line eol rest) in
    let start = parse_start_line_lem at given line eol rest one ends more small (rw text at e) in
    let size : length msg ≡ length line + length eol + length headers + length body =
      rw (whole, split) (length-split line eol headers body) in
    record {
      line = line;
      eol = eol;
      headers = headers;
      body = body;
      splits = rw (← split) whole;
      one_line = one;
      ends = rw (← split) ends;
      block = block;
      len = start.len;
      nl = start.nl;
      body_at = omega (arith, start.elements.same_body);
      small = omega (arith, start.elements.same_body);
      in_line = start.elements.in_line;
      has_type = λ ne. start.elements.has_type (length-pos line ne);
    }

pub parse_msg-Parsed :
    (msg : Bytes) (given : MsgType) {l : MsgLayout}
    → parse_msg msg given ≡ ok l
    → Parsed msg given l
parse_msg-Parsed msg given {l} h =
    let (small, more, run) = parse_msg-guards msg given h in
    let first = consume_line-LineOf msg in
    let rest = (consume_line msg).1 in
    let record { between = body; first_is = loop; next_is = tail } =
      >>=-Continues (parse_from msg given (consume_line msg).0 rest)
        (skip_headers (suc (length rest)) rest) l run in
    let (short, parsed) = parse_from-guards msg (consume_line msg).0 rest body given tail in
    let (headers, split, block) = skip_headers-HeaderBlock _ rest loop in
    assemble given (consume_line msg).0 first.eol rest headers body first.splits split
      first.no_newline first.ends block small more short parsed
