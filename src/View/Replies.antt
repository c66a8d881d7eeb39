-- ===== src/View/Replies.antt =====
-- A reply message, and what a view of it returns.
use telling.Layout.Accept.{Newline, lines_text, AreHeaders, parse_msg-accept}
use telling.Layout.Compose.{◌␣◌, line_parts-two, parse_start_line-parts, reply_layout}
use telling.Layout.Message.{length-split}
use telling.Layout.Parse.{
  parse_msg, take_word, parts_from, line_parts, detect, choose_type, offsets, parse_start_line,
}
use telling.Layout.StartLine.{measured}
use telling.Layout.{
  MsgType, reply, request, unknown, MsgLayout, no_layout, msg_type, protocol_range, status_range,
  reason_range, headers_range,
}
use telling.Lines.Split.{NoNewline}
use telling.MsgError.{ok}
use telling.Prelude.{
  ℕ, ◌+◌, ◌≤◌, ◌<◌, ◌≡◌, refl, true, false, List, [], ◌∷◌, ◌++◌, Bytes, ap, ◌∙◌, length,
  length-append, append_assoc, has_byte, Bool-cases, inl, inr, ◌||◌, ◌==◌, ltb, arith,
}
use telling.Protocol.{MsgProtocol}
use telling.Protocol
use telling.Status
use telling.Status.RoundTrip
use telling.View.Ranges.{string-middle, layout-Shows}
use telling.View.Requests.{IsElement, protocol_name-IsElement, length-␣, NoNewline-␣, ␣-ne-nil}
use telling.View.{MsgView, view, string, protocol_string, status_string, reason, body_string}

-- Three bytes, no space among them; and no protocol's name.
pub status_name-IsElement :
    (n : ℕ)
    → IsElement (Status.to_string n)
      × (length (Status.to_string n) ≡ 3)
      × (Protocol.is_valid (Protocol.parse (Status.to_string n)) ≡ false)
unfolding Status.to_string Protocol.parse Protocol.is_valid
status_name-IsElement n = elim (Bool-cases (n == 0 || ltb 999 n)) [
  | inl e ↦ rw e (ground arith)
  | inr e ↦ rw e (ground arith)
]

-- A valid protocol's name holds a slash.
protocol_name_slash :
    (p : MsgProtocol) → Protocol.is_valid p ≡ true → has_byte b'/' (Protocol.to_string p) ≡ true
unfolding Protocol.to_string Protocol.is_valid has_byte
protocol_name_slash MsgProtocol.tell h = refl
protocol_name_slash MsgProtocol.unknown h = cc
protocol_name_slash MsgProtocol.none h = cc
protocol_name_slash _ h = refl

-- The strings of a view whose layout has these numbers.
module _ (v : MsgView) (p s r rest : Bytes) (whole : v.msg ≡ (p ␣ s ␣ r) ++ rest)
    (three : length s ≡ 3) (len : v.layout.sl_len ≡ length p + 1 + 3 + 1 + length r)
    (uri_at : v.layout.uri_pos ≡ 0) (prt_at : v.layout.prt_rpos ≡ v.layout.sl_len)
    (sts_at : v.layout.sts_rpos ≡ 4 + length r) (small : v.layout.sl_len ≤ 0xFFFF) where
  protocol_string_lem : protocol_string v ≡ p
  unfolding protocol_string protocol_range
  protocol_string_lem =
      string-middle v (protocol_range v.layout) [] p ((b' ' ∷ (s ␣ r)) ++ rest)
        (whole ∙ append_assoc p (b' ' ∷ (s ␣ r)) rest) (ground arith) (ground arith)

  status_string_lem : status_string v ≡ s
  unfolding status_string status_range
  status_string_lem =
      string-middle v (status_range v.layout) (p ++ (b' ' ∷ [])) s ((b' ' ∷ r) ++ rest)
        (whole ∙ simp append_assoc) (ground (arith, length-append p (b' ' ∷ []))) (ground arith)

  reason_lem : reason v ≡ r
  unfolding reason reason_range
  reason_lem =
      string-middle v (reason_range v.layout) (p ␣ (s ++ (b' ' ∷ []))) r rest
        (whole ∙ simp append_assoc)
        (ground (arith, length-␣ p (s ++ (b' ' ∷ [])), length-append s (b' ' ∷ []))) (ground arith)

  pub reply_strings :
      (msg_type v.layout ≡ reply) × (protocol_string v ≡ p) × (status_string v ≡ s) × (reason v ≡ r)
  unfolding msg_type
  reply_strings = (ground arith, protocol_string_lem, status_string_lem, reason_lem)

-- The first line of a reply: PROTOCOL STATUS REASON.
abbrev pub reply_line : MsgProtocol → ℕ → Bytes → Bytes
reply_line p status r = Protocol.to_string p ␣ Status.to_string status ␣ r

-- The first word of the reason is not the name of a protocol.
abbrev pub NotProtocol : Bytes → Type 0
NotProtocol r = Protocol.is_valid (Protocol.parse (take_word r).0) ≡ false

module _ (p : MsgProtocol) (status : ℕ) (r nl : Bytes) (n : Newline nl)
    (valid : Protocol.is_valid p ≡ true) (one_line : NoNewline r) (short : length r ≤ 128) where
  abbrev line : Bytes
  line = reply_line p status r

  line_facts :
      NoNewline line
      × (length line
          ≡ length (Protocol.to_string p) + 1 + length (Status.to_string status) + 1 + length r)
  line_facts = (
    NoNewline-␣ (Protocol.to_string p) (Status.to_string status ␣ r)
        (protocol_name-IsElement p valid).0.no_newline
        (NoNewline-␣ (Status.to_string status) r (status_name-IsElement status).0.no_newline
          one_line),
    omega (
      arith,
      length-␣ (Protocol.to_string p) (Status.to_string status ␣ r),
      length-␣ (Status.to_string status) r,
    ),
  )

  -- What follows the status is at least one part, which starts where the status ends.
  reply_parts : line_parts line ≡ Protocol.to_string p ∷ Status.to_string status ∷ parts_from 2 r
  reply_parts =
      line_parts-two (Protocol.to_string p) (Status.to_string status) r
        (protocol_name-IsElement p valid).0.no_space (status_name-IsElement status).0.no_space

  -- The type that is detected.
  detect_reply :
      NotProtocol r
      → detect (Protocol.to_string p ∷ Status.to_string status ∷ parts_from 2 r) ≡ reply
  unfolding detect parts_from
  detect_reply word =
      rw (word, (status_name-IsElement status).2, protocol_name_slash p valid) (ground arith)

  pub chosen_unknown :
      NotProtocol r
      → choose_type unknown (Protocol.to_string p ∷ Status.to_string status ∷ parts_from 2 r)
        ≡ reply
  unfolding choose_type
  chosen_unknown word = detect_reply word

  -- The start line of a reply that is taken for one is laid out.
  reply_start :
      (l : MsgLayout) (given : MsgType)
      → choose_type given (Protocol.to_string p ∷ Status.to_string status ∷ parts_from 2 r) ≡ reply
      → length line ≤ 0xFFFF
      → parse_start_line l given line (line ++ nl)
        ≡ ok (record (measured l line nl) {
          uri_pos = 0;
          prt_rpos = length line;
          sts_rpos = 4 + length r;
        })
  unfolding offsets
  reply_start l given chosen small =
      parse_start_line-parts l given line nl _ n line_facts.0
        (␣-ne-nil (Protocol.to_string p) (Status.to_string status ␣ r)) small reply_parts
      ∙ rw chosen (
          unfold parts_from in
          reply_layout (measured l line nl) (length line) (length (Protocol.to_string p))
            (length (Status.to_string status)) (length r) _ line_facts.1
            (status_name-IsElement status).1 short
            (omega (arith, (protocol_name-IsElement p valid).2)))

-- A reply whose reason begins with the name of a protocol is taken for a request where the type is
-- to be detected, as the writer's own parse does.
pub reply_misread :
    (p : MsgProtocol) (status : ℕ) (r : Bytes)
    → Protocol.is_valid p ≡ true
    → Protocol.is_valid (Protocol.parse (take_word r).0) ≡ true
    → detect (line_parts (reply_line p status r)) ≡ request
unfolding detect parts_from
reply_misread p status r valid word =
    let e =
      line_parts-two (Protocol.to_string p) (Status.to_string status) r
        (protocol_name-IsElement p valid).0.no_space (status_name-IsElement status).0.no_space in
    rw e (rw word)

-- What is read in a view of a reply.
pub record ReplyRead (v : MsgView) (p : MsgProtocol) (status : ℕ) (r headers body : Bytes)
    : Type 0 where
  pub is_reply : msg_type v.layout ≡ reply
  pub protocol_is : Protocol.parse (protocol_string v) ≡ p
  pub status_is : Status.parse (status_string v) ≡ status
  pub reason_is : reason v ≡ r
  pub headers_are : string v (headers_range v.layout) ≡ headers
  pub body_is : body_string v ≡ body
  pub body_at : v.layout.p_body + length body ≡ length v.msg

-- A reply line, header lines, an empty line and any body are read as a reply with that protocol,
-- status, reason, headers and body, where the type that is given, or else detected, is that of a
-- reply, if the reason is at most 128 bytes long, the status has at most three digits and the header
-- fits 64 KiB.
pub reply_view_as :
    (given : MsgType) (p : MsgProtocol) (status : ℕ) (r nl : Bytes) (lines : List Bytes)
    (body : Bytes)
    → Newline nl
    → Protocol.is_valid p ≡ true
    → 0 < status
    → status ≤ 999
    → NoNewline r
    → length r ≤ 128
    → choose_type given (Protocol.to_string p ∷ Status.to_string status ∷ parts_from 2 r) ≡ reply
    → AreHeaders lines
    → length (reply_line p status r) + length nl + length (lines_text nl lines) + length nl ≤ 0xFFFF
    → (v : MsgView) × (view
          (reply_line p status r ++ (nl ++ (lines_text nl lines ++ (nl ++ body))))
          given
        ≡ ok v)
      × ReplyRead v p status r (lines_text nl lines ++ nl) body
unfolding view
reply_view_as given p status r nl lines body n valid pos top one short chosen hs small =
    let first = reply_line p status r in
    let (one_line, len) = line_facts p status r nl n valid one short in
    let headers = lines_text nl lines in
    let at = length first + length nl + length headers + length nl in
    let l = record (measured (record no_layout { p_body = at }) first nl) {
      uri_pos = 0;
      prt_rpos = length first;
      sts_rpos = 4 + length r;
    } in
    let v : MsgView = record { msg = first ++ (nl ++ (headers ++ (nl ++ body))); layout = l } in
    let parsed : parse_msg v.msg given ≡ ok l =
      parse_msg-accept first nl lines body given n one_line hs small
      ∙ reply_start p status r nl n valid one short (record no_layout { p_body = at }) given chosen
          (omega arith) in
    let three = (status_name-IsElement status).1 in
    let (kind, protocol_name, status_name, reason_text) =
      reply_strings v (Protocol.to_string p) (Status.to_string status) r _ refl three
        (omega (arith, three)) refl refl refl (omega arith) in
    let regrouped : v.msg ≡ first ++ (nl ++ ((headers ++ nl) ++ body)) = simp append_assoc in
    let regroup = ap length regrouped in
    let shows =
      layout-Shows v first nl (headers ++ nl) body regrouped refl refl
        (omega (arith, length-append headers nl)) small in
    (
      v,
      rw parsed,
      record {
        is_reply = kind;
        protocol_is = rw protocol_name (Protocol.parse-to_string p valid);
        status_is = rw status_name (Status.RoundTrip.parse-to_string status pos top);
        reason_is = reason_text;
        headers_are = shows.headers_are;
        body_is = shows.body_is;
        body_at =
            omega (
              arith,
              length-split first nl (headers ++ nl) body,
              length-append headers nl,
              regroup,
            );
      },
    )

-- A reply line, header lines, an empty line and any body are read as a reply with that protocol,
-- status, reason, headers and body, if the reason is at most 128 bytes long and does not begin with
-- the name of a protocol, the status has at most three digits and the header fits 64 KiB. The type
-- of the message is not told to the parser.
pub reply_view :
    (p : MsgProtocol) (status : ℕ) (r nl : Bytes) (lines : List Bytes) (body : Bytes)
    → Newline nl
    → Protocol.is_valid p ≡ true
    → 0 < status
    → status ≤ 999
    → NoNewline r
    → length r ≤ 128
    → NotProtocol r
    → AreHeaders lines
    → length (reply_line p status r) + length nl + length (lines_text nl lines) + length nl ≤ 0xFFFF
    → (v : MsgView) × (view
          (reply_line p status r ++ (nl ++ (lines_text nl lines ++ (nl ++ body))))
          unknown
        ≡ ok v)
      × ReplyRead v p status r (lines_text nl lines ++ nl) body
reply_view p status r nl lines body n valid pos top one short word hs small =
    reply_view_as unknown p status r nl lines body n valid pos top one short
      (chosen_unknown p status r nl n valid one short word) hs small
