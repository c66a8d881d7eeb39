-- ===== src/View/Reports.antt =====
-- A report message, and what a view of it returns.
use telling.Layout.Accept.{Newline, lines_text, AreHeaders, parse_msg-accept}
use telling.Layout.Compose.{◌␣◌, line_parts-four, parse_start_line-parts, report_layout}
use telling.Layout.Message.{length-split}
use telling.Layout.Parse.{parse_msg, detect, choose_type, offsets, parse_start_line}
use telling.Layout.StartLine.{measured}
use telling.Layout.{
  report, unknown, MsgLayout, no_layout, msg_type, uri_range, protocol_range, status_range,
  reason_range, headers_range,
}
use telling.Lines.Split.{NoNewline}
use telling.MsgError.{ok}
use telling.Prelude.{
  ℕ, ◌+◌, ◌≤◌, ◌<◌, ◌≡◌, refl, true, List, [], ◌∷◌, ◌++◌, Bytes, ap, ◌∙◌, length, length-append,
  append_assoc, arith,
}
use telling.Protocol.{MsgProtocol}
use telling.Protocol
use telling.Status
use telling.Status.RoundTrip
use telling.View.Ranges.{string-middle, layout-Shows}
use telling.View.Replies.{status_name-IsElement}
use telling.View.Requests.{IsElement, protocol_name-IsElement, length-␣, NoNewline-␣, ␣-ne-nil}
use telling.View.{
  MsgView, view, string, uri_string, protocol_string, status_string, reason, body_string,
}

-- The strings of a view whose layout has these numbers.
module _ (v : MsgView) (u p s r rest : Bytes) (whole : v.msg ≡ (u ␣ p ␣ s ␣ r) ++ rest)
    (three : length s ≡ 3) (some_protocol : 0 < length p)
    (len : v.layout.sl_len ≡ length u + 1 + length p + 1 + 3 + 1 + length r)
    (uri_at : v.layout.uri_pos ≡ 0) (prt_at : v.layout.prt_rpos ≡ length p + 1 + 3 + 1 + length r)
    (sts_at : v.layout.sts_rpos ≡ 4 + length r) (small : v.layout.sl_len ≤ 0xFFFF) where
  uri_string_lem : uri_string v ≡ u
  unfolding uri_string uri_range
  uri_string_lem =
      string-middle v (uri_range v.layout) [] u ((b' ' ∷ (p ␣ s ␣ r)) ++ rest)
        (whole ∙ append_assoc u (b' ' ∷ (p ␣ s ␣ r)) rest) (ground arith) (ground arith)

  protocol_string_lem : protocol_string v ≡ p
  unfolding protocol_string protocol_range
  protocol_string_lem =
      string-middle v (protocol_range v.layout) (u ++ (b' ' ∷ [])) p ((b' ' ∷ (s ␣ r)) ++ rest)
        (whole ∙ simp append_assoc) (ground (arith, length-append u (b' ' ∷ []))) (ground arith)

  status_string_lem : status_string v ≡ s
  unfolding status_string status_range
  status_string_lem =
      string-middle v (status_range v.layout) (u ␣ (p ++ (b' ' ∷ []))) s ((b' ' ∷ r) ++ rest)
        (whole ∙ simp append_assoc)
        (ground (arith, length-␣ u (p ++ (b' ' ∷ [])), length-append p (b' ' ∷ []))) (ground arith)

  reason_lem : reason v ≡ r
  unfolding reason reason_range
  reason_lem =
      string-middle v (reason_range v.layout) (u ␣ p ␣ (s ++ (b' ' ∷ []))) r rest
        (whole ∙ simp append_assoc)
        (ground (
          arith,
          length-␣ u (p ␣ (s ++ (b' ' ∷ []))),
          length-␣ p (s ++ (b' ' ∷ [])),
          length-append s (b' ' ∷ []),
        ))
        (ground arith)

  pub report_strings :
      (msg_type v.layout ≡ report)
      × (uri_string v ≡ u)
      × (protocol_string v ≡ p)
      × (status_string v ≡ s)
      × (reason v ≡ r)
  unfolding msg_type
  report_strings =
      (ground arith, uri_string_lem, protocol_string_lem, status_string_lem, reason_lem)

-- The first line of a report: URI PROTOCOL STATUS REASON.
abbrev pub report_line : Bytes → MsgProtocol → ℕ → Bytes → Bytes
report_line uri p status r = uri ␣ Protocol.to_string p ␣ Status.to_string status ␣ r

module _ (uri : Bytes) (p : MsgProtocol) (status : ℕ) (r nl : Bytes) (n : Newline nl)
    (u : IsElement uri) (valid : Protocol.is_valid p ≡ true) (one_line : NoNewline r)
    (short : length r ≤ 128) where
  abbrev line : Bytes
  line = report_line uri p status r

  line_facts :
      NoNewline line
      × (length line
          ≡ length uri
            + 1
            + length (Protocol.to_string p)
            + 1
            + length (Status.to_string status)
            + 1
            + length r)
  line_facts = (
    NoNewline-␣ uri (Protocol.to_string p ␣ Status.to_string status ␣ r) u.no_newline (
        NoNewline-␣ (Protocol.to_string p) (Status.to_string status ␣ r)
          (protocol_name-IsElement p valid).0.no_newline
          (NoNewline-␣ (Status.to_string status) r (status_name-IsElement status).0.no_newline
            one_line)),
    omega (
      arith,
      length-␣ uri (Protocol.to_string p ␣ Status.to_string status ␣ r),
      length-␣ (Protocol.to_string p) (Status.to_string status ␣ r),
      length-␣ (Status.to_string status) r,
    ),
  )

  -- The start line of a report is detected as one, and laid out.
  report_start :
      (l : MsgLayout)
      → length line ≤ 0xFFFF
      → parse_start_line l unknown line (line ++ nl)
        ≡ ok (record (measured l line nl) {
          uri_pos = 0;
          prt_rpos = length (Protocol.to_string p) + 1 + 3 + 1 + length r;
          sts_rpos = 4 + length r;
        })
  unfolding choose_type detect offsets
  report_start l small =
      let parts =
        line_parts-four uri (Protocol.to_string p) (Status.to_string status) r u.no_space
          (protocol_name-IsElement p valid).0.no_space (status_name-IsElement status).0.no_space in
      let known : Protocol.is_valid (Protocol.parse (Protocol.to_string p)) ≡ true =
        rw (Protocol.parse-to_string p valid) valid in
      parse_start_line-parts l unknown line nl _ n line_facts.0
        (␣-ne-nil uri (Protocol.to_string p ␣ Status.to_string status ␣ r)) small parts
      ∙ rw ((status_name-IsElement status).2, known)
          (report_layout (measured l line nl) (length line) (length uri)
            (length (Protocol.to_string p)) (length (Status.to_string status)) (length r)
            line_facts.1 (status_name-IsElement status).1 short
            (omega (arith, (protocol_name-IsElement p valid).2)))

-- What is read in a view of a report.
pub record ReportRead (v : MsgView) (uri : Bytes) (p : MsgProtocol) (status : ℕ)
    (r headers body : Bytes) : Type 0 where
  pub is_report : msg_type v.layout ≡ report
  pub uri_is : uri_string v ≡ uri
  pub protocol_is : Protocol.parse (protocol_string v) ≡ p
  pub status_is : Status.parse (status_string v) ≡ status
  pub reason_is : reason v ≡ r
  pub headers_are : string v (headers_range v.layout) ≡ headers
  pub body_is : body_string v ≡ body
  pub body_at : v.layout.p_body + length body ≡ length v.msg

-- A report line, header lines, an empty line and any body are read as a report with that URI,
-- protocol, status, reason, headers and body, if the reason is at most 128 bytes long, the status
-- has at most three digits and the header fits 64 KiB; the reason may be the name of a protocol.
-- The type of the message is not told to the parser.
pub report_view :
    (uri : Bytes) (p : MsgProtocol) (status : ℕ) (r nl : Bytes) (lines : List Bytes) (body : Bytes)
    → Newline nl
    → IsElement uri
    → Protocol.is_valid p ≡ true
    → 0 < status
    → status ≤ 999
    → NoNewline r
    → length r ≤ 128
    → AreHeaders lines
    → length (report_line uri p status r) + length nl + length (lines_text nl lines) + length nl
      ≤ 0xFFFF
    → (v : MsgView) × (view
          (report_line uri p status r ++ (nl ++ (lines_text nl lines ++ (nl ++ body))))
          unknown
        ≡ ok v)
      × ReportRead v uri p status r (lines_text nl lines ++ nl) body
unfolding view
report_view uri p status r nl lines body n u valid pos top one short hs small =
    let first = report_line uri p status r in
    let (one_line, len) = line_facts uri p status r nl n u valid one short in
    let headers = lines_text nl lines in
    let at = length first + length nl + length headers + length nl in
    let l = record (measured (record no_layout { p_body = at }) first nl) {
      uri_pos = 0;
      prt_rpos = length (Protocol.to_string p) + 1 + 3 + 1 + length r;
      sts_rpos = 4 + length r;
    } in
    let v : MsgView = record { msg = first ++ (nl ++ (headers ++ (nl ++ body))); layout = l } in
    let parsed : parse_msg v.msg unknown ≡ ok l =
      parse_msg-accept first nl lines body unknown n one_line hs small
      ∙ report_start uri p status r nl n u valid one short (record no_layout { p_body = at })
          (omega arith) in
    let three = (status_name-IsElement status).1 in
    let (kind, uri_name, protocol_name, status_name, reason_text) =
      report_strings v uri (Protocol.to_string p) (Status.to_string status) r _ refl three
        (protocol_name-IsElement p valid).1 (omega (arith, three)) refl refl refl (omega arith) in
    let regrouped : v.msg ≡ first ++ (nl ++ ((headers ++ nl) ++ body)) = simp append_assoc in
    let regroup = ap length regrouped in
    let shows =
      layout-Shows v first nl (headers ++ nl) body regrouped refl refl
        (omega (arith, length-append headers nl)) small in
    (
      v,
      rw parsed,
      record {
        is_report = kind;
        uri_is = uri_name;
        protocol_is = rw protocol_name (Protocol.parse-to_string p valid);
        status_is = rw status_name (Status.RoundTrip.parse-to_string status pos top);
        reason_is = reason_text;
        headers_are = shows.headers_are;
        body_is = shows.body_is;
        body_at =
            omega (
              arith,
              length-split first nl (headers ++ nl) body,
              length-append headers nl,
              regroup,
            );
      },
    )
