-- ===== src/View/Requests.antt =====
-- A request message, and what a view of it returns.
use telling.Layout.Accept.{Newline, lines_text, AreHeaders, parse_msg-accept}
use telling.Layout.Compose.{NoSpace, ◌␣◌, line_parts-three, parse_start_line-parts, request_layout}
use telling.Layout.Message.{length-split}
use telling.Layout.Parse.{parse_msg, detect, choose_type, offsets, parse_start_line}
use telling.Layout.StartLine.{measured}
use telling.Layout.{
  MsgType, request, unknown, MsgLayout, no_layout, msg_type, method_range, uri_range,
  protocol_range, headers_range,
}
use telling.Lines.Split.{NoNewline}
use telling.Method.{MethodCode}
use telling.Method
use telling.Method.RoundTrip
use telling.MsgError.{ok}
use telling.Prelude.{
  ◌+◌, ◌≤◌, ◌<◌, ◌≡◌, ◌≢◌, refl, true, List, [], ◌∷◌, ◌++◌, Bytes, ap, ◌∙◌, length, length-append,
  append_assoc, arith,
}
use telling.Protocol.{MsgProtocol}
use telling.Protocol
use telling.View.Ranges.{string-middle, layout-Shows}
use telling.View.{MsgView, view, string, method_string, uri_string, protocol_string, body_string}

-- An element of a start line: no space and no end of line in it.
pub record IsElement (s : Bytes) : Type 0 where
  pub no_space : NoSpace s
  pub no_newline : NoNewline s

pub method_name-IsElement :
    (m : MethodCode)
    → Method.is_valid m ≡ true
    → IsElement (Method.to_string m) × (length (Method.to_string m) ≤ 14)
unfolding Method.to_string
method_name-IsElement MethodCode.get h = omega arith
method_name-IsElement _ h = omega arith

pub protocol_name-IsElement :
    (p : MsgProtocol)
    → Protocol.is_valid p ≡ true
    → IsElement (Protocol.to_string p)
      × (0 < length (Protocol.to_string p))
      × (length (Protocol.to_string p) ≤ 8)
unfolding Protocol.to_string Protocol.is_valid
protocol_name-IsElement MsgProtocol.tell h = omega arith
protocol_name-IsElement MsgProtocol.unknown h = cc
protocol_name-IsElement MsgProtocol.none h = cc
protocol_name-IsElement _ h = omega arith

pub length-␣ : (a b : Bytes) → length (a ␣ b) ≡ length a + 1 + length b
length-␣ a b = omega (arith, length-append a (32 ∷ b))

pub NoNewline-␣ : (a b : Bytes) → NoNewline a → NoNewline b → NoNewline (a ␣ b)
NoNewline-␣ [] b ha hb = (λ e. omega arith, λ e. omega arith, hb)
NoNewline-␣ (c ∷ a) b ha hb = (ha.0, ha.1, NoNewline-␣ a b ha.2 hb)

-- The strings of a view whose layout has these numbers.
module _ (v : MsgView) (m u p rest : Bytes) (whole : v.msg ≡ (m ␣ u ␣ p) ++ rest)
    (len : v.layout.sl_len ≡ length m + 1 + length u + 1 + length p)
    (uri_at : v.layout.uri_pos ≡ length m + 1) (prt_at : v.layout.prt_rpos ≡ length p)
    (sts_at : v.layout.sts_rpos ≡ 0) (some_protocol : 0 < length p)
    (small : v.layout.sl_len ≤ 0xFFFF) where
  method_string_lem : method_string v ≡ m
  unfolding method_string method_range
  method_string_lem =
      string-middle v (method_range v.layout) [] m ((b' ' ∷ (u ␣ p)) ++ rest)
        (whole ∙ append_assoc m (b' ' ∷ (u ␣ p)) rest) refl (ground arith)

  uri_string_lem : uri_string v ≡ u
  unfolding uri_string uri_range
  uri_string_lem =
      string-middle v (uri_range v.layout) (m ++ (b' ' ∷ [])) u ((b' ' ∷ p) ++ rest)
        (whole ∙ simp append_assoc) (ground (arith, length-append m (b' ' ∷ []))) (ground arith)

  protocol_string_lem : protocol_string v ≡ p
  unfolding protocol_string protocol_range
  protocol_string_lem =
      string-middle v (protocol_range v.layout) (m ␣ (u ++ (b' ' ∷ []))) p rest
        (whole ∙ simp append_assoc)
        (ground (arith, length-␣ m (u ++ (b' ' ∷ [])), length-append u (b' ' ∷ []))) (ground arith)

  pub request_strings :
      (msg_type v.layout ≡ request)
      × (method_string v ≡ m)
      × (uri_string v ≡ u)
      × (protocol_string v ≡ p)
  unfolding msg_type
  request_strings = (ground arith, method_string_lem, uri_string_lem, protocol_string_lem)

-- The first line of a request: METHOD URI PROTOCOL.
abbrev pub request_line : MethodCode → Bytes → MsgProtocol → Bytes
request_line m uri p = Method.to_string m ␣ uri ␣ Protocol.to_string p

pub ␣-ne-nil : (a b : Bytes) → a ␣ b ≢ []
␣-ne-nil [] b e = cc
␣-ne-nil (c ∷ a) b e = cc

module _ (m : MethodCode) (uri : Bytes) (p : MsgProtocol) (nl : Bytes) (n : Newline nl)
    (valid_m : Method.is_valid m ≡ true) (valid_p : Protocol.is_valid p ≡ true)
    (u : IsElement uri) where
  abbrev line : Bytes
  line = request_line m uri p

  line_facts :
      NoNewline line
      × (length line
          ≡ length (Method.to_string m) + 1 + length uri + 1 + length (Protocol.to_string p))
  line_facts = (
    NoNewline-␣ (Method.to_string m) (uri ␣ Protocol.to_string p)
        (method_name-IsElement m valid_m).0.no_newline
        (NoNewline-␣ uri (Protocol.to_string p) u.no_newline
          (protocol_name-IsElement p valid_p).0.no_newline),
    omega (
      arith,
      length-␣ (Method.to_string m) (uri ␣ Protocol.to_string p),
      length-␣ uri (Protocol.to_string p),
    ),
  )

  abbrev parts : List Bytes
  parts = Method.to_string m ∷ uri ∷ Protocol.to_string p ∷ []

  -- The start line of a request is detected as one.
  pub chosen_unknown : choose_type unknown parts ≡ request
  unfolding choose_type detect
  chosen_unknown =
      let detected : Protocol.is_valid (Protocol.parse (Protocol.to_string p)) ≡ true =
        rw (Protocol.parse-to_string p valid_p) valid_p in
      rw detected refl

  -- The start line of a request is laid out.
  request_start :
      (l : MsgLayout) (given : MsgType)
      → choose_type given parts ≡ request
      → length line ≤ 0xFFFF
      → parse_start_line l given line (line ++ nl)
        ≡ ok (record (measured l line nl) {
          uri_pos = length (Method.to_string m) + 1;
          prt_rpos = length (Protocol.to_string p);
          sts_rpos = 0;
        })
  unfolding offsets
  request_start l given chosen small =
      let three =
        line_parts-three (Method.to_string m) uri (Protocol.to_string p)
          (method_name-IsElement m valid_m).0.no_space u.no_space
          (protocol_name-IsElement p valid_p).0.no_space in
      parse_start_line-parts l given line nl _ n line_facts.0
        (␣-ne-nil (Method.to_string m) (uri ␣ Protocol.to_string p)) small three
      ∙ rw chosen (
          request_layout (measured l line nl) (length line) (length (Method.to_string m))
            (length uri) (length (Protocol.to_string p)) line_facts.1
            (method_name-IsElement m valid_m).1
            (omega (arith, (protocol_name-IsElement p valid_p).2)))

-- What is read in a view of a request.
pub record RequestRead (v : MsgView) (m : MethodCode) (uri : Bytes) (p : MsgProtocol)
    (headers body : Bytes) : Type 0 where
  pub is_request : msg_type v.layout ≡ request
  pub method_is : Method.parse (method_string v) ≡ m
  pub uri_is : uri_string v ≡ uri
  pub protocol_is : Protocol.parse (protocol_string v) ≡ p
  pub headers_are : string v (headers_range v.layout) ≡ headers
  pub body_is : body_string v ≡ body
  pub body_at : v.layout.p_body + length body ≡ length v.msg

-- A request line, header lines, an empty line and any body are read as a request of that method,
-- URI and protocol, with those headers and that body, where the type that is given, or else detected,
-- is that of a request, if the header fits 64 KiB.
pub request-view_as :
    (given : MsgType) (m : MethodCode) (uri : Bytes) (p : MsgProtocol) (nl : Bytes)
    (lines : List Bytes) (body : Bytes)
    → Newline nl
    → Method.is_valid m ≡ true
    → Protocol.is_valid p ≡ true
    → IsElement uri
    → choose_type given (Method.to_string m ∷ uri ∷ Protocol.to_string p ∷ []) ≡ request
    → AreHeaders lines
    → length (request_line m uri p) + length nl + length (lines_text nl lines) + length nl ≤ 0xFFFF
    → (v : MsgView) × (view
          (request_line m uri p ++ (nl ++ (lines_text nl lines ++ (nl ++ body))))
          given
        ≡ ok v)
      × RequestRead v m uri p (lines_text nl lines ++ nl) body
unfolding view
request-view_as given m uri p nl lines body n vm vp u chosen hs small =
    let first = request_line m uri p in
    let (one, len) = line_facts m uri p nl n vm vp u in
    let headers = lines_text nl lines in
    let at = length first + length nl + length headers + length nl in
    let l = record (measured (record no_layout { p_body = at }) first nl) {
      uri_pos = length (Method.to_string m) + 1;
      prt_rpos = length (Protocol.to_string p);
      sts_rpos = 0;
    } in
    let v : MsgView = record { msg = first ++ (nl ++ (headers ++ (nl ++ body))); layout = l } in
    let parsed : parse_msg v.msg given ≡ ok l =
      parse_msg-accept first nl lines body given n one hs small
      ∙ request_start m uri p nl n vm vp u (record no_layout { p_body = at }) given chosen
          (omega arith) in
    let (kind, method_name, uri_name, protocol_name) =
      request_strings v (Method.to_string m) uri (Protocol.to_string p) _ refl len refl refl refl
        (protocol_name-IsElement p vp).1 (omega arith) in
    let regrouped : v.msg ≡ first ++ (nl ++ ((headers ++ nl) ++ body)) = simp append_assoc in
    let regroup = ap length regrouped in
    let shows =
      layout-Shows v first nl (headers ++ nl) body regrouped refl refl
        (omega (arith, length-append headers nl)) small in
    (
      v,
      rw parsed,
      record {
        is_request = kind;
        method_is = rw method_name (Method.RoundTrip.parse-to_string m vm);
        uri_is = uri_name;
        protocol_is = rw protocol_name (Protocol.parse-to_string p vp);
        headers_are = shows.headers_are;
        body_is = shows.body_is;
        body_at =
            omega (
              arith,
              length-split first nl (headers ++ nl) body,
              length-append headers nl,
              regroup,
            );
      },
    )

-- The same where the type of the message is not told to the parser.
pub request_view :
    (m : MethodCode) (uri : Bytes) (p : MsgProtocol) (nl : Bytes) (lines : List Bytes)
    (body : Bytes)
    → Newline nl
    → Method.is_valid m ≡ true
    → Protocol.is_valid p ≡ true
    → IsElement uri
    → AreHeaders lines
    → length (request_line m uri p) + length nl + length (lines_text nl lines) + length nl ≤ 0xFFFF
    → (v : MsgView) × (view
          (request_line m uri p ++ (nl ++ (lines_text nl lines ++ (nl ++ body))))
          unknown
        ≡ ok v)
      × RequestRead v m uri p (lines_text nl lines ++ nl) body
request_view m uri p nl lines body n vm vp u hs small =
    request-view_as unknown m uri p nl lines body n vm vp u (chosen_unknown m uri p nl n vm vp u) hs
      small
