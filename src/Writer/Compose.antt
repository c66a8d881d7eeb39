-- ===== src/Writer/Compose.antt =====
-- What the writer's methods append, step by step.
use telling.Layout.Accept.{Newline, lf, crlf, lines_text, AreHeaders}
use telling.Layout.Parse.{parse_msg}
use telling.Layout.{MsgType, MsgLayout}
use telling.Lines.Split.{NoNewline}
use telling.Method.{MethodCode}
use telling.Method
use telling.MsgError.{Result, ok, ◌>>=◌}
use telling.Prelude.{
  ℕ, ◌≡◌, ◌≢◌, true, false, none, some, List, [], ◌∷◌, ◌++◌, Bytes, ap, ◌∙◌, append_assoc,
  append-nil, arith, ◌==◌,
}
use telling.Protocol.{MsgProtocol}
use telling.Protocol
use telling.View.Requests.{IsElement, request_line}
use telling.View.Replies.{reply_line}
use telling.Writer.{
  MsgWriter, new_writer, contains_newline, contains_whitespace, bad_name, start_request,
  start_reply, write_header, write_body,
}
use telling.Writer.Release.{release, complete_length}

pub contains_newline-NoNewline : (s : Bytes) → contains_newline s ≡ false → NoNewline s
unfolding contains_newline
contains_newline-NoNewline [] h = tt
contains_newline-NoNewline (c ∷ s) h = ground (arith, contains_newline-NoNewline s)

pub contains_whitespace-IsElement : (s : Bytes) → contains_whitespace s ≡ false → IsElement s
unfolding contains_whitespace
contains_whitespace-IsElement [] h = record { no_space = tt; no_newline = tt }
contains_whitespace-IsElement (c ∷ s) h = ground (arith, contains_whitespace-IsElement s)

pub preferred_newline-Newline : (p : MsgProtocol) → Newline (Protocol.preferred_newline p)
unfolding Protocol.preferred_newline
preferred_newline-Newline MsgProtocol.http_1_0 = crlf
preferred_newline-Newline MsgProtocol.http_1_1 = crlf
preferred_newline-Newline _ = lf

-- A header that `writeHeader` accepts, and its line.
abbrev pub IsHeader : Bytes × Bytes → Type 0
IsHeader (name, value) = (bad_name name ≡ false) × (contains_newline value ≡ false)

abbrev pub header_line : Bytes × Bytes → Bytes
header_line (name, value) = name ++ (b':' ∷ value)

header_line-NoNewline :
    (name value : Bytes)
    → bad_name name ≡ false
    → contains_newline value ≡ false
    → NoNewline (name ++ (b':' ∷ value)) × (name ++ (b':' ∷ value) ≢ [])
unfolding bad_name
header_line-NoNewline [] value hn hv =
    ((λ e. omega arith, λ e. omega arith, contains_newline-NoNewline value hv), λ e. cc)
header_line-NoNewline (c ∷ name) value hn hv = ground (arith, header_line-NoNewline name value)

abbrev pub AreWritable : List (Bytes × Bytes) → Type 0
AreWritable [] = Unit {0}
AreWritable (h ∷ hs) = IsHeader h × AreWritable hs

abbrev pub header_lines : List (Bytes × Bytes) → List Bytes
header_lines [] = []
header_lines (h ∷ hs) = header_line h ∷ header_lines hs

pub header_lines-AreHeaders :
    (hs : List (Bytes × Bytes)) → AreWritable hs → AreHeaders (header_lines hs)
header_lines-AreHeaders [] w = tt
header_lines-AreHeaders ((name, value) ∷ hs) w =
    let (one, ne) = header_line-NoNewline name value w.0.0 w.0.1 in
    (one, ne, header_lines-AreHeaders hs w.1)

-- Writing one header after the other.
unfoldable pub write_headers : List (Bytes × Bytes) → MsgWriter → Result MsgWriter
write_headers [] w = ok w
write_headers ((name, value) ∷ hs) w = do w ← write_header name value w; write_headers hs w

-- A writer whose header is open, and that holds this text.
abbrev pub holding : MsgProtocol → Bytes → MsgWriter
holding p text = record (new_writer p) { msg = some text }

pub start_request_lem :
    (uri : Bytes) (m : MethodCode) (p : MsgProtocol)
    → Method.is_valid m ≡ true
    → contains_whitespace uri ≡ false
    → start_request uri m (new_writer p)
      ≡ ok (holding p (request_line m uri p ++ Protocol.preferred_newline p))
unfolding start_request new_writer
start_request_lem uri m p hm hu = rw (hm, hu) (ap (λ t. ok (holding p t)) (simp append_assoc))

pub start_reply_lem :
    (status : ℕ) (reason : Bytes) (p : MsgProtocol)
    → contains_newline reason ≡ false
    → start_reply status reason (new_writer p)
      ≡ ok (holding p (reply_line p status reason ++ Protocol.preferred_newline p))
unfolding start_reply new_writer
start_reply_lem status reason p h = rw h (ap (λ t. ok (holding p t)) (simp append_assoc))

write_header_lem :
    (name value : Bytes) (p : MsgProtocol) (text : Bytes)
    → bad_name name ≡ false
    → contains_newline value ≡ false
    → write_header name value (holding p text)
      ≡ ok (holding p (text ++ ((name ++ (b':' ∷ value)) ++ Protocol.preferred_newline p)))
unfolding write_header new_writer
write_header_lem name value p text hn hv =
    rw (hn, hv) (ap (λ t. ok (holding p t)) (simp append_assoc))

pub write_headers_lem :
    (hs : List (Bytes × Bytes)) (p : MsgProtocol) (text : Bytes)
    → AreWritable hs
    → write_headers hs (holding p text)
      ≡ ok (holding p (text ++ lines_text (Protocol.preferred_newline p) (header_lines hs)))
unfolding write_headers
write_headers_lem [] p text w = rw append-nil
write_headers_lem ((name, value) ∷ hs) p text w =
    rw (write_header_lem name value p text w.0.0 w.0.1)
      (write_headers_lem hs p _ w.1 ∙ ap (λ t. ok (holding p t)) (simp append_assoc))

-- Ending the headers where the message parses, and then writing and releasing.
pub write_body-release :
    (p : MsgProtocol) (text body : Bytes) (l : MsgLayout)
    → parse_msg (text ++ Protocol.preferred_newline p) MsgType.unknown ≡ ok l
    → l.p_body ≢ 0
    → (w : MsgWriter) × ((write_body body (holding p text) >>= release)
        ≡ ok (some (text ++ (Protocol.preferred_newline p ++ body)), w))
unfolding write_body release new_writer complete_length
write_body-release p text body l parsed ne =
    let closed : (l.p_body == 0) ≡ false = ground arith in
    (
      record (holding p text) { msg = none; layout = l },
      rw (parsed, closed) (rw (append_assoc text (Protocol.preferred_newline p) body)),
    )
