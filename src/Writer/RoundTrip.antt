-- ===== src/Writer/RoundTrip.antt =====
-- A message that the writer composes, and what a view of it returns.
use telling.Layout.Accept.{lines_text}
use telling.Layout.Message.{length-split}
use telling.Layout.{unknown}
use telling.Method.{MethodCode}
use telling.Method
use telling.MsgError.{Result, ok, ◌>>=◌}
use telling.Prelude.{
  ℕ, ◌+◌, ◌≤◌, ◌<◌, ◌≡◌, true, false, Option, some, List, [], ◌++◌, Bytes, ap, ◌∙◌, length,
  append_assoc, append-nil, arith,
}
use telling.Protocol.{MsgProtocol}
use telling.Protocol
use telling.View.Ranges.{view-inv}
use telling.View.Requests.{request_line, RequestRead, request_view}
use telling.View.Replies.{reply_line, ReplyRead, NotProtocol, reply_view}
use telling.View.{MsgView, view}
use telling.Writer.Compose.{
  contains_newline-NoNewline, contains_whitespace-IsElement, preferred_newline-Newline, AreWritable,
  header_lines, header_lines-AreHeaders, write_headers, holding, start_request_lem, start_reply_lem,
  write_headers_lem, write_body-release,
}
use telling.Writer.Release.{release}
use telling.Writer.{
  MsgWriter, new_writer, contains_whitespace, contains_newline, start_request, start_reply,
  write_body,
}

-- The calls that compose a request: `startRequest`, `writeHeader` for each header, `writeBody`,
-- `release`.
unfoldable pub write_request :
    MethodCode
    → Bytes
    → MsgProtocol
    → List (Bytes × Bytes)
    → Bytes
    → Result (Option Bytes × MsgWriter)
write_request m uri p hs body = do
  w ← start_request uri m (new_writer p)
  w ← write_headers hs w
  w ← write_body body w
  release w

-- The length of a header block with its start line and its closing line.
abbrev pub header_size : Bytes → MsgProtocol → List (Bytes × Bytes) → ℕ
header_size line p hs =
    let nl = Protocol.preferred_newline p in
    length line + length nl + length (lines_text nl (header_lines hs)) + length nl

-- The text of a message.
abbrev pub message_text : Bytes → MsgProtocol → List (Bytes × Bytes) → Bytes → Bytes
message_text line p hs body =
    let nl = Protocol.preferred_newline p in
    line ++ (nl ++ (lines_text nl (header_lines hs) ++ (nl ++ body)))

module _ (line : Bytes) (p : MsgProtocol) (hs : List (Bytes × Bytes)) (body : Bytes) where
  abbrev nl : Bytes
  nl = Protocol.preferred_newline p

  abbrev opened : Bytes
  opened = (line ++ nl) ++ lines_text nl (header_lines hs)

  newline_pos : 0 < length nl
  unfolding Protocol.preferred_newline
  newline_pos = elim p as (λ q. 0 < length (Protocol.preferred_newline q)) [
    | MsgProtocol.unknown ↦ omega arith
    | _ ↦ omega arith
  ]

  -- The headers end and the body is written, once the message without a body parses.
  finish :
      {v : MsgView}
      → view (message_text line p hs []) unknown ≡ ok v
      → v.layout.p_body + 0 ≡ length v.msg
      → (w : MsgWriter) × ((write_body body (holding p opened) >>= release)
          ≡ ok (some (message_text line p hs body), w))
  finish {v} seen at =
      let (same, parsed) = view-inv (message_text line p hs []) unknown seen in
      let text : opened ++ nl ≡ message_text line p hs [] = simp (append_assoc, append-nil) in
      let whole : opened ++ (nl ++ body) ≡ message_text line p hs body = simp append_assoc in
      let size = length-split line nl (lines_text nl (header_lines hs)) (nl ++ []) in
      let (w, e) =
        write_body-release p opened body v.layout (rw text parsed)
          (λ z. omega (arith, newline_pos, ap length same, size)) in
      (w, e ∙ rw whole)

-- The text of the request that the writer releases.
pub write_request-text :
    (m : MethodCode) (uri : Bytes) (p : MsgProtocol) (hs : List (Bytes × Bytes)) (body : Bytes)
    → Method.is_valid m ≡ true
    → contains_whitespace uri ≡ false
    → Protocol.is_valid p ≡ true
    → AreWritable hs
    → header_size (request_line m uri p) p hs ≤ 0xFFFF
    → (w : MsgWriter) × (write_request m uri p hs body
        ≡ ok (some (message_text (request_line m uri p) p hs body), w))
unfolding write_request
write_request-text m uri p hs body vm hu vp writable small =
    let line = request_line m uri p in
    let nl = Protocol.preferred_newline p in
    let read =
      request_view m uri p nl (header_lines hs) [] (preferred_newline-Newline p) vm vp
        (contains_whitespace-IsElement uri hu) (header_lines-AreHeaders hs writable) small in
    let (w, e) = finish line p hs body read.1 read.2.body_at in
    (w, rw (start_request_lem uri m p vm hu, write_headers_lem hs p (line ++ nl) writable) e)

-- What the writer composes of a valid method, a URI without white space, a valid protocol, headers
-- that `writeHeader` takes and any body, if the header fits 64 KiB: it throws nothing, and the
-- message that it releases is read back, with no type given, as that request.
pub write_request-view :
    (m : MethodCode) (uri : Bytes) (p : MsgProtocol) (hs : List (Bytes × Bytes)) (body : Bytes)
    → Method.is_valid m ≡ true
    → contains_whitespace uri ≡ false
    → Protocol.is_valid p ≡ true
    → AreWritable hs
    → header_size (request_line m uri p) p hs ≤ 0xFFFF
    → (msg : Bytes) × (w : MsgWriter) × (v : MsgView) × (write_request m uri p hs body
        ≡ ok (some msg, w))
      × (view msg unknown ≡ ok v)
      × RequestRead v m uri p
          (lines_text (Protocol.preferred_newline p) (header_lines hs)
            ++ Protocol.preferred_newline p)
          body
write_request-view m uri p hs body vm hu vp writable small =
    let (w, e) = write_request-text m uri p hs body vm hu vp writable small in
    let (v, seen, read) =
      request_view m uri p (Protocol.preferred_newline p) (header_lines hs) body
        (preferred_newline-Newline p) vm vp (contains_whitespace-IsElement uri hu)
        (header_lines-AreHeaders hs writable) small in
    (message_text (request_line m uri p) p hs body, w, v, e, seen, read)

-- `startReply`, `writeHeader` for each header, `writeBody`, `release`.
unfoldable pub write_reply :
    ℕ → Bytes → MsgProtocol → List (Bytes × Bytes) → Bytes → Result (Option Bytes × MsgWriter)
write_reply status reason p hs body = do
  w ← start_reply status reason (new_writer p)
  w ← write_headers hs w
  w ← write_body body w
  release w

-- What the writer composes of a status from 1 to 999, a reason in one line of at most 128 bytes that
-- does not begin with the name of a protocol, a valid protocol, headers that `writeHeader` takes and
-- any body, if the header fits 64 KiB: it throws nothing, and the message that it releases is read
-- back, with no type given, as that reply.
pub write_reply-view :
    (status : ℕ) (reason : Bytes) (p : MsgProtocol) (hs : List (Bytes × Bytes)) (body : Bytes)
    → 0 < status
    → status ≤ 999
    → contains_newline reason ≡ false
    → length reason ≤ 128
    → NotProtocol reason
    → Protocol.is_valid p ≡ true
    → AreWritable hs
    → header_size (reply_line p status reason) p hs ≤ 0xFFFF
    → (msg : Bytes) × (w : MsgWriter) × (v : MsgView) × (write_reply status reason p hs body
        ≡ ok (some msg, w))
      × (view msg unknown ≡ ok v)
      × ReplyRead v p status reason
          (lines_text (Protocol.preferred_newline p) (header_lines hs)
            ++ Protocol.preferred_newline p)
          body
unfolding write_reply
write_reply-view status reason p hs body pos top one short word vp writable small =
    let line = reply_line p status reason in
    let nl = Protocol.preferred_newline p in
    let read = λ (b : Bytes).
      reply_view p status reason nl (header_lines hs) b (preferred_newline-Newline p) vp pos top
        (contains_newline-NoNewline reason one) short word (header_lines-AreHeaders hs writable)
        small in
    let (w, e) = finish line p hs body (read []).1 (read []).2.body_at in
    (
      message_text line p hs body,
      w,
      (read body).0,
      rw (start_reply_lem status reason p one, write_headers_lem hs p (line ++ nl) writable) e,
      (read body).1,
      (read body).2,
    )
