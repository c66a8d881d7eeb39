-- ===== src/ErrorReply/Read.antt =====
-- What a client reads of the reply to an exception.
use telling.ErrorReply.{
  reply_with_error, context_text, plain_text, msg_exception_reply, reply_status, error_body,
}
use telling.Layout.{unknown}
use telling.MsgError.{MsgError, success, header_too_big, already_written, unknown_protocol, ok}
use telling.Prelude.{
  ℕ, ◌≤◌, ◌<◌, ◌≡◌, refl, false, some, [], ◌∷◌, ◌++◌, Bytes, codes, length, length-append, arith,
}
use telling.Protocol.{MsgProtocol}
use telling.Protocol
use telling.Status
use telling.Status.Reasons.{reason_phrase-Fits}
use telling.ErrorReply.Phrases.{reason_phrase-NotProtocol}
use telling.Lines.Split.{NoNewline}
use telling.View.Replies.{ReplyRead, reply_line}
use telling.View.{MsgView, view}
use telling.Writer.Compose.{AreWritable}
use telling.Writer.RoundTrip.{write_reply, write_reply-view, header_size}
use telling.Writer.{MsgWriter, contains_newline, bad_name}

-- The header block of such a reply, with its closing line.
abbrev pub plain_headers : Bytes
plain_headers = codes "Content-Type:text/plain\n\n"

plain_text-AreWritable : AreWritable plain_text
unfolding bad_name contains_newline
plain_text-AreWritable = ((refl, refl), tt)

pub NoNewline-contains_newline : (s : Bytes) → NoNewline s → contains_newline s ≡ false
unfolding contains_newline
NoNewline-contains_newline [] h = refl
NoNewline-contains_newline (c ∷ s) h = ground (arith, NoNewline-contains_newline s h.2)

pub length-to_string : (status : ℕ) → length (Status.to_string status) ≤ 3
unfolding Status.to_string
length-to_string status = ground arith

header_size-reply :
    (status : ℕ) (r : Bytes)
    → length r ≤ 128
    → header_size (reply_line MsgProtocol.tell status r) MsgProtocol.tell plain_text ≤ 0xFFFF
unfolding Protocol.to_string Protocol.preferred_newline
header_size-reply status r h =
    omega (arith, length-append (Status.to_string status) (b' ' ∷ r), length-to_string status)

-- A plain-text reply of any status with at most three digits is read as it was written.
pub reply_text_view :
    (status : ℕ) (text : Bytes)
    → 0 < status
    → status ≤ 999
    → (msg : Bytes) × (w : MsgWriter) × (v : MsgView) × (write_reply status
          (Status.reason_phrase status)
          MsgProtocol.tell
          plain_text
          text
        ≡ ok (some msg, w))
      × (view msg unknown ≡ ok v)
      × ReplyRead v MsgProtocol.tell status (Status.reason_phrase status) plain_headers text
unfolding Protocol.is_valid Protocol.preferred_newline
reply_text_view status text pos top =
    let (one, short) = reason_phrase-Fits status in
    write_reply-view status (Status.reason_phrase status) MsgProtocol.tell plain_text text pos top
      (NoNewline-contains_newline (Status.reason_phrase status) one) short
      (reason_phrase-NotProtocol status) refl plain_text-AreWritable
      (header_size-reply status (Status.reason_phrase status) short)

-- The reply to an exception of any status with at most three digits is read as a reply of that
-- status, with its reason phrase, as plain text that is the context, if there is one, and the
-- exception's message.
pub reply_with_error-view :
    (status : ℕ) (message error_context : Bytes)
    → 0 < status
    → status ≤ 999
    → (msg : Bytes) × (w : MsgWriter) × (v : MsgView) × (reply_with_error status message
          error_context
        ≡ ok (some msg, w))
      × (view msg unknown ≡ ok v)
      × ReplyRead v MsgProtocol.tell status
          (Status.reason_phrase status)
          plain_headers
          (context_text error_context ++ message)
unfolding reply_with_error
reply_with_error-view status message error_context pos top =
    reply_text_view status (context_text error_context ++ message) pos top

reply_status-range : (error : MsgError) → (0 < reply_status error) × (reply_status error ≤ 999)
unfolding reply_status
reply_status-range success = omega arith
reply_status-range already_written = omega arith
reply_status-range header_too_big = omega arith
reply_status-range unknown_protocol = omega arith
reply_status-range _ = omega arith

-- The reply to any error in a message, whatever its excerpt and its context, is read as a reply of
-- the status of the error, with its reason phrase and the description of the error as plain text.
pub msg_exception_reply-view :
    (error : MsgError) (excerpt error_context : Bytes)
    → (msg : Bytes) × (w : MsgWriter) × (v : MsgView) × (msg_exception_reply error excerpt
          error_context
        ≡ ok (some msg, w))
      × (view msg unknown ≡ ok v)
      × ReplyRead v MsgProtocol.tell
          (reply_status error)
          (Status.reason_phrase (reply_status error))
          plain_headers
          (error_body error excerpt error_context)
unfolding msg_exception_reply
msg_exception_reply-view error excerpt error_context =
    let (pos, top) = reply_status-range error in
    let status = reply_status error in
    reply_text_view status (error_body error excerpt error_context) pos top
