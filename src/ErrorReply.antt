-- ===== src/ErrorReply.antt =====
-- include/telling/msg_util.h and src/telling/msg_util.cpp: the reply that describes an exception.
pub mod Phrases
pub mod Read
use telling.MsgError.{
  MsgError, success, header_incomplete, header_malformed, header_too_big, start_line_malformed,
  already_written, unknown_protocol, Result, ◌>>=◌,
}
use telling.Prelude.{ℕ, Option, List, [], ◌∷◌, ◌++◌, Bytes, codes}
use telling.Protocol.{MsgProtocol}
use telling.Status
use telling.Status.StatusCode
use telling.Writer.RoundTrip.{write_reply}
use telling.Writer.{MsgWriter}

-- `MsgException::what`
unfoldable pub what : MsgError → Bytes
what success = codes "The message was parsed successfully."
what header_incomplete = codes "The message's header is incomplete."
what header_malformed = codes "The message contains a malformed header."
what header_too_big = codes "The message header is too large (>64KiB)."
what start_line_malformed = codes "The message's start line is malformed."
what already_written = codes "The message's header has already been written."
what unknown_protocol = codes "The protocol is not supported."

-- `MsgException::replyStatus`
unfoldable pub reply_status : MsgError → ℕ
reply_status success = StatusCode.ok
reply_status already_written = StatusCode.internal_server_error
reply_status header_too_big = StatusCode.request_header_fields_too_large
reply_status unknown_protocol = StatusCode.http_version_not_supported
reply_status _ = StatusCode.bad_request

-- The header that both replies have.
abbrev pub plain_text : List (Bytes × Bytes)
plain_text = (codes "Content-Type", codes "text/plain") ∷ []

-- `if (error_context.length())` of `ReplyableException::replyWithError`
unfoldable pub context_text : Bytes → Bytes
context_text [] = []
context_text (c ∷ cs) = (c ∷ cs) ++ codes ": "

-- `ReplyableException::replyWithError`, of an exception with this status and this message.
unfoldable pub reply_with_error : ℕ → Bytes → Bytes → Result (Option Bytes × MsgWriter)
unfolding context_text
reply_with_error status message error_context =
    write_reply status (Status.reason_phrase status) MsgProtocol.tell plain_text
      (context_text error_context ++ message)

unfoldable pub error_context_text : Bytes → Bytes
error_context_text [] = []
error_context_text (c ∷ cs) = codes " in `" ++ ((c ∷ cs) ++ codes "`:\r\n\t")

unfoldable pub excerpt_text : Bytes → Bytes
excerpt_text [] = []
excerpt_text (c ∷ cs) = codes "\r\nAt location:\r\n\t`" ++ ((c ∷ cs) ++ codes "`")

-- What `MsgException::replyWithError` writes to the body.
unfoldable pub error_body : MsgError → Bytes → Bytes → Bytes
unfolding what error_context_text excerpt_text
error_body error excerpt error_context =
    error_context_text error_context ++ (what error ++ (excerpt_text excerpt ++ codes "\r\n"))

-- `MsgException::replyWithError`
unfoldable pub msg_exception_reply : MsgError → Bytes → Bytes → Result (Option Bytes × MsgWriter)
unfolding reply_status error_body
msg_exception_reply error excerpt error_context =
    write_reply (reply_status error) (Status.reason_phrase (reply_status error)) MsgProtocol.tell
      plain_text (error_body error excerpt error_context)
