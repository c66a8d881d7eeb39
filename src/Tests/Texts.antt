-- ===== src/Tests/Texts.antt =====
-- Theorems on headers, URIs, addresses and error replies at concrete texts.
use telling.ErrorReply.Read.{plain_headers, msg_exception_reply-view}
use telling.ErrorReply.{msg_exception_reply, error_body, reply_status}
use telling.Headers.Block.{headers_read}
use telling.Headers.Written.{write_request_headers}
use telling.Headers.{read_headers}
use telling.HostAddress.{HostAddress, tcp}
use telling.Layout.{unknown}
use telling.Method.{MethodCode}
use telling.Method
use telling.MsgError.{ok, header_too_big}
use telling.Prelude.{suc, ◌≡◌, refl, some, [], ◌∷◌, Bytes, codes, arith, length}
use telling.Protocol.{MsgProtocol}
use telling.Protocol
use telling.Status
use telling.Uri.Segments.{pop_front-pop_spec, pop_spec, skip_slashes}
use telling.Uri.{pop_front}
use telling.View.Replies.{ReplyRead}
use telling.View.{MsgView, view, headers_string}
use telling.Writer.RoundTrip.{write_request}
use telling.Writer.{MsgWriter, contains_whitespace, contains_newline, bad_name}

write_request_headers_example :
    (msg : Bytes) × (w : MsgWriter) × (v : MsgView) × (write_request MethodCode.get
        (codes "/a")
        MsgProtocol.http_1_1
        ((codes "Host", codes " x ") ∷ (codes "B", []) ∷ [])
        (codes "body")
      ≡ ok (some msg, w))
    × (view msg unknown ≡ ok v)
    × (read_headers (suc (length (headers_string v))) (headers_string v)
        ≡ some (headers_read ((codes "Host", codes " x ") ∷ (codes "B", []) ∷ [])))
unfolding Method.is_valid Method.to_string Protocol.is_valid Protocol.to_string
    Protocol.preferred_newline contains_whitespace contains_newline bad_name
write_request_headers_example =
    write_request_headers MethodCode.get (codes "/a") MsgProtocol.http_1_1
      ((codes "Host", codes " x ") ∷ (codes "B", []) ∷ []) (codes "body") refl refl refl
      ((refl, refl), ((refl, refl), tt)) (omega arith)

abbrev local : HostAddress
local = record { transport = tcp; number = 65535; name = [] }

pop_front-pop_spec_example :
    pop_front (codes "//a/b") ≡ pop_spec (codes "//a/b") (skip_slashes (codes "//a/b"))
pop_front-pop_spec_example = pop_front-pop_spec (codes "//a/b")

msg_exception_reply-view_example :
    (msg : Bytes) × (w : MsgWriter) × (v : MsgView) × (msg_exception_reply header_too_big
        (codes "x")
        []
      ≡ ok (some msg, w))
    × (view msg unknown ≡ ok v)
    × ReplyRead v MsgProtocol.tell
        (reply_status header_too_big)
        (Status.reason_phrase (reply_status header_too_big))
        plain_headers
        (error_body header_too_big (codes "x") [])
msg_exception_reply-view_example = msg_exception_reply-view header_too_big (codes "x") []
