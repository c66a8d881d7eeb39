-- ===== src/Tests/Messages.antt =====
-- Runs of the message format, and its theorems at concrete messages.
use telling.Layout.Message.{parse_msg-ends}
use telling.Layout.Parse.{
  skip_headers, take_word, line_parts, offsets, choose_type, parse_start_line, parse_from,
  parse_msg,
}
use telling.Layout.{unknown, reply, MsgLayout, set_start_line, line_length, set_elements}
use telling.Lines.{consume_line}
use telling.Method.{MethodCode}
use telling.Method
use telling.MsgError.{ok, err, no_fuel, start_line_malformed, header_incomplete}
use telling.Prelude.{◌≡◌, ◌≢◌, refl, some, [], ◌∷◌, Bytes, codes, same_text, arith}
use telling.Protocol.{MsgProtocol}
use telling.Protocol
use telling.Protocol.{parse_protocol_iff}
use telling.Status
use telling.View.Replies.{ReplyRead}
use telling.View.Requests.{RequestRead}
use telling.View.{MsgView, view}
use telling.Writer.RoundTrip.{write_request, write_request-view, write_reply, write_reply-view}
use telling.Writer.{MsgWriter, contains_whitespace, contains_newline, bad_name}

abbrev get_text : Bytes
get_text = codes "GET /a Tell/0\nHost:x\n\nbody"

abbrev get_layout : MsgLayout
get_layout = record { p_body = 22; sl_len = 13; uri_pos = 4; prt_rpos = 6; sts_rpos = 0; sl_nl = 1 }

-- A lone carriage return does not end a start line, though it ends a header line.
parse_cr : parse_msg (codes "GET /a Tell/0\rHost:x\r\rbody") unknown ≡ err start_line_malformed
unfolding parse_msg parse_from parse_start_line consume_line skip_headers line_parts choose_type
    offsets set_start_line line_length set_elements
parse_cr = refl

parse_open : parse_msg (codes "GET /a Tell/0\nHost:x\n") unknown ≡ err header_incomplete
unfolding parse_msg consume_line skip_headers
parse_open = refl

parse_msg-ends_example : parse_msg get_text reply ≢ no_fuel
parse_msg-ends_example = parse_msg-ends get_text reply

abbrev get_view : MsgView
get_view = record { msg = get_text; layout = get_layout }

view_get : view get_text unknown ≡ ok get_view
unfolding view parse_msg parse_from parse_start_line consume_line skip_headers line_parts
    choose_type offsets set_start_line line_length set_elements same_text
view_get = refl

write_request-view_example :
    (msg : Bytes) × (w : MsgWriter) × (v : MsgView) × (write_request MethodCode.post
        (codes "*services")
        MsgProtocol.http_1_1
        ((codes "Host", codes " x") ∷ [])
        (codes "/a\n/b")
      ≡ ok (some msg, w))
    × (view msg unknown ≡ ok v)
    × RequestRead v MethodCode.post
        (codes "*services")
        MsgProtocol.http_1_1
        (codes "Host: x\r\n\r\n")
        (codes "/a\n/b")
unfolding Method.is_valid Method.to_string Protocol.is_valid Protocol.to_string
    Protocol.preferred_newline contains_whitespace contains_newline bad_name
write_request-view_example =
    write_request-view MethodCode.post (codes "*services") MsgProtocol.http_1_1
      ((codes "Host", codes " x") ∷ []) (codes "/a\n/b") refl refl refl ((refl, refl), tt)
      (omega arith)

write_reply-view_example :
    (msg : Bytes) × (w : MsgWriter) × (v : MsgView) × (write_reply 404
        (codes "Not Found")
        MsgProtocol.tell
        []
        (codes "none")
      ≡ ok (some msg, w))
    × (view msg unknown ≡ ok v)
    × ReplyRead v MsgProtocol.tell 404 (codes "Not Found") (codes "\n") (codes "none")
unfolding Protocol.is_valid Protocol.to_string Protocol.preferred_newline Protocol.parse
    Status.to_string contains_newline take_word
write_reply-view_example =
    write_reply-view 404 (codes "Not Found") MsgProtocol.tell [] (codes "none") (omega arith)
      (omega arith) refl (omega arith) refl refl tt (omega arith)
