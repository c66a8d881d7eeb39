-- ===== src/View.antt =====
-- include/telling/msg_view.h, class MsgView: a message with its layout. A `nng::view` or a
-- `string_view` into the message is the bytes that it shows.
pub mod Ranges
pub mod Requests
pub mod Replies
pub mod Reports
pub mod Completion
use telling.Layout.Parse.{parse_msg}
use telling.Layout.{
  MsgType, unknown, HeadRange, MsgLayout, no_layout, msg_type, start_line_range, headers_range,
  method_range, uri_range, protocol_range, status_range, reason_range,
}
use telling.MsgError.{Result, ok, ◌>>=◌}
use telling.Prelude.{
  ℕ, ◌-◌, Bool, true, false, Bytes, [], ◌∷◌, ◌==◌, if◌then◌else◌, length, take, drop, get_or,
}

pub record MsgView : Type 0 where
  pub msg : Bytes
  pub layout : MsgLayout

-- The constructors `MsgView(msg)` (type UNKNOWN) and `MsgView(msg, type)`, for a message that is
-- not null.
unfoldable pub view : Bytes → MsgType → Result MsgView
view msg given = do layout ← parse_msg msg given; ok (record { msg = msg; layout = layout })

-- `_string` and `_view`
unfoldable pub string : MsgView → HeadRange → Bytes
string v r = take r.size (drop r.start v.msg)

-- `explicit operator bool`
unfoldable pub is_valid : MsgView → Bool
is_valid v = elim (msg_type v.layout) [ MsgType.unknown ↦ false | _ ↦ true ]

unfoldable pub start_line : MsgView → Bytes
unfolding string start_line_range
start_line v = string v (start_line_range v.layout)

unfoldable pub uri_string : MsgView → Bytes
unfolding string uri_range
uri_string v = string v (uri_range v.layout)

unfoldable pub method_string : MsgView → Bytes
unfolding string method_range
method_string v = string v (method_range v.layout)

unfoldable pub protocol_string : MsgView → Bytes
unfolding string protocol_range
protocol_string v = string v (protocol_range v.layout)

unfoldable pub status_string : MsgView → Bytes
unfolding string status_range
status_string v = string v (status_range v.layout)

unfoldable pub reason : MsgView → Bytes
unfolding string reason_range
reason v = string v (reason_range v.layout)

-- `_string_rem_nl` on a view that is not empty: a last `\n`, then a last `\r`, is removed.
-- `s.size() && s.back() == '\r'`
unfoldable pub remove_last : ℕ → Bytes → Bytes
remove_last c [] = []
remove_last c (x ∷ []) = if x == c then [] else x ∷ []
remove_last c (x ∷ y ∷ ys) = x ∷ remove_last c (y ∷ ys)

unfoldable pub headers_string : MsgView → Bytes
unfolding string headers_range remove_last
headers_string v = remove_last b'\r' (remove_last b'\n' (string v (headers_range v.layout)))

unfoldable pub body_size : MsgView → ℕ
body_size v = length v.msg - v.layout.p_body

unfoldable pub body_string : MsgView → Bytes
unfolding string body_size
body_string v = string v (record { start = v.layout.p_body; size = body_size v })
