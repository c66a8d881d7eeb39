-- ===== src/View/Ranges.antt =====
-- What the accessors of a parsed message return.
use telling.Layout.Message.{Parsed, parse_msg-Parsed, length-split}
use telling.Layout.Parse.{parse_msg}
use telling.Layout.{MsgType, HeadRange, start_line_range, headers_range}
use telling.MsgError.{ok}
use telling.Prelude.{
  ◌+◌, ◌≤◌, ◌≡◌, refl, [], ◌++◌, Bytes, length, take-append, drop-append, append-nil, length-append,
  append_assoc, subst, ◌∙◌, sym, arith,
}
use telling.View.{MsgView, view, string, start_line, body_string, body_size}

-- Cutting a middle piece out of a text.
pub string-middle :
    (v : MsgView) (r : HeadRange) (before piece behind : Bytes)
    → v.msg ≡ before ++ (piece ++ behind)
    → r.start ≡ length before
    → r.size ≡ length piece
    → string v r ≡ piece
unfolding string
string-middle v r before piece behind e s z =
    rw (e, s, z, drop-append before (piece ++ behind)) (take-append piece behind)

pub view-inv :
    (msg : Bytes) (given : MsgType) {v : MsgView}
    → view msg given ≡ ok v
    → (v.msg ≡ msg) × (parse_msg msg given ≡ ok v.layout)
unfolding view
view-inv msg given h = ground arith

-- What a view shows of its message.
pub record Shows (v : MsgView) (line eol headers body : Bytes) : Type 0 where
  pub whole : v.msg ≡ line ++ (eol ++ (headers ++ body))
  pub line_is : start_line v ≡ line
  pub headers_are : string v (headers_range v.layout) ≡ headers
  pub body_is : body_string v ≡ body
  pub size_is : body_size v ≡ length body

-- The accessors return the pieces whose lengths the layout gives.
pub layout-Shows :
    (v : MsgView) (line eol headers body : Bytes)
    → v.msg ≡ line ++ (eol ++ (headers ++ body))
    → v.layout.sl_len ≡ length line
    → v.layout.sl_nl ≡ length eol
    → v.layout.p_body ≡ length line + length eol + length headers
    → v.layout.p_body ≤ 0xFFFF
    → Shows v line eol headers body
unfolding start_line headers_range body_string body_size start_line_range
layout-Shows v line eol headers body whole len nl body_at small =
    let total : length v.msg ≡ length line + length eol + length headers + length body =
      rw whole (length-split line eol headers body) in
    record {
      whole = whole;
      line_is = string-middle v _ [] line (eol ++ (headers ++ body)) whole refl len;
      headers_are =
          string-middle v _ (line ++ eol) headers body (whole ∙ simp append_assoc)
            (omega (arith, length-append line eol)) (omega arith);
      body_is =
          string-middle v _ (line ++ (eol ++ headers)) body []
            (whole ∙ simp (append_assoc, append-nil))
            (omega (arith, length-append line (eol ++ headers), length-append eol headers))
            (omega (arith, total));
      size_is = omega (arith, total);
    }

-- A view that is made shows the whole message: its accessors return the start line, the header
-- lines and the body that the message consists of.
pub view-Shows :
    (msg : Bytes) (given : MsgType) {v : MsgView}
    → view msg given ≡ ok v
    → (p : Parsed v.msg given v.layout) × (v.msg ≡ msg) × Shows v p.line p.eol p.headers p.body
view-Shows msg given {v} h =
    let (same, parsed) = view-inv msg given h in
    let p =
      parse_msg-Parsed v.msg given
        (subst (λ m. parse_msg m given ≡ ok v.layout) (sym same) parsed) in
    (p, same, layout-Shows v p.line p.eol p.headers p.body p.splits p.len p.nl p.body_at p.small)
