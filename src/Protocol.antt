-- ===== src/Protocol.antt =====
-- include/telling/msg_protocol.h: the protocol names of a start line.
use telling.Prelude.{
  Bool, true, false, [], ◌∷◌, ◌≡◌, refl, sym, ap, ◌∙◌, ◌↔◌, Bytes, codes, same_text, same_text_iff,
  ◌==◌, if◌then◌else◌, arith,
}

-- `Http` is another name of `Http_1_1`.
pub data MsgProtocol : Type 0 where
  unknown none tell http_1_0 http_1_1 : MsgProtocol

-- `explicit operator bool`: None < code ≤ Http.
unfoldable pub is_valid : MsgProtocol → Bool
is_valid unknown = false
is_valid none = false
is_valid _ = true

unfoldable pub is_http : MsgProtocol → Bool
is_http http_1_0 = true
is_http http_1_1 = true
is_http _ = false

-- `code <= Telling` decides.
unfoldable pub preferred_newline : MsgProtocol → Bytes
preferred_newline http_1_0 = codes "\r\n"
preferred_newline http_1_1 = codes "\r\n"
preferred_newline _ = codes "\n"

unfoldable pub to_string : MsgProtocol → Bytes
to_string tell = codes "Tell/0"
to_string http_1_0 = codes "HTTP/1.0"
to_string http_1_1 = codes "HTTP/1.1"
to_string none = codes "NoProtocol"
to_string unknown = codes "UnknownProtocol"

unfoldable pub parse : Bytes → MsgProtocol
parse [] = none
parse (c ∷ v) =
    if c == b'T'
    then (if same_text (c ∷ v) (codes "Tell/0") then tell else unknown)
    else if c == b'H'
    then (if same_text (c ∷ v) (codes "HTTP/1.0")
        then http_1_0
        else if same_text (c ∷ v) (codes "HTTP/1.1")
        then http_1_1
        else unknown)
    else unknown

-- Every valid protocol is read back from its name.
pub parse-to_string : (p : MsgProtocol) → is_valid p ≡ true → parse (to_string p) ≡ p
unfolding parse to_string is_valid same_text
parse-to_string unknown h = cc
parse-to_string none h = cc
parse-to_string tell h = refl
parse-to_string http_1_0 h = refl
parse-to_string http_1_1 h = refl

-- What is read as a valid protocol is exactly the name of that protocol.
pub to_string-parse : (v : Bytes) → is_valid (parse v) ≡ true → to_string (parse v) ≡ v
unfolding parse to_string is_valid
to_string-parse [] h = cc
to_string-parse (c ∷ v) h = ground (
  arith,
  same_text_iff (c ∷ v) (codes "Tell/0"),
  same_text_iff (c ∷ v) (codes "HTTP/1.0"),
  same_text_iff (c ∷ v) (codes "HTTP/1.1"),
)

-- A text is read as a given valid protocol exactly when it is that protocol's name.
pub parse_protocol_iff :
    (v : Bytes) (p : MsgProtocol) → is_valid p ≡ true → (parse v ≡ p) ↔ (v ≡ to_string p)
parse_protocol_iff v p h = (
  λ e. sym (ap to_string (sym e) ∙ to_string-parse v (rw e h)),
  λ e. ap parse e ∙ parse-to_string p h,
)
