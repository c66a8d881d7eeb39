-- ===== src/Layout.antt =====
-- include/telling/msg_layout.h and MsgLayout::_setStartLine of src/telling/msg_view.cpp: where the
-- parts of a message stand. A pointer into the message is its offset from the first byte.
pub mod Parse
pub mod Bounds
pub mod Parts
pub mod StartLine
pub mod Message
pub mod Accept
pub mod Compose
use telling.MsgError.{MsgError, header_too_big, start_line_malformed, Result, ok, err, ◌>>=◌}
use telling.Prelude.{
  ℕ, ◌+◌, ◌-◌, ◌%◌, ◌^◌, Bool, true, false, not, ◌||◌, Option, none, some, Bytes, ◌==◌, ltb, leb,
  if◌then◌else◌, length, get_or,
}

abbrev pub max_method_length : ℕ
max_method_length = 14

abbrev pub max_protocol_length : ℕ
max_protocol_length = 16

abbrev pub max_status_length : ℕ
max_status_length = 3

abbrev pub max_reason_length : ℕ
max_reason_length = 128

-- `enum class TYPE`, without the two masks that no code uses.
pub data MsgType : Type 0 where
  unknown reply report request : MsgType

pub record HeadRange : Type 0 where
  pub start : ℕ
  pub size : ℕ

pub record MsgLayout : Type 0 where
  pub p_body : ℕ
  pub sl_len : ℕ
  pub uri_pos : ℕ
  pub prt_rpos : ℕ
  pub sts_rpos : ℕ
  pub sl_nl : ℕ

-- `_parse_reset`
abbrev pub no_layout : MsgLayout
no_layout = record { p_body = 0; sl_len = 0; uri_pos = 0; prt_rpos = 0; sts_rpos = 0; sl_nl = 0 }

-- A difference that becomes a `size_t`: below zero it wraps.
abbrev pub size_sub : ℕ → ℕ → ℕ
size_sub a b = (a + 2 ^ 64 - b) % 2 ^ 64

-- `bool(n)` as a number.
abbrev pub flag : ℕ → ℕ
flag n = if n == 0 then 0 else 1

unfoldable pub has_method : MsgLayout → Bool
has_method l = not (l.uri_pos == 0)

unfoldable pub has_uri : MsgLayout → Bool
has_uri l = ltb l.prt_rpos l.sl_len

unfoldable pub has_protocol : MsgLayout → Bool
has_protocol l = leb (l.sts_rpos + 1) l.prt_rpos

unfoldable pub has_status : MsgLayout → Bool
has_status l = leb 3 l.sts_rpos

unfoldable pub has_reason : MsgLayout → Bool
has_reason l = ltb 4 l.sts_rpos

-- `_type`
unfoldable pub msg_type : MsgLayout → MsgType
unfolding has_method has_uri has_protocol
msg_type l =
    if has_method l
    then request
    else if has_uri l
    then report
    else if has_protocol l
    then reply
    else unknown

unfoldable pub start_line_range : MsgLayout → HeadRange
start_line_range l = record { start = 0; size = l.sl_len }

unfoldable pub headers_range : MsgLayout → HeadRange
headers_range l = let hb = l.sl_len + l.sl_nl in record { start = hb; size = size_sub l.p_body hb }

unfoldable pub method_range : MsgLayout → HeadRange
method_range l = record { start = 0; size = size_sub l.uri_pos (flag l.uri_pos) }

unfoldable pub uri_range : MsgLayout → HeadRange
unfolding has_uri
uri_range l = record {
  start = l.uri_pos;
  size = if has_uri l then size_sub l.sl_len (l.uri_pos + l.prt_rpos + flag l.prt_rpos) else 0;
}

unfoldable pub protocol_range : MsgLayout → HeadRange
protocol_range l = record {
  start = size_sub l.sl_len l.prt_rpos;
  size = if l.prt_rpos == 0 then 0 else size_sub l.prt_rpos (l.sts_rpos + flag l.sts_rpos);
}

unfoldable pub status_range : MsgLayout → HeadRange
status_range l = record {
  start = size_sub l.sl_len l.sts_rpos;
  size = if l.sts_rpos == 0 then 0 else 3;
}

unfoldable pub reason_range : MsgLayout → HeadRange
reason_range l = record {
  start = size_sub (l.sl_len + 4) l.sts_rpos;
  size = if ltb 4 l.sts_rpos then l.sts_rpos - 4 else 0;
}

-- The lambda `checkSize`.
abbrev pub check_size : ℕ → ℕ → Result ℕ
check_size s lim = if ltb lim s then err header_too_big else ok s

abbrev max_uri_pos : ℕ
max_uri_pos = max_method_length + 1

abbrev max_sts_rpos : ℕ
max_sts_rpos = max_reason_length + max_status_length + 1

abbrev max_prt_rpos : ℕ
max_prt_rpos = max_sts_rpos + max_protocol_length + 1

-- The length of the line without its end; `line.back()` and `line[line.length()-2]` are read.
unfoldable pub line_length : Bytes → Result ℕ
line_length line_with_eol =
    let size = length line_with_eol in
    if ltb size 2 || not (get_or line_with_eol (size - 1) 0 == b'\n')
    then err start_line_malformed
    else ok (size - (if get_or line_with_eol (size - 2) 0 == b'\r' then 2 else 1))

-- The last check, of the status and the reason; the flag says that there is a reason element.
unfoldable pub verify_status : Bool → MsgLayout → Result MsgLayout
verify_status true l =
    if l.sts_rpos == 0 then ok l else if ltb l.sts_rpos 4 then err start_line_malformed else ok l
verify_status false l =
    if l.sts_rpos == 0
    then ok l
    else if not (l.sts_rpos == 3)
    then err start_line_malformed
    else ok l

abbrev is_some {ℓ} : {A : Type ℓ} → Option A → Bool
is_some none = false
is_some (some a) = true

-- `switch (type)`: `n` is the length of the line, the elements are offsets in it.
unfoldable pub set_elements :
    MsgType → ℕ → MsgLayout → Option ℕ → Option ℕ → Option ℕ → Result MsgLayout
unfolding verify_status
set_elements request n l (some second) (some third) none = do
  uri ← check_size second max_uri_pos
  prt ← check_size (n - third) max_prt_rpos
  ok (record l { uri_pos = uri % 256; prt_rpos = prt % 256; sts_rpos = 0 })
set_elements request n l (some second) none none = do
  uri ← check_size second max_uri_pos
  ok (record l { uri_pos = uri % 256; prt_rpos = 0; sts_rpos = 0 })
set_elements reply n l (some second) third fourth = do
  prt ← check_size n max_prt_rpos
  sts ← check_size (n - second) max_sts_rpos
  verify_status (is_some third)
      (record l { uri_pos = 0; prt_rpos = prt % 256; sts_rpos = sts % 256 })
set_elements report n l none none none = ok (record l { uri_pos = 0; prt_rpos = 0; sts_rpos = 0 })
set_elements report n l (some second) none none = do
  prt ← check_size (n - second) max_prt_rpos
  ok (record l { uri_pos = 0; prt_rpos = prt % 256; sts_rpos = 0 })
set_elements report n l (some second) (some third) fourth = do
  prt ← check_size (n - second) max_prt_rpos
  sts ← check_size (n - third) max_sts_rpos
  verify_status (is_some fourth)
      (record l { uri_pos = 0; prt_rpos = prt % 256; sts_rpos = sts % 256 })
set_elements _ n l second third fourth = err start_line_malformed

-- `_setStartLine`
unfoldable pub set_start_line :
    MsgLayout → Bytes → MsgType → Option ℕ → Option ℕ → Option ℕ → Result MsgLayout
set_start_line l line_with_eol kind second third fourth = do
  line ← line_length line_with_eol
  n ← check_size line 65535
  let set = record l { sl_len = n % 2 ^ 16; sl_nl = (length line_with_eol - n) % 2 ^ 8 }
  set_elements kind n set second third fourth
