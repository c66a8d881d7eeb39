-- ===== src/Writer.antt =====
-- src/telling/msg_writer.cpp and include/telling/msg_writer.h: composing a message. A method that
-- throws gives the exception alone; what it leaves in the writer is not modelled. Where the code means
-- to throw a MsgException of its own it first makes a std::string_view from the null pointer, so the
-- result is `undefined`; `err` comes only from the parser.
pub mod Release
pub mod Compose
pub mod RoundTrip
use telling.Layout.Parse.{parse_msg}
use telling.Layout.{MsgType, MsgLayout, no_layout}
use telling.Method.{MethodCode}
use telling.Method
use telling.Method.Mask.{contains}
use telling.MsgError.{Result, ok, nospc, undefined, no_fuel, ◌>>=◌}
use telling.Prelude.{
  ℕ, zero, suc, ◌+◌, ◌-◌, ◌/◌, ◌%◌, ◌^◌, Bool, true, false, not, ◌||◌, Option, none, some, List, [],
  ◌∷◌, ◌++◌, Bytes, codes, has_byte, ◌==◌, ltb, if◌then◌else◌, length,
}
use telling.Protocol.{MsgProtocol}
use telling.Protocol
use telling.Status

-- `head.lengthOffset` and `head.lengthSize` are uint16_t.
pub record MsgWriter : Type 0 where
  pub protocol : MsgProtocol
  pub msg : Option Bytes
  pub layout : MsgLayout
  pub length_offset : ℕ
  pub length_size : ℕ

-- `MsgWriter(protocol)`
unfoldable pub new_writer : MsgProtocol → MsgWriter
new_writer p = record {
  protocol = p;
  msg = none;
  layout = no_layout;
  length_offset = 0;
  length_size = 0;
}

unfoldable pub contains_newline : Bytes → Bool
contains_newline [] = false
contains_newline (c ∷ s) = c == b'\r' || c == b'\n' || contains_newline s

unfoldable pub contains_whitespace : Bytes → Bool
contains_whitespace [] = false
contains_whitespace (c ∷ s) =
    c == b'\r' || c == b'\n' || c == b' ' || c == b'\t' || contains_whitespace s

-- Writing behind what the message holds.
unfoldable pub append : Bytes → MsgWriter → Result MsgWriter
append s w = elim w.msg [ none ↦ undefined | some m ↦ ok (record w { msg = some (m ++ s) }) ]

-- `_startMsg`
unfoldable pub start_msg : MsgWriter → Result MsgWriter
unfolding new_writer
start_msg w = elim w.msg [
  | some m ↦ undefined
  | none ↦ ok (record (new_writer w.protocol) { msg = some [] })
]

abbrev pub newline : MsgWriter → Bytes
newline w = Protocol.preferred_newline w.protocol

-- `startRequest`
unfoldable pub start_request : Bytes → MethodCode → MsgWriter → Result MsgWriter
unfolding start_msg append
start_request uri method w = do
  w ← start_msg w
  if not (Method.is_valid method)
      then undefined
      else if contains_whitespace uri
      then undefined
      else append
          (Method.to_string method
            ++ (b' ' ∷ (uri ++ (b' ' ∷ (Protocol.to_string w.protocol ++ newline w)))))
          w

-- `startReply`
unfoldable pub start_reply : ℕ → Bytes → MsgWriter → Result MsgWriter
unfolding start_msg append
start_reply status reason w = do
  w ← start_msg w
  if contains_newline reason
      then undefined
      else append
          (Protocol.to_string w.protocol
            ++ (b' ' ∷ (Status.to_string status ++ (b' ' ∷ (reason ++ newline w)))))
          w

-- `startReport`
unfoldable pub start_report : Bytes → ℕ → Bytes → MsgWriter → Result MsgWriter
unfolding start_msg append
start_report uri status reason w = do
  w ← start_msg w
  if contains_whitespace uri
      then undefined
      else if contains_newline reason
      then undefined
      else append
          (uri
            ++ (b' '
                ∷ (Protocol.to_string w.protocol
                    ++ (b' ' ∷ (Status.to_string status ++ (b' ' ∷ (reason ++ newline w)))))))
          w

-- The loop of `writeHeader` over the name.
unfoldable pub bad_name : Bytes → Bool
bad_name [] = false
bad_name (c ∷ s) = c == b'\r' || c == b'\n' || c == b':' || bad_name s

is_null : MsgWriter → Bool
is_null w = elim w.msg [ none ↦ true | some m ↦ false ]

-- `writeHeader`
unfoldable pub write_header : Bytes → Bytes → MsgWriter → Result MsgWriter
unfolding append is_null
write_header name value w =
    if is_null w || not (w.layout.p_body == 0)
    then undefined
    else if bad_name name
    then undefined
    else if contains_newline value
    then undefined
    else append (name ++ (b':' ∷ (value ++ newline w))) w

-- `_autoCloseHeaders`, with `_newline`
unfoldable pub auto_close_headers : MsgWriter → Result MsgWriter
auto_close_headers w =
    if w.layout.p_body == 0
    then elim w.msg [
      | none ↦ undefined
      | some m ↦ do
        layout ← parse_msg (m ++ newline w) MsgType.unknown
        ok (record w { msg = some (m ++ newline w); layout = layout })
    ]
    else ok w

-- `writeBody`, and what the caller writes to its stream.
unfoldable pub write_body : Bytes → MsgWriter → Result MsgWriter
unfolding auto_close_headers append
write_body text w = do w ← auto_close_headers w; append text w
