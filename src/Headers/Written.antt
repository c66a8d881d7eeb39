-- ===== src/Headers/Written.antt =====
-- The headers of a message that the writer composed.
use telling.Headers.Block.{headers_read, read_headers-view}
use telling.Headers.{read_headers}
use telling.Layout.{unknown}
use telling.Method.{MethodCode}
use telling.Method
use telling.MsgError.{ok}
use telling.Prelude.{suc, ◌≤◌, ◌≡◌, true, false, some, List, Bytes, length}
use telling.Protocol.{MsgProtocol}
use telling.Protocol
use telling.View.Requests.{request_line}
use telling.View.{MsgView, view, headers_string}
use telling.Writer.Compose.{AreWritable, preferred_newline-Newline}
use telling.Writer.RoundTrip.{write_request, write_request-view, header_size}
use telling.Writer.{MsgWriter, contains_whitespace}

-- From a request that the writer composes of a valid method, a URI without white space, a valid
-- protocol and headers that `writeHeader` takes, within 64 KiB, iterating the headers of its view
-- reads each of them in its order, its value without the blanks around it, and no other.
pub write_request_headers :
    (m : MethodCode) (uri : Bytes) (p : MsgProtocol) (hs : List (Bytes × Bytes)) (body : Bytes)
    → Method.is_valid m ≡ true
    → contains_whitespace uri ≡ false
    → Protocol.is_valid p ≡ true
    → AreWritable hs
    → header_size (request_line m uri p) p hs ≤ 0xFFFF
    → (msg : Bytes) × (w : MsgWriter) × (v : MsgView) × (write_request m uri p hs body
        ≡ ok (some msg, w))
      × (view msg unknown ≡ ok v)
      × (read_headers (suc (length (headers_string v))) (headers_string v) ≡ some (headers_read hs))
write_request_headers m uri p hs body vm hu vp writable small =
    let (msg, w, v, written, seen, read) =
      write_request-view m uri p hs body vm hu vp writable small in
    (
      msg,
      w,
      v,
      written,
      seen,
      read_headers-view (Protocol.preferred_newline p) (preferred_newline-Newline p) v hs writable
          read.headers_are,
    )
