-- ===== src/Tests/Registrations.antt =====
-- The theorems on registrations at concrete inputs.
use telling.MsgError.{ok}
use telling.Prelude.{some, [], Bytes, codes, ◌≡◌, refl, arith}
use telling.Protocol.{MsgProtocol}
use telling.Protocol
use telling.Registration.Opening.{Asks, registration-asks}
use telling.Registration.Outcomes.{Decided, async_recv-Decided}
use telling.Registration.{Delegate, new_delegate, async_recv, alias_or_path, registration_request}
use telling.Services.{new_services}
use telling.Services
use telling.Status
use telling.Tests.Maps.{entries}
use telling.View.Replies.{reply_line}
use telling.Writer.RoundTrip.{message_text}
use telling.Writer.{MsgWriter, contains_newline}

registration-asks_example :
    (msg : Bytes) × (w : MsgWriter) × (registration_request (codes "/a") (codes "/b")
      ≡ ok (some msg, w))
    × Asks entries 3 10
        (alias_or_path (codes "/a") (codes "/b"))
        (new_services entries)
        (Services.async_recv entries 3 10 msg (new_services entries))
unfolding contains_newline
registration-asks_example =
    registration-asks entries (codes "/a") (codes "/b") 3 10 (new_services entries) refl refl

async_recv-Decided_example :
    (d : Delegate) × (async_recv
        (message_text (reply_line MsgProtocol.tell 409 (codes "Conflict")) MsgProtocol.tell [] [])
        new_delegate
      ≡ ok d)
    × Decided 409 new_delegate d
unfolding Protocol.is_valid Protocol.to_string Protocol.preferred_newline Status.to_string
    contains_newline
async_recv-Decided_example =
    async_recv-Decided MsgProtocol.tell 409 (codes "Conflict") [] [] new_delegate refl (omega arith)
      (omega arith) refl (omega arith) tt (omega arith)
