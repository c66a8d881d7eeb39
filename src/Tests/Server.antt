-- ===== src/Tests/Server.antt =====
-- Runs of the server's handlers, of a reactor, and of the queues with their AIOs, and their theorems
-- at concrete messages.
use telling.Layout.{request}
use telling.Layout.Parse.{
  parse_msg, skip_headers, parse_from, parse_start_line, choose_type, offsets, line_parts,
}
use telling.Layout.{set_start_line, line_length, set_elements}
use telling.Lines.{consume_line}
use telling.Method.{MethodCode}
use telling.Method
use telling.MsgError.{ok}
use telling.Prelude.{
  ℕ, Bool, true, false, none, some, List, [], ◌∷◌, ◌++◌, Bytes, codes, same_text, ◌≡◌, refl, arith,
}
use telling.QueuedIo.Receiving.{arrivals, handed_out, end_state, arrivals-handed_out}
use telling.QueuedIo.{
  QueuedSend, RecvEvent, receives, fails, pulls, opens_recv, opened, send_or_enqueue,
}
use telling.Reactor.Errors.{Described, thrown-Described}
use telling.Reactor.{nng_exception, Outcome, dispatch, check_prefix, handle_view, handle}
use telling.Reply.Box.{
  ReplyBox, Waiting, receive, respond, responded, must_respond, receive-respond,
}
use telling.Reply.Box
use telling.Reply.{taken, member}
use telling.SendLoop.{new_loop}
use telling.Server.Answers.{Handled, request-handled}
use telling.Server.{Msg, Transport, receive_request}
use telling.Services.{Services, Route, new_services}
use telling.Status.StatusCode
use telling.Tests.Maps.{entries, entries-MapLaws}
use telling.Uri.{has_prefix}
use telling.View.{MsgView, view, uri_string, method_string}

abbrev asking : Msg
asking = record { header = codes "id"; body = codes "GET /b Tell/0\n\n" }

abbrev asked : MsgView
asked = record {
  msg = asking.body;
  layout = record { p_body = 15; sl_len = 13; uri_pos = 4; prt_rpos = 6; sts_rpos = 0; sl_nl = 1 };
}

asking_view : view asking.body request ≡ ok asked
unfolding view parse_msg skip_headers parse_from parse_start_line choose_type offsets line_parts
    set_start_line line_length set_elements consume_line
asking_view = refl

abbrev idle_transport : Transport
idle_transport = record { forwarded = []; rep_send = new_loop; published = [] }

abbrev no_services : Services entries
no_services = new_services entries

abbrev sending : Route → Bool
sending r = true

request-handled_example :
    Handled entries no_services sending
      (uri_string asked)
      asking
      idle_transport
      (receive_request entries no_services sending asking idle_transport)
request-handled_example =
    request-handled entries no_services sending entries-MapLaws asking idle_transport asked
      asking_view

-- A method that replies and then fails.
abbrev methods : MethodCode → MsgView → Outcome
methods code v = record {
  replies = codes "first" ∷ [];
  thrown = some (nng_exception (codes "closed") (codes "send"));
}

abbrev whole_msg : Bytes → Bytes
whole_msg msg = msg

abbrev calling : Bytes
calling = codes "GET /b Tell/0\n\n"

thrown-Described_example :
    (reply : Bytes) × (handle (codes "/b") methods whole_msg true calling ≡ some reply)
    × (handle (codes "/b") methods whole_msg false calling ≡ none)
    × Described (codes "/b") (nng_exception (codes "closed") (codes "send")) reply
unfolding handle_view check_prefix dispatch view parse_msg skip_headers parse_from parse_start_line
    choose_type offsets line_parts set_start_line line_length set_elements consume_line has_prefix
    uri_string method_string Method.parse same_text
thrown-Described_example =
    thrown-Described (codes "/b") methods whole_msg calling
      (nng_exception (codes "closed") (codes "send")) refl (omega arith, omega arith)

abbrev busy_sender : QueuedSend ℕ
busy_sender = record {
  is_open = true;
  out = record { queue = record { deq = 2 ∷ []; busy = true }; in_flight = some 1; wire = 1 ∷ [] };
}

abbrev recv_events : List (RecvEvent ℕ)
recv_events =
    receives 1 ∷ receives 2 ∷ pulls ∷ fails ∷ receives 3 ∷ opens_recv ∷ receives 4 ∷ pulls ∷ []

arrivals-handed_out_example :
    arrivals true recv_events
    ≡ handed_out opened recv_events ++ (end_state opened recv_events).queue.deq
arrivals-handed_out_example = arrivals-handed_out recv_events

abbrev waiting_box : ReplyBox
waiting_box = record {
  reply = record { receiving = some 2; unresponded = 1 ∷ []; out = new_loop; made = 2 };
  inbox = record { deq = (1, codes "q") ∷ [] };
  current_query = 0;
}

waiting_box-Waiting : Waiting waiting_box 1 (codes "q") []
unfolding member
waiting_box-Waiting = record {
  free = refl;
  first = refl;
  named = λ e. omega arith;
  unanswered = refl;
}

receive-respond_example :
    let b1 = (receive true waiting_box).1 in
    (receive true waiting_box).0 ≡ Box.request (codes "q")
    × (receive true b1).0 ≡ must_respond
    × (respond true (some (codes "r")) b1).0 ≡ responded taken
    × (respond true (some (codes "r")) b1).1.reply.out
      ≡ send_or_enqueue (1, codes "r") waiting_box.reply.out
    × (respond true (some (codes "r")) b1).1.current_query ≡ 0
    × (respond true none b1).1.current_query ≡ 0
    × (respond true none b1).1.reply ≡ waiting_box.reply
receive-respond_example =
    receive-respond waiting_box 1 (codes "q") [] (codes "r") waiting_box-Waiting
