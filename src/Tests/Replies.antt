-- ===== src/Tests/Replies.antt =====
-- Runs of the HTTP client and of the replies, and their theorems at concrete events.
use telling.HttpClient.Failing.{closes, Endless, errors, failed_turn, hang_ups-undelivered}
use telling.HttpClient.Queries.{HttpClient, accepted, request, callback, new_action}
use telling.HttpClient.Queries.Reused.{second_query-unsent}
use telling.HttpClient.Reading.{deliveries, Reading, whole}
use telling.Headers.Block.{headers_read}
use telling.HttpClient.Written.{whole_reply}
use telling.Protocol.{MsgProtocol, is_http}
use telling.Protocol
use telling.Status
use telling.View.Completion.{is_complete, stated_length, says_chunked}
use telling.View.Replies.{reply_line}
use telling.Writer.Compose.{AreWritable}
use telling.Writer.RoundTrip.{message_text}
use telling.Writer.{bad_name, contains_newline}
use telling.HttpClient.Responses.{turns, first_whole, delivered, is_none, response-first_whole}
use telling.HttpClient.{
  ActionState, idle, success, closed, connreset, timedout, Action, async_error, async_recv,
  http_conn_open, http_conn_close, turn, completion_now,
}
use telling.Headers.{read_headers}
use telling.Layout.Parse.{
  parse_msg, skip_headers, parse_from, parse_start_line, choose_type, offsets, line_parts,
}
use telling.Layout.{set_start_line, line_length, set_elements}
use telling.Lines.{consume_line}
use telling.View.{headers_string, body_size}
use telling.Prelude.{
  ℕ, zero, suc, ◌+◌, ◌≤◌, true, false, Option, none, some, List, [], ◌∷◌, ◌++◌, Bytes, codes, map,
  ◌≡◌, refl, arith,
}
use telling.Reply.Outbox.{failed_response-stalls}
use telling.Reply.Places.{places, places_once}
use telling.Reply.{Event, receives, responds, sends, new_reply, run}
use telling.SendLoop
use telling.View.Completion.{implicit}

abbrev zeros : ℕ → Bytes
zeros zero = []
zeros (suc n) = 0 ∷ zeros n

abbrev sending : Action
sending = record new_action { query_id = 3; state = ActionState.send; conn = true }

abbrev chunks : List Bytes
chunks = codes "HTTP/1.1 200 OK\nContent-Len" ∷ codes "gth: 2\n\no" ∷ codes "k" ∷ []

response-first_whole_example :
    let (effects, a', stays) = turns zeros (map success ([] ∷ chunks)) sending in
    deliveries effects ≡ delivered zeros (first_whole zeros [] chunks)
    × stays ≡ is_none zeros (first_whole zeros [] chunks)
response-first_whole_example = response-first_whole zeros sending [] chunks refl refl

failed_turn_example :
    let (effects, a', stays) = turn zeros true timedout sending in
    effects ≡ async_error 3 timedout ∷ async_recv 3 none ∷ closes zeros sending
    × stays ≡ false
    × a'.state ≡ idle
failed_turn_example = failed_turn zeros timedout sending refl

abbrev endless : Action
endless = record new_action {
  query_id = 3;
  state = ActionState.recv;
  conn = true;
  res = some (codes "HTTP/1.1 200 OK\n\nall");
  recv_count = 20;
}

hang_ups-undelivered_example :
    let (effects, a', stays) = turns zeros (closed ∷ connreset ∷ []) endless in
    deliveries effects ≡ [] × errors effects ≡ [] × stays ≡ true × Endless zeros a'
unfolding implicit
hang_ups-undelivered_example =
    hang_ups-undelivered zeros endless (closed ∷ connreset ∷ []) refl
      (record { receiving = refl; unbounded = refl; incomplete = refl })

abbrev keeping : ℕ → Bytes → Option Bytes
keeping i msg = some msg

abbrev short_head : Bytes
short_head = codes "HTTP/1.1 200 OK\nContent-Length: 2\n\n"

abbrev reading : Action
reading = record new_action {
  query_id = 3;
  state = ActionState.recv;
  conn = true;
  res = some short_head;
  recv_count = 35;
}

reading-Reading : Reading zeros reading short_head
reading-Reading = record { receiving = refl; counted = refl; kept = refl; incomplete = refl }

whole_response : whole zeros (short_head ++ codes "ok") ≡ true
unfolding completion_now parse_msg consume_line skip_headers parse_from parse_start_line
    set_start_line line_length set_elements choose_type offsets line_parts read_headers
    headers_string body_size
whole_response = refl

second_query-unsent_example :
    let c : HttpClient = record {
      active = (3, reading) ∷ [];
      idle_actions = [];
      next_query_id = 4;
    } in
    let (read, c1) = callback zeros true (success (codes "ok")) 3 c in
    let (requested, asked, c2) = request keeping true (codes "again") c1 in
    let (effects, c3) = callback zeros true (success []) 4 c2 in
    requested ≡ accepted 4
    × effects ≡ http_conn_open 4 ∷ async_recv 4 none ∷ http_conn_close 4 ∷ []
    × c3.active ≡ []
second_query-unsent_example =
    second_query-unsent zeros keeping reading short_head (codes "ok") (codes "again")
      (codes "again") [] 4 reading-Reading whole_response refl

abbrev answering : ℕ → Bytes → Option Bytes
answering i query = none

abbrev ctx_id : ℕ → ℕ
ctx_id n = n + 1

abbrev reply_events : List Event
reply_events =
    receives true SendLoop.success (codes "q1")
    ∷ receives true SendLoop.success (codes "q2")
    ∷ responds true true 1 (codes "r1")
    ∷ responds true true 1 (codes "again")
    ∷ responds true true 2 (codes "r2")
    ∷ []

places_once_example :
    places 1 (run ctx_id keeping answering (new_reply ctx_id keeping answering) reply_events).1 ≤ 1
places_once_example = places_once ctx_id keeping answering (λ i j e. omega arith) reply_events 1

abbrev first_reply : (ℕ × Bytes)
first_reply = (1, codes "r1")

first_in_flight :
    (run ctx_id keeping answering (new_reply ctx_id keeping answering) reply_events).1.out.in_flight
    ≡ some first_reply
unfolding run new_reply
first_in_flight = refl

failed_response-stalls_example :
    let s = (run ctx_id keeping answering (new_reply ctx_id keeping answering) reply_events).1 in
    (run ctx_id keeping answering s
      (sends SendLoop.timedout ∷ sends SendLoop.success ∷ responds true true 3 [] ∷ [])).1.out.wire
    ≡ s.out.wire
failed_response-stalls_example =
    failed_response-stalls ctx_id keeping answering reply_events
      (sends SendLoop.success ∷ responds true true 3 [] ∷ []) SendLoop.timedout (λ e. cc)
      (rw first_in_flight (λ e. cc))

abbrev two_bytes : List (Bytes × Bytes)
two_bytes = (codes "Content-Length", codes "2") ∷ []

two_bytes-AreWritable : AreWritable two_bytes
unfolding bad_name contains_newline
two_bytes-AreWritable = ((refl, refl), tt)

whole_reply_example :
    whole zeros (
      message_text
        (reply_line MsgProtocol.http_1_1 200 (codes "OK"))
        MsgProtocol.http_1_1
        two_bytes
        (codes "ok"))
    ≡ is_complete
        (stated_length (headers_read two_bytes) none)
        (says_chunked (headers_read two_bytes) false)
        2
        (is_http MsgProtocol.http_1_1)
unfolding contains_newline Protocol.is_valid Protocol.to_string Protocol.preferred_newline
    Status.to_string
whole_reply_example =
    whole_reply MsgProtocol.http_1_1 two_bytes (codes "ok") two_bytes-AreWritable zeros 200
      (codes "OK") (omega arith) (omega arith) refl (omega arith) refl (omega arith)
