-- ===== src/Tests/Loops.antt =====
-- The theorems on the receive loop at concrete events.
use telling.RecvLoop.{new, Ended, received, fails}
use telling.RecvLoop.Bracket
use telling.RecvLoop.Bracket.{
  Phase, untold, told_all, Event, starts_with, ends, stops, run-bracketed,
}
use telling.RecvLoop.Delivery.{
  run_endings, queue_all, before_error, without_error, at_work, run-delivers, session,
  session-stops,
}
use telling.RecvLoop.Delivery
use telling.Outbox.Accepted
use telling.Outbox.Accepted.{run-accepted}
use telling.Outbox.{box}
use telling.Pattern.{client, push_pull, push_protocol}
use telling.RecvLoop.Inbox
use telling.RecvLoop.Inbox.{run-hands_out}
use telling.Socket.Connectors.{dials}
use telling.Socket.{Socket, made_id}
use telling.SendLoop.{success, timedout, other}
use telling.Prelude.{ℕ, true, false, none, some, codes, List, [], ◌∷◌, ◌++◌, ◌≡◌}

-- A start, a message, an error that ends the loop, a start in vain, and the destructor.
abbrev events : List (Event ℕ)
events =
    starts_with false true false 1
    ∷ ends true (received 5)
    ∷ ends true (fails other)
    ∷ starts_with true true false 2
    ∷ stops true
    ∷ []

run-bracketed_example : (phase : Phase) × (told_all (Bracket.run events new).1 untold ≡ some phase)
run-bracketed_example = run-bracketed events

abbrev endings : List (Ended ℕ)
endings = received 5 ∷ fails timedout ∷ received 6 ∷ fails other ∷ received 7 ∷ []

abbrev box_events : List (Inbox.Event ℕ)
box_events =
    Inbox.ends (received 5)
    ∷ Inbox.consumes
    ∷ Inbox.consumes
    ∷ Inbox.ends (fails timedout)
    ∷ Inbox.ends (received 6)
    ∷ []

run-hands_out_example :
    let r = Inbox.run box_events (Inbox.init 1) in
    r.1 ++ r.0.queue.deq ≡ before_error (Inbox.endings box_events)
run-hands_out_example = run-hands_out 1 box_events

abbrev pusher : Socket
pusher = record {
  role = client;
  pattern = push_pull;
  protocol = push_protocol;
  socket = some 1;
  pipe_count = 0;
  pipe_handler = none;
  connectors = [];
}

-- The first message is refused, since nothing is dialed yet.
abbrev pushed : List (Accepted.Event ℕ)
pushed =
    Accepted.pushes 7
    ∷ Accepted.calls (dials (codes "inproc://x") (made_id 4))
    ∷ Accepted.pushes 8
    ∷ Accepted.pushes 9
    ∷ Accepted.ends success
    ∷ []

run-accepted_example :
    let r = Accepted.run pushed (box pusher) in r.0.loop.wire ++ r.0.loop.queue.deq ≡ r.1
run-accepted_example = run-accepted pushed pusher

session-stops_example : Delivery.stops (session 1 endings) ≡ 2
session-stops_example = session-stops 1 endings
