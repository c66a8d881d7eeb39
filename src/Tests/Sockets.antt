-- ===== src/Tests/Sockets.antt =====
-- The theorems on sockets at concrete inputs.
use telling.HostAddress.{HostAddress, inproc}
use telling.Pattern.{client, req_rep, push_pull, req}
use telling.Socket.{
  Socket, made_id, failed, PipeEvent, add_pre, add_post, rem_post, pipe_event, standard, make,
  is_open, is_connected,
}
use telling.Socket.Connectors
use telling.Socket.Connectors.{Call, dials, listens, disconnects, closes, run-releases}
use telling.Socket.Group.{Arg, Store, connect_all}
use telling.Socket.Ledger.{IsMap, made_times, destroyed_times, held}
use telling.Socket.Pipes
use telling.Socket.Pipes.{additions, removals, run-connected}
use telling.Socket.Apart.{Apart}
use telling.Socket.Together.{Together, connect_all-Together}
use telling.Prelude.{
  ℕ, ◌==◌, if◌then◌else◌, ◌+◌, ◌<◌, true, false, none, some, List, [], ◌∷◌, codes, ◌≡◌, ◌⊎◌, ◌↔◌,
  map, refl, arith,
}

abbrev fresh : Socket
fresh = record {
  role = client;
  pattern = req_rep;
  protocol = req;
  socket = some 1;
  pipe_count = 0;
  pipe_handler = none;
  connectors = [];
}

is_made : make client req_rep standard 1 ≡ some fresh
unfolding make
is_made = refl

-- Two dialers for one address, of which the second is dropped, and a listener.
abbrev calls : List Call
calls =
    dials (codes "tcp://host:1") (made_id 4)
    ∷ dials (codes "tcp://host:1") (made_id 5)
    ∷ listens (codes "inproc://x") (made_id 6)
    ∷ disconnects (codes "tcp://host:1")
    ∷ closes
    ∷ []

run-releases_example :
    let r = Connectors.run calls fresh in
    IsMap r.0.connectors
    × ((is_open r.0 ≡ true) ⊎ (r.0.connectors ≡ []))
    × ((connector : ℕ)
        → made_times connector r.1 ≡ destroyed_times connector r.1 + held connector r.0.connectors)
run-releases_example = run-releases client req_rep standard 1 fresh calls is_made

abbrev handled : Socket
handled = record fresh { pipe_handler = some 9 }

abbrev events : List PipeEvent
events = add_pre ∷ add_post ∷ add_pre ∷ add_post ∷ rem_post ∷ []

run-connected_example :
    let r = Pipes.run events handled in
    (r.0.pipe_count + removals events ≡ 0 + additions events)
    × ((is_connected r.0 ≡ true) ↔ (removals events < 0 + additions events))
    × (r.1 ≡ map (pipe_event 9) events)
run-connected_example = run-connected events handled 9 refl (omega arith, tt) (omega arith)

abbrev base : HostAddress
base = record { transport = inproc; number = 0; name = codes "server" }

abbrev sockets : Store
sockets i = if i == 0 then fresh else record fresh { pattern = push_pull }

-- The second socket cannot be dialed.
abbrev args : List Arg
args = (some 0, made_id 4) ∷ (none, made_id 5) ∷ (some 1, failed 6) ∷ []

connect_all-Together_example :
    Together base args (connect_all false base args sockets)
    × ((i : ℕ) → Apart base (sockets i) ((connect_all false base args sockets).1 i))
connect_all-Together_example = connect_all-Together false base args sockets
