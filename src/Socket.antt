-- ===== src/Socket.antt =====
-- Socket of include/telling/socket.h and src/telling/socket.cpp: the nng socket of a communicator and
-- what it dials and listens to. What nng answers, and whether a handler is alive, come with the calls;
-- the calls on nng and on the handler are listed as effects.
pub mod Ledger
pub mod Connectors
pub mod Pipes
pub mod Group
pub mod Apart
pub mod Together
use telling.HostAddress.{HostAddress, derived, address_text}
use telling.Pattern.{
  Pattern, Role, SocketProtocol, choose, no_protocol, pair_protocol, req, rep, sub, pub_protocol,
  push_protocol, pull_protocol,
}
use telling.Prelude.{
  ℕ, zero, suc, ◌+◌, ◌-◌, ◌%◌, ◌^◌, Bool, true, false, Option, none, some, List, [], ◌∷◌, ◌++◌,
  Bytes, ◌==◌, ltb, if◌then◌else◌, length,
}
use telling.Prelude.Dictionary.{find, erase, emplace}

-- `VARIANT`
pub data Variant : Type 0 where
  standard raw : Variant

-- What is thrown: an error of nng by its number, or one of these.
pub data SocketError : Type 0 where
  closed busy inval : SocketError
  refused : ℕ → SocketError

pub data Outcome : Type 0 where
  returns : Outcome
  throws : SocketError → Outcome

-- `nng::pipe_ev`
pub data PipeEvent : Type 0 where
  add_pre add_post rem_post : PipeEvent

-- What nng makes for a call: a dialer or listener by its id, or an error.
pub data Made : Type 0 where
  made_id : ℕ → Made
  failed : ℕ → Made

pub data Effect : Type 0 where
  makes : ℕ → Effect
  destroys : ℕ → Effect
  closes_socket : Effect
  pipe_event : ℕ → PipeEvent → Effect

-- `ListenerOrDialer`
pub record ListenerOrDialer : Type 0 where
  pub is_listener : Bool
  pub handle : ℕ

pub record Socket : Type 0 where
  pub role : Role
  pub pattern : Pattern
  pub protocol : SocketProtocol
  pub socket : Option ℕ
  pub pipe_count : ℕ
  pub pipe_handler : Option ℕ
  pub connectors : List (Bytes × ListenerOrDialer)

-- Which socket of nng is opened.
unfoldable pub open_as : Variant → SocketProtocol → Option (Variant × SocketProtocol)
open_as v no_protocol = none
open_as v p = some (v, p)

abbrev pub opened : Role → Pattern → ℕ → Option (Variant × SocketProtocol) → Option Socket
opened r p id none = none
opened r p id (some kind) = some (record {
  role = r;
  pattern = p;
  protocol = choose r p;
  socket = some id;
  pipe_count = 0;
  pipe_handler = none;
  connectors = [];
})

-- The constructor without a handler; `none` where it throws `inval`. nng gives the socket its id.
unfoldable pub make : Role → Pattern → Variant → ℕ → Option Socket
unfolding open_as choose
make r p variant id = opened r p id (open_as variant (choose r p))

abbrev pub is_some {ℓ} : {A : Type ℓ} → Option A → Bool
is_some none = false
is_some (some a) = true

unfoldable pub is_open : Socket → Bool
is_open s = is_some s.socket

-- `isReady`
unfoldable pub is_ready : Socket → Bool
is_ready s = ltb 0 (length s.connectors)

-- `isConnected`
unfoldable pub is_connected : Socket → Bool
is_connected s = ltb 0 s.pipe_count

-- The handler, if there is one that is alive.
abbrev pub lock : Bool → Option ℕ → Option ℕ
lock true handler = handler
lock false handler = none

abbrev set_handler : Option ℕ → ℕ → Socket → Outcome × Socket
set_handler (some current) new_handler s = (throws busy, s)
set_handler none new_handler s = (returns, record s { pipe_handler = some new_handler })

-- `setPipeHandler`
unfoldable pub set_pipe_handler : (alive : Bool) → ℕ → Socket → Outcome × Socket
set_pipe_handler alive new_handler s = set_handler (lock alive s.pipe_handler) new_handler s

-- The connectors of a map that is cleared.
unfoldable pub destroy_all : List (Bytes × ListenerOrDialer) → List Effect
destroy_all [] = []
destroy_all ((uri, c) ∷ connectors) = destroys c.handle ∷ destroy_all connectors

-- `close`
unfoldable pub close : Socket → Socket × List Effect
unfolding is_open destroy_all
close s =
    if is_open s
    then (
      record s { connectors = []; socket = none },
      destroy_all s.connectors ++ closes_socket ∷ [],
    )
    else (s, [])

-- The count of pipes, a `uint32_t`.
unfoldable pub count_pipes : PipeEvent → ℕ → ℕ
count_pipes add_pre n = n
count_pipes add_post n = suc n % 2 ^ 32
count_pipes rem_post n = n - 1

abbrev handle_pipe : Option ℕ → PipeEvent → List Effect
handle_pipe none event = []
handle_pipe (some handler) event = pipe_event handler event ∷ []

-- `_pipeCallback`
unfoldable pub pipe_callback : (alive : Bool) → PipeEvent → Socket → Socket × List Effect
unfolding count_pipes
pipe_callback alive event s = (
  record s { pipe_count = count_pipes event s.pipe_count },
  handle_pipe (lock alive s.pipe_handler) event,
)

-- What a call that connects comes to.
abbrev pub Connecting : Type 0
Connecting = Outcome × Socket × List Effect

-- A new connector that goes into the map, or is destroyed where the address has one.
unfoldable pub emplace_connector : Option ListenerOrDialer → Bool → Bytes → ℕ → Socket → Connecting
emplace_connector (some old) is_listener uri id s = (returns, s, makes id ∷ destroys id ∷ [])
emplace_connector none is_listener uri id s = (
  returns,
  record s { connectors = (uri, record { is_listener = is_listener; handle = id }) ∷ s.connectors },
  makes id ∷ [],
)

unfoldable pub connect_made : Made → Bool → Bytes → Socket → Connecting
unfolding emplace_connector find
connect_made (failed error) is_listener uri s = (throws (refused error), s, [])
connect_made (made_id id) is_listener uri s =
    emplace_connector (find uri s.connectors) is_listener uri id s

-- The common body of `dial` and `listen`.
unfoldable pub connect : Bool → Bytes → Made → Socket → Connecting
unfolding connect_made is_open
connect is_listener uri made s =
    if is_open s then connect_made made is_listener uri s else (throws closed, s, [])

unfoldable pub dial : Bytes → Made → Socket → Connecting
unfolding connect
dial uri made s = connect false uri made s

unfoldable pub listen : Bytes → Made → Socket → Connecting
unfolding connect
listen uri made s = connect true uri made s

abbrev pub destroy_found : Option ListenerOrDialer → List Effect
destroy_found none = []
destroy_found (some c) = destroys c.handle ∷ []

-- `disconnect`
unfoldable pub disconnect : Bytes → Socket → Socket × List Effect
unfolding find erase
disconnect uri s =
    (record s { connectors = erase uri s.connectors }, destroy_found (find uri s.connectors))

-- `disconnectAll`
unfoldable pub disconnect_all : Socket → Socket × List Effect
unfolding destroy_all
disconnect_all s = (record s { connectors = [] }, destroy_all s.connectors)
