-- ===== src/Socket/Group.antt =====
-- Communicators and the functions that connect several of them (include/telling/socket.h). They share
-- sockets: a store has the sockets, and a communicator is the place of its own. The order of the
-- arguments is the order in which their calls are evaluated.
use telling.HostAddress.{HostAddress, derived, address_text}
use telling.Pattern.{Pattern, Role}
use telling.Socket.{
  Socket, Outcome, returns, throws, Made, Connecting, Variant, standard, connect, disconnect, make,
}
use telling.Prelude.{
  ℕ, Bool, Option, none, some, List, [], ◌∷◌, Bytes, ◌≡◌, ◌==◌, if◌then◌else◌, ◌⊎◌,
}

-- The constructor of a Communicator with a new socket: it does not pass its variant on.
unfoldable pub communicator : Role → Pattern → Variant → ℕ → Option Socket
unfolding make
communicator role pattern variant id = make role pattern standard id

abbrev pub Store : Type 0
Store = ℕ → Socket

abbrev pub assign : ℕ → Socket → Store → Store
assign i s sockets j = if j == i then s else sockets j

-- The text of an address; that of a derived address always is one.
abbrev pub text_of : Option Bytes → Bytes
text_of none = []
text_of (some text) = text

-- `std::string uri = base[pattern]`
unfoldable pub base_uri : HostAddress → Pattern → Bytes
base_uri base p = text_of (address_text (derived base p))

-- An argument, which can be a null pointer, with what nng makes for it.
abbrev pub Arg : Type 0
Arg = Option ℕ × Made

abbrev pub and_then : Connecting → ℕ → Store → (Store → Outcome × Store) → Outcome × Store
and_then (returns, s, effects) i sockets rest = rest (assign i s sockets)
and_then (throws error, s, effects) i sockets rest = (throws error, assign i s sockets)

-- `ARGS_CALL_PTR(dial(base))` or `ARGS_CALL_PTR(listen(base))`
unfoldable pub connect_each : Bool → HostAddress → List Arg → Store → Outcome × Store
unfolding connect base_uri
connect_each b base [] sockets = (returns, sockets)
connect_each b base ((none, made) ∷ args) sockets = connect_each b base args sockets
connect_each b base ((some i, made) ∷ args) sockets =
    and_then (connect b (base_uri base (sockets i).pattern) made (sockets i)) i sockets
      (connect_each b base args)

-- `ARGS_CALL_PTR(disconnect(base))`
unfoldable pub disconnect_each : HostAddress → List Arg → Store → Store
unfolding disconnect base_uri
disconnect_each base [] sockets = sockets
disconnect_each base ((none, made) ∷ args) sockets = disconnect_each base args sockets
disconnect_each base ((some i, made) ∷ args) sockets =
    disconnect_each base args
      (assign i (disconnect (base_uri base (sockets i).pattern) (sockets i)).0 sockets)

abbrev pub or_disconnect : HostAddress → List Arg → Outcome × Store → Outcome × Store
or_disconnect base args (returns, sockets) = (returns, sockets)
or_disconnect base args (throws error, sockets) = (throws error, disconnect_each base args sockets)

-- `Dial` and `Listen`
unfoldable pub connect_all : Bool → HostAddress → List Arg → Store → Outcome × Store
unfolding connect_each disconnect_each
connect_all b base args sockets = or_disconnect base args (connect_each b base args sockets)

-- Whether an argument is the communicator at a place.
abbrev pub Among : ℕ → List Arg → Type 0
Among i [] = ⊥
Among i ((none, made) ∷ args) = Among i args
Among i ((some j, made) ∷ args) = (i ≡ j) ⊎ Among i args
