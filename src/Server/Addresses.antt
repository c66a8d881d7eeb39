-- ===== src/Server/Addresses.antt =====
-- Server::open and Server::close of src/telling/server.cpp: the sockets of the three services of a server
-- listen at an address each.
use telling.HostAddress.{HostAddress}
use telling.Prelude.{ℕ, true, some, List, [], ◌∷◌, inl, inr, refl}
use telling.Socket.Group.{Arg, Store, connect_all, disconnect_each}
use telling.Socket.Apart.{Apart, Apart-trans, Freed, disconnect_each-Apart, disconnect_each-Freed}
use telling.Socket.Together.{connect_all-Together}
use telling.Socket.{Made, Outcome}

-- The places of the sockets of `reply`, `publish` and `pull`.
pub record HostSockets : Type 0 where
  pub reply : ℕ
  pub publish : ℕ
  pub pull : ℕ

abbrev pub host_args : HostSockets → Made → Made → Made → List Arg
host_args hosts r p q = (some hosts.reply, r) ∷ (some hosts.publish, p) ∷ (some hosts.pull, q) ∷ []

-- `Server::open`, with what nng makes for each socket.
unfoldable pub open_base : HostAddress → HostSockets → Made → Made → Made → Store → Outcome × Store
unfolding connect_all
open_base base hosts r p q sockets = connect_all true base (host_args hosts r p q) sockets

-- `Server::close`, which makes nothing.
unfoldable pub close_base : HostAddress → HostSockets → Made → Store → Store
unfolding disconnect_each
close_base base hosts nothing sockets =
    disconnect_each base (host_args hosts nothing nothing nothing) sockets

-- After open and close, whatever nng made of the calls, no socket of the server has a connector at its
-- address of the base, and what any socket has elsewhere is as before.
pub close_base-open_base :
    (base : HostAddress) (hosts : HostSockets) (r p q nothing : Made) (sockets : Store) (i : ℕ)
    → let after = close_base base hosts nothing (open_base base hosts r p q sockets).1 in
      Freed base (after hosts.reply)
      × Freed base (after hosts.publish)
      × Freed base (after hosts.pull)
      × Apart base (sockets i) (after i)
unfolding open_base close_base
close_base-open_base base hosts r p q nothing sockets i =
    let opened = (connect_all true base (host_args hosts r p q) sockets).1 in
    let args = host_args hosts nothing nothing nothing in
    (
      disconnect_each-Freed base args opened hosts.reply (inl refl),
      disconnect_each-Freed base args opened hosts.publish (inr (inl refl)),
      disconnect_each-Freed base args opened hosts.pull (inr (inr (inl refl))),
      Apart-trans base (sockets i) (opened i) (disconnect_each base args opened i)
          ((connect_all-Together true base (host_args hosts r p q) sockets).1 i)
          (disconnect_each-Apart base args opened i),
    )
