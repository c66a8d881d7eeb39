-- ===== src/Services.antt =====
-- Server::Services of include/telling/server.h and src/telling/server_services.cpp: the routing
-- table, the pipes that registered, and the management thread. Each handler holds the mutex, and the
-- management thread lets it go only in `cond.wait`, so each is one step. The prefix map is
-- tsl::htrie_map, of which `PrefixMap` states what is used. Left out are the log, the texts of replies,
-- the sockets of a route, which here is its path, and the subscriber's connection to each service.
pub mod Live
pub mod Events
pub mod Reachable
pub mod Routing
use telling.HostAddress.{HostAddress, inproc}
use telling.Lines.{consume_line}
use telling.Layout.{request}
use telling.MsgError.{MsgError, Result, ok, err, nospc, undefined, no_fuel}
use telling.Prelude.{
  ℕ, Bool, true, false, not, Option, none, some, List, [], ◌∷◌, ◌++◌, Bytes, codes, same_text, ◌==◌,
  if◌then◌else◌, ◌≡◌, ◌≢◌, ◌≤◌, length,
}
use telling.ErrorReply.{reply_status}
use telling.Status.StatusCode
use telling.Uri.{has_prefix}
use telling.View.{MsgView, view, body_string}

-- The operations of `PrefixMap<Route*>`, by their keys.
pub record PrefixMap (V : Type 0) : Type 1 where
  pub Table : Type 0
  pub empty_map : Table
  pub find : Bytes → Table → Option V
  pub emplace : Bytes → V → Table → Table
  pub erase : Bytes → Table → Table
  pub longest_prefix : Bytes → Table → Option V

-- What the map's documentation says of them; `emplace` keeps a value that is there.
pub record MapLaws {V : Type 0} (m : PrefixMap V) : Type 0 where
  pub find-empty_map : (k : Bytes) → m.find k m.empty_map ≡ none
  pub find-emplace_self :
      (k : Bytes) (v : V) (t : m.Table) → m.find k t ≡ none → m.find k (m.emplace k v t) ≡ some v
  pub find-emplace_ne :
      (k k' : Bytes) (v : V) (t : m.Table) → k' ≢ k → m.find k' (m.emplace k v t) ≡ m.find k' t
  pub find-erase_self : (k : Bytes) (t : m.Table) → m.find k (m.erase k t) ≡ none
  pub find-erase_ne : (k k' : Bytes) (t : m.Table) → k' ≢ k → m.find k' (m.erase k t) ≡ m.find k' t
  pub longest_prefix-some :
      (path : Bytes) (t : m.Table) (v : V)
      → m.longest_prefix path t ≡ some v
      → (k : Bytes) × (m.find k t ≡ some v)
        × (has_prefix k path ≡ true)
        × ((k' : Bytes) → has_prefix k' path ≡ true → m.find k' t ≢ none → length k' ≤ length k)
  pub longest_prefix-none :
      (path : Bytes) (t : m.Table)
      → m.longest_prefix path t ≡ none
      → (k : Bytes) → has_prefix k path ≡ true
      → m.find k t ≡ none

pub record Route : Type 0 where
  pub path : Bytes

pub record NewRoute : Type 0 where
  pub query_id : ℕ
  pub pipe_id : ℕ
  pub map_uri : Bytes
  pub host : HostAddress

pub record Reply : Type 0 where
  pub query : ℕ
  pub status : ℕ

pub record Report : Type 0 where
  pub status : ℕ
  pub path : Bytes

-- `registrationMap`, a `std::unordered_map`: `emplace` keeps an entry that is there.
abbrev pub Registrations : Type 0
Registrations = List (ℕ × Bytes)

unfoldable pub registered : ℕ → Registrations → Option Bytes
registered pipe [] = none
registered pipe ((p, path) ∷ rest) = if p == pipe then some path else registered pipe rest

unfoldable pub register : ℕ → Bytes → Registrations → Registrations
unfolding registered
register pipe path r = elim (registered pipe r) [ none ↦ (pipe, path) ∷ r | some old ↦ r ]

unfoldable pub unregister : ℕ → Registrations → Registrations
unregister pipe [] = []
unregister pipe ((p, path) ∷ rest) =
    let rest' = unregister pipe rest in if p == pipe then rest' else (p, path) ∷ rest'

-- `published` and `replies` list what was sent, oldest first; `deleted` the routes deleted.
pub record Services {V : Type 0} (m : PrefixMap V) : Type 0 where
  pub map : m.Table
  pub registration : Registrations
  pub route_open : List NewRoute
  pub route_close : List Route
  pub replies : List Reply
  pub published : List Report

module _ (m : PrefixMap Route) where
  unfoldable pub new_services : Services m
  new_services = record {
    map = m.empty_map;
    registration = [];
    route_open = [];
    route_close = [];
    replies = [];
    published = [];
  }

  unfoldable pub respond_to : ℕ → ℕ → Services m → Services m
  respond_to query status s = record s {
    replies = s.replies ++ record { query = query; status = status } ∷ [];
  }

  unfoldable pub publish : ℕ → Bytes → Services m → Services m
  publish status path s = record s {
    published = s.published ++ record { status = status; path = path } ∷ [];
  }

  -- `HostAddress::Base::InProc`
  abbrev pub in_proc : Bytes → HostAddress
  in_proc name = record { transport = inproc; number = 0; name = name }

  -- What follows the test `pi != pe`, with the text between them.
  unfoldable pub register_path : ℕ → ℕ → Bytes → Bytes → Services m → Services m
  unfolding respond_to register
  register_path query pipe path_prefix [] s = record s {
    registration = register pipe path_prefix s.registration;
    route_open =
        s.route_open
        ++ record {
          query_id = query;
          pipe_id = pipe;
          map_uri = path_prefix;
          host = in_proc path_prefix;
        }
          ∷ [];
  }
  register_path query pipe path_prefix (c ∷ cs) s = respond_to query StatusCode.bad_request s

  -- `async_recv` of a message that parses, whose URI makes no difference.
  unfoldable pub register_body : ℕ → ℕ → Bytes → Services m → Services m
  unfolding register_path
  register_body query pipe body s =
      let (path_prefix, after_prefix) = consume_line body in
      let (config_line, after_config) = consume_line after_prefix in
      register_path query pipe path_prefix after_config s

  unfoldable pub answer : ℕ → ℕ → Result MsgView → Services m → Services m
  unfolding register_body respond_to
  answer query pipe (ok v) s = register_body query pipe (body_string v) s
  answer query pipe (err e) s = respond_to query (reply_status e) s
  answer query pipe _ s = s

  -- `async_recv`, with the id of the query, the id of the message's pipe and the message. The parser
  -- fails only with a `MsgException`.
  unfoldable pub async_recv : ℕ → ℕ → Bytes → Services m → Services m
  unfolding answer
  async_recv query pipe msg s = answer query pipe (view msg request) s

  -- `map.find(path)` and what follows.
  unfoldable pub close_path : ℕ → Bytes → Option Route → Services m → Services m
  unfolding unregister
  close_path pipe path none s = record s { registration = unregister pipe s.registration }
  close_path pipe path (some route) s = record s {
    registration = unregister pipe s.registration;
    map = m.erase path s.map;
    route_close = s.route_close ++ route ∷ [];
  }

  -- `registrationMap.find(pipeID)` and what follows. For a pipe that is not registered the end of the
  -- map is erased, which is undefined: `none`.
  unfoldable pub disconnect : ℕ → Option Bytes → Services m → Option (Services m)
  unfolding close_path
  disconnect pipe none s = none
  disconnect pipe (some path) s = some (close_path pipe path (m.find path s.map) s)

  -- `pipeEvent`, for `rem_post`, the only event that it acts on.
  unfoldable pub pipe_event : ℕ → Services m → Option (Services m)
  unfolding registered disconnect
  pipe_event pipe s = disconnect pipe (registered pipe s.registration) s

  -- One round of the loop over `to_close`.
  unfoldable pub close_route : Route → Services m → Services m
  unfolding publish
  close_route route s = publish StatusCode.gone route.path s

  -- `while (to_close.size())`
  unfoldable pub close_all : List Route → Services m → Services m
  unfolding close_route
  close_all [] s = record s { route_close = [] }
  close_all (route ∷ rest) s = close_all rest (close_route route s)

  -- What follows `map.find(spec.map_uri)`: the route is there, or it is made and dialed.
  unfoldable pub open_new : Bool → NewRoute → Option Route → Services m → Services m
  unfolding respond_to publish unregister
  open_new dialed spec (some there) s =
      respond_to spec.query_id StatusCode.conflict
        (record s { registration = unregister spec.pipe_id s.registration })
  open_new true spec none s = publish StatusCode.created spec.map_uri (
      respond_to spec.query_id StatusCode.ok
        (record s { map = m.emplace spec.map_uri (record { path = spec.map_uri }) s.map }))
  open_new false spec none s = respond_to spec.query_id StatusCode.service_unavailable (record s {
    map = m.erase spec.map_uri (m.emplace spec.map_uri (record { path = spec.map_uri }) s.map);
    registration = unregister spec.pipe_id s.registration;
  })

  -- One round of the loop over `to_open`; `dials` says whether the service could be dialed.
  unfoldable pub open_route : (NewRoute → Bool) → NewRoute → Services m → Services m
  unfolding open_new
  open_route dials spec s = open_new (dials spec) spec (m.find spec.map_uri s.map) s

  -- `while (to_open.size())`
  unfoldable pub open_all : (NewRoute → Bool) → List NewRoute → Services m → Services m
  unfolding open_route
  open_all dials [] s = record s { route_open = [] }
  open_all dials (spec ∷ rest) s = open_all dials rest (open_route dials spec s)

  -- A round of `run_management_thread`, up to `cond.wait`.
  unfoldable pub manage : (NewRoute → Bool) → Services m → Services m
  unfolding close_all open_all
  manage dials s = let closed = close_all s.route_close s in open_all dials closed.route_open closed

  -- What follows `route(path)`; `sends` says whether the route's send throws nothing.
  unfoldable pub send_to : (Route → Bool) → Option Route → ℕ
  send_to sends none = StatusCode.not_found
  send_to sends (some r) = if sends r then StatusCode.ok else StatusCode.service_unavailable

  -- `routePush` and `routeRequest`
  unfoldable pub route_message : (Route → Bool) → Bytes → Services m → ℕ
  unfolding send_to
  route_message sends path s = send_to sends (m.longest_prefix path s.map)
