-- ===== src/HttpClient/Queries.antt =====
-- The queries of an HttpClient: `request`, the callback, `msgStats` and the destructor.
pub mod Reused
use telling.HttpClient.{
  ActionState, idle, connect, send, recv, HttpResult, canceled, Action, Effect, async_prep,
  starts_connect, turn,
}
use telling.Prelude.Table.{find, erase, update}
use telling.Prelude.{
  ℕ, suc, ◌+◌, ◌%◌, ◌^◌, Bool, true, false, Option, none, some, List, [], ◌∷◌, ◌++◌, Bytes,
}
use telling.View.Completion.{no_completion}

-- `nextQueryID` is an `int` of 32 bits or more, whose end is not modelled.
pub record HttpClient : Type 0 where
  pub active : List (ℕ × Action)
  pub idle_actions : List Action
  pub next_query_id : ℕ

abbrev pub new_client : HttpClient
new_client = record { active = []; idle_actions = []; next_query_id = 0 }

-- `new Action{this}`; nothing reads its first state.
abbrev pub new_action : Action
new_action = record {
  query_id = 0;
  state = idle;
  req = none;
  res = none;
  conn = false;
  res_completion = no_completion;
  recv_count = 0;
}

pub data Requested : Type 0 where
  accepted : ℕ → Requested
  exist declined : Requested

-- "Allocate."
unfoldable pub allocate_from : List Action → HttpClient → Action × HttpClient
allocate_from [] c = (new_action, c)
allocate_from (a ∷ as') c = (a, record c { idle_actions = as' })

-- `queryID = nextQueryID++`
unfoldable pub name_query : HttpClient → Action → Action × HttpClient
name_query c a =
    (record a { query_id = c.next_query_id }, record c { next_query_id = suc c.next_query_id })

-- The request that is stowed in an action.
unfoldable pub stow : Bytes → Action → Action
stow msg a = record a { state = connect; req = some msg }

unfoldable pub proceed : Option Bytes → Action → HttpClient → Requested × List Effect × HttpClient
unfolding stow
proceed none a c = (declined, [], record c { idle_actions = a ∷ c.idle_actions })
proceed (some msg) a c = (
  accepted a.query_id,
  starts_connect a.query_id ∷ [],
  record c { active = (a.query_id, stow msg a) ∷ c.active },
)

unfoldable pub start :
    (ℕ → Bytes → Option Bytes) → Bytes → HttpClient → Requested × List Effect × HttpClient
unfolding allocate_from name_query proceed
start prep msg c =
    let (a, c1) = allocate_from c.idle_actions c in
    let (a', c2) = name_query c1 a in
    let (requested, effects, c3) = proceed (prep a'.query_id msg) a' c2 in
    (requested, async_prep a'.query_id msg ∷ effects, c3)

-- `request`, given whether the handler is alive and what its `async_prep` leaves of a message.
unfoldable pub request :
    (ℕ → Bytes → Option Bytes) → Bool → Bytes → HttpClient → Requested × List Effect × HttpClient
unfolding start
request prep false msg c = (exist, [], c)
request prep true msg c = start prep msg c

-- The end of the callback, under the lock.
unfoldable pub settle : ℕ → Action × Bool → HttpClient → HttpClient
settle q (a, true) c = record c { active = update q a c.active }
settle q (a, false) c = record c {
  active = erase q c.active;
  idle_actions = c.idle_actions ++ a ∷ [];
}

pub record MsgStats : Type 0 where
  pub awaiting_send : ℕ
  pub awaiting_recv : ℕ

unfoldable pub count_action : ActionState → MsgStats → MsgStats
count_action send s = record s { awaiting_send = suc s.awaiting_send }
count_action recv s = record s { awaiting_recv = suc s.awaiting_recv }
count_action _ s = s

-- `msgStats`
unfoldable pub msg_stats : List (ℕ × Action) → MsgStats
unfolding count_action
msg_stats [] = record { awaiting_send = 0; awaiting_recv = 0 }
msg_stats ((q, a) ∷ t) = count_action a.state (msg_stats t)

module _ (blank : ℕ → Bytes) where
  unfoldable pub react :
      Bool → HttpResult → ℕ → Option Action → HttpClient → List Effect × HttpClient
  unfolding settle
  react has_handler result q none c = ([], c)
  react has_handler result q (some a) c =
      let (effects, a', stays) = turn blank has_handler result a in
      (effects, settle q (a', stays) c)

  -- `Action::_callback` of the action of a query; only an active action has an operation.
  unfoldable pub callback : Bool → HttpResult → ℕ → HttpClient → List Effect × HttpClient
  unfolding find react
  callback has_handler result q c = react has_handler result q (find q c.active) c

  -- `~HttpClient`: every active action is canceled and waited for.
  unfoldable pub cancel_all : Bool → List (ℕ × Action) → HttpClient → List Effect × HttpClient
  unfolding callback
  cancel_all has_handler [] c = ([], c)
  cancel_all has_handler ((q, a) ∷ t) c =
      let (effects, c') = callback has_handler canceled q c in
      let (later, c'') = cancel_all has_handler t c' in (effects ++ later, c'')

  unfoldable pub destroy : Bool → HttpClient → List Effect × HttpClient
  unfolding cancel_all
  destroy has_handler c = cancel_all has_handler c.active c
