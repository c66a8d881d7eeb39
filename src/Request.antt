-- ===== src/Request.antt =====
-- include/telling/client_request.h and src/telling/client_request.cpp: Request, the client of
-- requests. An action is known by the id of its context, which nng numbers; the id is that of the
-- query. What the code calls outside itself, on its handler or on an action's context, is listed as
-- effects, in order.
pub mod Actions
pub mod Ledger
pub mod Shutdown
pub mod Box
use telling.Prelude.{
  ℕ, suc, ◌+◌, Bool, true, false, ◌||◌, Option, none, some, List, [], ◌∷◌, ◌++◌, Bytes,
}
use telling.Prelude.Table.{find, erase, update}
use telling.SendLoop.{AioResult, success}

-- `ACTION_STATE`
pub data ActionState : Type 0 where
  idle send recv : ActionState

-- The handler's `async_` methods, and `send` and `recv` of a context; `drops` is the message that
-- arrives when no handler is left, and is released.
pub data Effect : Type 0 where
  async_prep : ℕ → Bytes → Effect
  async_sent : ℕ → Effect
  async_recv : ℕ → Bytes → Effect
  async_error : ℕ → AioResult → Effect
  ctx_send : ℕ → Bytes → Effect
  ctx_recv : ℕ → Effect
  drops : ℕ → Bytes → Effect

-- `made` counts the contexts that were made.
pub record Request : Type 0 where
  pub active : List (ℕ × ActionState)
  pub idle_ids : List ℕ
  pub made : ℕ

abbrev pub new_request : Request
new_request = record { active = []; idle_ids = []; made = 0 }

-- `request` returns the query's id or throws.
pub data Requested : Type 0 where
  accepted : ℕ → Requested
  closed exist canceled : Requested

-- What `msgStats` counts.
pub record MsgStats : Type 0 where
  pub awaiting_send : ℕ
  pub awaiting_recv : ℕ

unfoldable pub count_stats : List (ℕ × ActionState) → MsgStats
count_stats [] = record { awaiting_send = 0; awaiting_recv = 0 }
count_stats ((i, send) ∷ t) =
    let s = count_stats t in record s { awaiting_send = suc s.awaiting_send }
count_stats ((i, recv) ∷ t) =
    let s = count_stats t in record s { awaiting_recv = suc s.awaiting_recv }
count_stats ((i, idle) ∷ t) = count_stats t

unfoldable pub msg_stats : Request → MsgStats
unfolding count_stats
msg_stats c = count_stats c.active

-- nng gives the contexts their ids; the handler's `async_prep` keeps, changes or declines a message.
module _ (ctx_id : ℕ → ℕ) (prep : ℕ → Bytes → Option Bytes) where
  -- "Allocate."
  unfoldable pub allocate_from : List ℕ → Request → ℕ × Request
  allocate_from [] c = (ctx_id c.made, record c { made = suc c.made })
  allocate_from (i ∷ is) c = (i, record c { idle_ids = is })

  -- What follows `async_prep`.
  unfoldable pub proceed : Option Bytes → ℕ → Request → Requested × List Effect × Request
  proceed none i c = (canceled, [], record c { idle_ids = i ∷ c.idle_ids })
  proceed (some msg) i c =
      (accepted i, ctx_send i msg ∷ [], record c { active = (i, send) ∷ c.active })

  -- `request` of a ready communicator with a handler.
  unfoldable pub start : Bytes → Request → Requested × List Effect × Request
  unfolding allocate_from proceed
  start msg c =
      let (i, c') = allocate_from c.idle_ids c in
      let (requested, effects, c'') = proceed (prep i msg) i c' in
      (requested, async_prep i msg ∷ effects, c'')

  -- `request`
  unfoldable pub request : Bool → Bool → Bytes → Request → Requested × List Effect × Request
  unfolding start
  request false has_handler msg c = (closed, [], c)
  request true false msg c = (exist, [], c)
  request true true msg c = start msg c

-- The first part of `Action::_callback`: the handler's calls, and whether `cleanup` or `cancel` is
-- set. `msg` is what the AIO holds.
unfoldable pub notify : Bool → AioResult → Bytes → ℕ → ActionState → List Effect × Bool
notify false success msg i recv = (drops i msg ∷ [], true)
notify false result msg i state = ([], true)
notify true success msg i send = (async_sent i ∷ [], false)
notify true success msg i recv = (async_recv i msg ∷ [], true)
notify true success msg i idle = ([], true)
notify true result msg i state = (async_error i result ∷ [], true)

-- The switch at its end: under SEND the action listens for the response, else it goes to the idle
-- queue.
unfoldable pub settle : ActionState → ℕ → Request → List Effect × Request
settle send i c = (ctx_recv i ∷ [], record c { active = update i recv c.active })
settle _ i c = ([], record c { active = erase i c.active; idle_ids = c.idle_ids ++ i ∷ [] })

unfoldable pub react :
    Bool → AioResult → Bytes → ℕ → Option ActionState → Request → List Effect × Request
unfolding notify settle
react has_handler result msg i none c = ([], c)
react has_handler result msg i (some state) c =
    let (effects, cleanup) = notify has_handler result msg i state in
    let (then_effects, c') = settle (elim cleanup [ true ↦ idle | false ↦ state ]) i c in
    (effects ++ then_effects, c')

-- `Action::_callback`: the operation on the context of action `i` has ended. Only an active action
-- has an operation.
unfoldable pub callback : Bool → AioResult → Bytes → ℕ → Request → List Effect × Request
unfolding react find
callback has_handler result msg i c = react has_handler result msg i (find i c.active) c

-- What may happen: a call of `request`, given whether the communicator is ready and the handler
-- alive, and the end of an operation.
pub data Event : Type 0 where
  requests : Bool → Bool → Bytes → Event
  ends : Bool → AioResult → Bytes → ℕ → Event

module _ (ctx_id : ℕ → ℕ) (prep : ℕ → Bytes → Option Bytes) where
  unfoldable pub step : Request → Event → List Effect × Request
  unfolding request callback
  step c (requests ready has_handler msg) =
      let (requested, effects, c') = request ctx_id prep ready has_handler msg c in (effects, c')
  step c (ends has_handler result msg i) = callback has_handler result msg i c

  -- All effects of the events, and the state behind them.
  unfoldable pub run : Request → List Event → List Effect × Request
  unfolding step
  run c [] = ([], c)
  run c (e ∷ es) =
      let (effects, c') = step c e in let (later, c'') = run c' es in (effects ++ later, c'')
