-- ===== src/SendLoop.antt =====
-- include/telling/async_loop.h, AsyncSendLoop, with its usual handler, the AsyncSendQueue of
-- include/telling/async_queue.h. `in_flight` is the message of the AIO while a send is pending;
-- `wire` lists the messages given to `ctx.send`, oldest first.
pub mod Order
pub mod Life
pub mod Stall
use telling.Prelude.{Bool, true, false, Option, none, some, List, [], ◌∷◌, ◌++◌}
use telling.Queue.{SendQueue, idle, produce, consume}

-- The results of an AIO that the callbacks tell apart.
pub data AioResult : Type 0 where
  success timedout canceled other : AioResult

pub record SendLoop {ℓ} (A : Type ℓ) : Type ℓ where
  pub queue : SendQueue A
  pub in_flight : Option A
  pub wire : List A

-- What may happen: a call of `send_msg`, or, while a send is pending, its end.
pub data Event {ℓ} (A : Type ℓ) : Type ℓ where
  sends : A → Event A
  ends : AioResult → Event A

module _ {ℓ} {A : Type ℓ} where
  abbrev pub new_loop : SendLoop A
  new_loop = record { queue = idle; in_flight = none; wire = [] }

  -- `_aio.set_msg(msg); _ctx.send(_aio);`
  unfoldable pub transmit : A → SendLoop A → SendLoop A
  transmit msg s = record s { in_flight = some msg; wire = s.wire ++ msg ∷ [] }

  -- `AsyncSendQueue::async_prep`: the message that is left to the caller. `send_msg` passes its own
  -- `_tag`, whose prompt points nowhere, so `tag.send` does nothing and the message stays.
  unfoldable pub async_prep : A → SendQueue A → Option A × SendQueue A
  async_prep msg q =
      let (queued, q') = produce msg q in (elim queued [ true ↦ none | false ↦ some msg ], q')

  -- `AsyncSendQueue::async_sent`: the next message, which the tag's prompt takes.
  unfoldable pub async_sent : SendQueue A → Option A × SendQueue A
  async_sent q = consume q

  -- `if (msg) { _aio.set_msg(...); _ctx.send(_aio); }`
  unfoldable pub transmit_if : Option A → SendLoop A → SendLoop A
  unfolding transmit
  transmit_if none s = s
  transmit_if (some msg) s = transmit msg s

  -- `send_msg`, the handler being alive.
  unfoldable pub send_msg : A → SendLoop A → SendLoop A
  unfolding async_prep transmit_if produce
  send_msg msg s =
      let (left, q) = async_prep msg s.queue in transmit_if left (record s { queue = q })

  -- `AsyncSend_Callback_Self`. AsyncSendQueue has no `async_error` of its own, so no message
  -- follows an error.
  unfoldable pub callback : AioResult → SendLoop A → SendLoop A
  unfolding async_sent transmit_if consume
  callback success s =
      let (next, q) = async_sent s.queue in
      transmit_if next (record s { queue = q; in_flight = none })
  callback _ s = record s { in_flight = none }

  unfoldable pub step : SendLoop A → Event A → SendLoop A
  unfolding send_msg callback
  step s (sends msg) = send_msg msg s
  step s (ends result) = elim s.in_flight [ none ↦ s | some msg ↦ callback result s ]

  unfoldable pub run : SendLoop A → List (Event A) → SendLoop A
  unfolding step
  run s [] = s
  run s (e ∷ es) = run (step s e) es
