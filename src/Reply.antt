-- ===== src/Reply.antt =====
-- include/telling/service_reply.h and src/telling/service_reply.cpp: Reply, the service that answers
-- requests. A query is known by the id of the context that received it, which nng numbers.
pub mod Places
pub mod Life
pub mod Outbox
pub mod Box
use telling.Prelude.{
  ℕ, suc, Bool, true, false, Option, none, some, List, [], ◌∷◌, ◌++◌, Bytes, ◌==◌, if◌then◌else◌,
}
use telling.QueuedIo.{send_or_enqueue, sent_out}
use telling.SendLoop.{AioResult, success, SendLoop, new_loop}

-- The handler's `async_` methods, and `recv` of a context.
pub data Effect : Type 0 where
  async_prep : ℕ → Bytes → Effect
  async_recv : ℕ → Bytes → Effect
  async_sent : ℕ → Effect
  async_error : ℕ → AioResult → Effect
  ctx_recv : ℕ → Effect

-- `receiving` is the context of the receive that is pending, `out` the outbox with the AIO that sends and what
-- was given to it, and `made` counts the contexts that were made.
pub record Reply : Type 0 where
  pub receiving : Option ℕ
  pub unresponded : List ℕ
  pub out : SendLoop (ℕ × Bytes)
  pub made : ℕ

-- What `respondTo` comes to: it throws `closed` or `inval`, or returns, having found no handler, a
-- message that is declined, or one that it sends.
pub data Responded : Type 0 where
  closed inval no_handler declined taken : Responded

unfoldable pub member : ℕ → List ℕ → Bool
member q [] = false
member q (j ∷ js) = if q == j then true else member q js

-- `unordered_set::emplace` and `erase`
unfoldable pub insert_if : Bool → ℕ → List ℕ → List ℕ
insert_if true q js = js
insert_if false q js = q ∷ js

unfoldable pub emplace : ℕ → List ℕ → List ℕ
unfolding member insert_if
emplace q js = insert_if (member q js) q js

unfoldable pub remove : ℕ → List ℕ → List ℕ
remove q [] = []
remove q (j ∷ js) = let rest = remove q js in if q == j then js else j ∷ rest

-- "Claim and erase the queryID", and what follows.
unfoldable pub claim : Bool → ℕ → Bytes → Reply → Responded × Reply
unfolding remove send_or_enqueue
claim false q msg s = (inval, s)
claim true q msg s =
    (taken, record s { unresponded = remove q s.unresponded; out = send_or_enqueue (q, msg) s.out })

unfoldable pub respond_prepped : Option Bytes → ℕ → Reply → Responded × Reply
unfolding claim member
respond_prepped none q s = (declined, s)
respond_prepped (some msg) q s = claim (member q s.unresponded) q msg s

-- The end of a send, with the handler alive: the code uses it without a test.
unfoldable pub aio_sent : AioResult → Option (ℕ × Bytes) → Reply → List Effect × Reply
unfolding sent_out
aio_sent result none s = ([], s)
aio_sent success (some (q, msg)) s = (async_sent q ∷ [], record s { out = sent_out s.out })
aio_sent result (some (q, msg)) s = ([], record s { out = record s.out { in_flight = none } })

-- What may happen: the pending receive ends; a call of `respondTo`; the pending send ends.
pub data Event : Type 0 where
  receives : Bool → AioResult → Bytes → Event
  responds : Bool → Bool → ℕ → Bytes → Event
  sends : AioResult → Event

-- nng gives the contexts their ids; the handler's `async_prep` keeps, changes or declines a response,
-- and its `async_recv` may leave a response in its tag.
module _ (ctx_id : ℕ → ℕ) (prep : ℕ → Bytes → Option Bytes)
    (answer : ℕ → Bytes → Option Bytes) where
  -- `ctx = make_ctx(); ctx.recv(aio_recv);`
  unfoldable pub receive_next : Reply → List Effect × Reply
  receive_next s = (
    ctx_recv (ctx_id s.made) ∷ [],
    record s { receiving = some (ctx_id s.made); made = suc s.made },
  )

  -- `initialize` of a new Reply with a handler.
  unfoldable pub new_reply : Reply
  unfolding receive_next
  new_reply =
      (receive_next (record { receiving = none; unresponded = []; out = new_loop; made = 0 })).1

  -- `respondTo`, given whether the communicator is ready and the handler alive.
  unfoldable pub respond_to : Bool → Bool → ℕ → Bytes → Reply → Responded × List Effect × Reply
  unfolding respond_prepped
  respond_to false has_handler q msg s = (closed, [], s)
  respond_to true false q msg s = (no_handler, [], s)
  respond_to true true q msg s =
      let (responded, s') = respond_prepped (prep q msg) q s in
      (responded, async_prep q msg ∷ [], s')

  -- "Responding through the tag", of a communicator that is ready.
  unfoldable pub respond_tag : Option Bytes → ℕ → Reply → List Effect × Reply
  unfolding respond_to
  respond_tag none q s = ([], s)
  respond_tag (some msg) q s =
      let (responded, effects, s') = respond_to true true q msg s in (effects, s')

  -- A query that arrives while the handler is alive.
  unfoldable pub receive_query : ℕ → Bytes → Reply → List Effect × Reply
  unfolding emplace respond_tag receive_next
  receive_query q query s =
      let s1 = record s { receiving = none; unresponded = emplace q s.unresponded } in
      let (told, s2) = respond_tag (answer q query) q s1 in
      let (next, s3) = receive_next s2 in (async_recv q query ∷ told ++ next, s3)

  -- `_aioReceived`: the receive on the context has ended.
  unfoldable pub aio_received : Bool → AioResult → Bytes → Option ℕ → Reply → List Effect × Reply
  unfolding receive_query
  aio_received has_handler result query none s = ([], s)
  aio_received false result query (some q) s = ([], record s { receiving = none })
  aio_received true success query (some q) s = receive_query q query s
  aio_received true result query (some q) s =
      (async_error q result ∷ [], record s { receiving = none })

  unfoldable pub step : Reply → Event → List Effect × Reply
  unfolding aio_received respond_to aio_sent
  step s (receives has_handler result query) = aio_received has_handler result query s.receiving s
  step s (responds ready has_handler q msg) =
      let (responded, effects, s') = respond_to ready has_handler q msg s in (effects, s')
  step s (sends result) = aio_sent result s.out.in_flight s

  unfoldable pub run : Reply → List Event → List Effect × Reply
  unfolding step
  run s [] = ([], s)
  run s (e ∷ es) =
      let (effects, s') = step s e in let (later, s'') = run s' es in (effects ++ later, s'')
