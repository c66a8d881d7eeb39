-- ===== src/RecvLoop.antt =====
-- include/telling/async_loop.h, AsyncRecvLoop, with what it calls on its handler listed as effects, and
-- AsyncRecvQueue of include/telling/async_queue.h. Whether a handler is alive, and whether its
-- async_start throws, come with the calls. `receiving` says that a receive is pending.
pub mod Bracket
pub mod Delivery
pub mod Inbox
use telling.Prelude.{ℕ, Bool, true, false, Option, none, some, List, [], ◌∷◌, ◌++◌, if◌then◌else◌}
use telling.Queue.{RecvQueue, push}
use telling.SendLoop.{AioResult, success, timedout, canceled, other}

pub record RecvLoop : Type 0 where
  pub handler : Option ℕ
  pub receiving : Bool

-- The calls on a handler.
pub data Effect {ℓ} (A : Type ℓ) : Type ℓ where
  async_start : ℕ → Effect A
  async_recv : ℕ → A → Effect A
  async_error async_stop : ℕ → AioResult → Effect A

-- How a receive ends: with a message, or with an error.
pub data Ended {ℓ} (A : Type ℓ) : Type ℓ where
  received : A → Ended A
  fails : AioResult → Ended A

-- How a call of recv_start ends.
pub data Started : Type 0 where
  starts busy closed start_threw : Started

abbrev pub new : RecvLoop
new = record { handler = none; receiving = false }

-- `_handler.lock()`
abbrev pub lock : Bool → Option ℕ → Option ℕ
lock true handler = handler
lock false handler = none

module _ {ℓ} {A : Type ℓ} where
  -- The rest of `AsyncRecv_Callback_Self` with its handler. A result of success has a message.
  unfoldable pub notify : Option ℕ → Ended A → RecvLoop → RecvLoop × List (Effect A)
  notify none ended s = (record s { receiving = false }, [])
  notify (some h) (received msg) s = (record s { receiving = true }, async_recv h msg ∷ [])
  notify (some h) (fails timedout) s = (record s { receiving = true }, async_error h timedout ∷ [])
  notify (some h) (fails result) s =
      (record s { receiving = false }, async_error h result ∷ async_stop h result ∷ [])

  -- `AsyncRecv_Callback_Self`
  unfoldable pub callback : (alive : Bool) → Ended A → RecvLoop → RecvLoop × List (Effect A)
  unfolding notify
  callback alive ended s = notify (lock alive s.handler) ended s

  -- `recv_start` after the tests: async_start may throw.
  unfoldable pub begin : (throws : Bool) → ℕ → RecvLoop → Started × RecvLoop × List (Effect A)
  begin true h s = (start_threw, record s { handler = some h }, async_start h ∷ [])
  begin false h s = (starts, record { handler = some h; receiving = true }, async_start h ∷ [])

  unfoldable pub start_with :
      Option ℕ → Option ℕ → Bool → RecvLoop → Started × RecvLoop × List (Effect A)
  unfolding begin
  start_with (some current) new_handler throws s = (busy, s, [])
  start_with none none throws s = (closed, s, [])
  start_with none (some h) throws s = begin throws h s

  -- `recv_start`; `alive` is whether the present handler is, `new_alive` whether the new one is.
  unfoldable pub recv_start :
      (alive new_alive throws : Bool) → ℕ → RecvLoop → Started × RecvLoop × List (Effect A)
  unfolding start_with
  recv_start alive new_alive throws h s =
      start_with (lock alive s.handler) (lock new_alive (some h)) throws s

  -- `_aio.stop()` cancels the receive that is pending and waits for its callback.
  unfoldable pub aio_stop : Bool → RecvLoop → RecvLoop × List (Effect A)
  unfolding callback
  aio_stop alive s = if s.receiving then callback alive (fails canceled) s else (s, [])

  abbrev pub stopped : Option ℕ → List (Effect A)
  stopped none = []
  stopped (some h) = async_stop h success ∷ []

  -- `recv_stop`, which is also what the destructor does.
  unfoldable pub recv_stop : (alive : Bool) → RecvLoop → RecvLoop × List (Effect A)
  unfolding aio_stop
  recv_stop alive s =
      let (s', effects) = aio_stop alive s in (s', effects ++ stopped (lock alive s'.handler))

  -- AsyncRecvQueue: `async_recv` pushes the message; the other calls do nothing.
  unfoldable pub queue_effect : Effect A → RecvQueue A → RecvQueue A
  unfolding push
  queue_effect (async_recv h msg) q = push msg q
  queue_effect (async_start h) q = q
  queue_effect (async_error h result) q = q
  queue_effect (async_stop h result) q = q
