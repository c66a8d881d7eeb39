-- ===== src/SendLoop/Life.antt =====
-- The handler of an AsyncSendLoop (include/telling/async_loop.h): its installation, what happens without
-- it, and the end of the loop. The handler's async_start and async_stop are listed as effects.
use telling.Prelude.{ℕ, Bool, true, false, Option, none, some, List, [], ◌∷◌, ◌≡◌, refl, sym}
use telling.SendLoop.{SendLoop, AioResult, canceled, send_msg, callback}

pub data Effect : Type 0 where
  async_start async_stop : ℕ → Effect

-- How send_init and send_msg end.
pub data Outcome : Type 0 where
  returns busy closed exist : Outcome

pub record HandledLoop {ℓ} (A : Type ℓ) : Type ℓ where
  pub handler : Option ℕ
  pub loop : SendLoop A

-- `_handler.lock()`
abbrev pub lock : Bool → Option ℕ → Option ℕ
lock true handler = handler
lock false handler = none

abbrev pub told : Option ℕ → List Effect
told none = []
told (some h) = async_stop h ∷ []

module _ {ℓ} {A : Type ℓ} where
  unfoldable pub install :
      Option ℕ → Option ℕ → HandledLoop A → Outcome × HandledLoop A × List Effect
  install (some current) new_handler s = (busy, s, [])
  install none none s = (closed, s, [])
  install none (some h) s = (returns, record s { handler = some h }, async_start h ∷ [])

  -- `send_init`, of a handler that is alive or not.
  unfoldable pub send_init :
      (alive new_alive : Bool) → ℕ → HandledLoop A → Outcome × HandledLoop A × List Effect
  unfolding install
  send_init alive new_alive h s = install (lock alive s.handler) (lock new_alive (some h)) s

  unfoldable pub send_with : Option ℕ → A → HandledLoop A → Outcome × HandledLoop A
  unfolding send_msg
  send_with none msg s = (exist, s)
  send_with (some h) msg s = (returns, record s { loop = send_msg msg s.loop })

  -- `send_msg`
  unfoldable pub send : (alive : Bool) → A → HandledLoop A → Outcome × HandledLoop A
  unfolding send_with
  send alive msg s = send_with (lock alive s.handler) msg s

  -- `AsyncSend_Callback_Self`: without a handler nothing more is sent.
  unfoldable pub end_with : Option ℕ → AioResult → SendLoop A → SendLoop A
  unfolding callback
  end_with none result s = record s { in_flight = none }
  end_with (some h) result s = callback result s

  abbrev stop_pending : Option A → Option ℕ → SendLoop A → SendLoop A
  stop_pending none handler s = s
  stop_pending (some msg) handler s = end_with handler canceled s

  -- `send_stop`: `_aio.stop()` cancels the send that is pending.
  unfoldable pub send_stop : (alive : Bool) → HandledLoop A → HandledLoop A
  unfolding end_with
  send_stop alive s = record s {
    loop = stop_pending s.loop.in_flight (lock alive s.handler) s.loop;
  }

  -- The destructor.
  unfoldable pub destroy : (alive : Bool) → HandledLoop A → HandledLoop A × List Effect
  unfolding send_stop
  destroy alive s = (send_stop alive s, told (lock alive s.handler))

  stop_pending-silent :
      (o : Option A) (handler : Option ℕ) (s : SendLoop A)
      → o ≡ s.in_flight
      → ((stop_pending o handler s).wire ≡ s.wire) × ((stop_pending o handler s).in_flight ≡ none)
  unfolding end_with callback
  stop_pending-silent none handler s h = (refl, sym h)
  stop_pending-silent (some msg) none s h = (refl, refl)
  stop_pending-silent (some msg) (some g) s h = (refl, refl)

  -- The destructor sends nothing more and leaves no send pending, whether there is a handler or not.
  pub destroy-silent :
      (alive : Bool) (s : HandledLoop A)
      → ((destroy alive s).0.loop.wire ≡ s.loop.wire) × ((destroy alive s).0.loop.in_flight ≡ none)
  unfolding destroy send_stop
  destroy-silent alive s = stop_pending-silent s.loop.in_flight (lock alive s.handler) s.loop refl
