-- ===== src/QueuedIo/Sending.antt =====
-- The order in which a QueuedSend_ sends, and what closing it leaves.
use telling.Prelude.{
  Bool, true, false, Option, none, some, List, [], ◌∷◌, ◌++◌, ◌≡◌, refl, sym, ap, ◌∙◌,
}
use telling.Queue.{produce, consume, clear}
use telling.QueuedIo.{
  send_or_enqueue, send_next, sent_out, aio_sent, QueuedSend, SendEvent, opens, closes, sends, ends,
  unopened, close, open_if, send_if, step, run,
}
use telling.SendLoop.Order
use telling.SendLoop.{
  AioResult, success, timedout, canceled, other, SendLoop, new_loop, async_prep, async_sent,
  transmit, transmit_if, send_msg, callback,
}
use telling.SendLoop

module _ {ℓ} {A : Type ℓ} where
  pub enqueued :
      (msg : A) (busy : Bool) (deq wire : List A) (f : Option A)
      → let o : SendLoop A = record {
        queue = record { deq = deq; busy = busy };
        in_flight = f;
        wire = wire;
      } in
        send_or_enqueue msg o ≡ send_msg msg o
  unfolding send_or_enqueue send_msg async_prep produce transmit transmit_if
  enqueued msg true deq wire f = refl
  enqueued msg false deq wire f = refl

  pub sent_deq :
      (busy : Bool) (deq wire : List A) (f : Option A)
      → let o : SendLoop A = record {
        queue = record { deq = deq; busy = busy };
        in_flight = f;
        wire = wire;
      } in
        sent_out o ≡ callback success o
  unfolding sent_out callback async_sent consume send_next transmit_if
  sent_deq busy [] wire f = refl
  sent_deq busy (next ∷ deq) wire f = refl

  pub ended :
      (result : AioResult) (f : Option A) (msg : A) (o : SendLoop A)
      → f ≡ some msg
      → o.in_flight ≡ f
      → SendLoop.step o (SendLoop.ends result) ≡ callback result o
  unfolding SendLoop.step
  ended result f msg o e e' = rw (e' ∙ e) refl

  -- While a QueuedSend_ is neither opened nor closed: the same events of a send loop.
  abbrev as_loop : List (SendEvent A) → List (SendLoop.Event A)
  as_loop [] = []
  as_loop (sends msg ∷ es) = SendLoop.sends msg ∷ as_loop es
  as_loop (ends result ∷ es) = SendLoop.ends result ∷ as_loop es
  as_loop (_ ∷ es) = as_loop es

  -- Neither opens nor closes.
  abbrev pub steady : List (SendEvent A) → Bool
  steady [] = true
  steady (sends msg ∷ es) = steady es
  steady (ends result ∷ es) = steady es
  steady (_ ∷ es) = false

  abbrev pub given : List (SendEvent A) → List A
  given [] = []
  given (sends msg ∷ es) = msg ∷ given es
  given (_ ∷ es) = given es

  given-as_loop : (es : List (SendEvent A)) → Order.sent (as_loop es) ≡ given es
  given-as_loop [] = refl
  given-as_loop (sends msg ∷ es) = ap (◌∷◌ msg) (given-as_loop es)
  given-as_loop (ends result ∷ es) = given-as_loop es
  given-as_loop (opens ∷ es) = given-as_loop es
  given-as_loop (closes ∷ es) = given-as_loop es

  aio_sent-step :
      (result : AioResult) (f : Option A) (o : SendLoop A)
      → o.in_flight ≡ f
      → aio_sent result f o ≡ SendLoop.step o (SendLoop.ends result)
  unfolding aio_sent SendLoop.step callback
  aio_sent-step result none o e = rw e refl
  aio_sent-step success (some msg) o e =
      sent_deq o.queue.busy o.queue.deq o.wire o.in_flight
      ∙ sym (ended success (some msg) msg o refl e)
  aio_sent-step result (some msg) o e = sym (ended result (some msg) msg o refl e)

  send_open :
      (b : Bool) (msg : A) (s : QueuedSend A)
      → b ≡ true
      → (send_if b msg s).1.is_open ≡ s.is_open
        × (send_if b msg s).1.out ≡ send_or_enqueue msg s.out
  unfolding send_if
  send_open true msg s o = (refl, refl)
  send_open false msg s o = cc

  sends-step : (msg : A) (o : SendLoop A) → SendLoop.step o (SendLoop.sends msg) ≡ send_msg msg o
  unfolding SendLoop.step
  sends-step msg o = refl

  steady-run :
      (s : QueuedSend A) (es : List (SendEvent A))
      → s.is_open ≡ true
      → steady es ≡ true
      → (run s es).out ≡ SendLoop.run s.out (as_loop es)
  unfolding run step SendLoop.run
  steady-run s [] o h = refl
  steady-run s (opens ∷ es) o h = cc
  steady-run s (closes ∷ es) o h = cc
  steady-run s (sends msg ∷ es) o h =
      let (taken, sent) = send_open s.is_open msg s o in
      let e = enqueued msg s.out.queue.busy s.out.queue.deq s.out.wire s.out.in_flight in
      steady-run (send_if s.is_open msg s).1 es (taken ∙ o) h
      ∙ ap (λ l. SendLoop.run l (as_loop es)) (sent ∙ e ∙ sym (sends-step msg s.out))
  steady-run s (ends result ∷ es) o h =
      steady-run (record s { out = aio_sent result s.out.in_flight s.out }) es o h
      ∙ ap (λ l. SendLoop.run l (as_loop es)) (aio_sent-step result s.out.in_flight s.out refl)

  -- A QueuedSend_ that is opened once, and not closed: whatever is sent and whatever sends end, failed
  -- ones included, what was given to the transport and then what is queued is all that was sent, in the
  -- order of the calls.
  pub queued_send-order :
      (es : List (SendEvent A))
      → steady es ≡ true
      → let out = (run unopened (opens ∷ es)).out in out.wire ++ out.queue.deq ≡ given es
  unfolding run step open_if
  queued_send-order es h =
      ap Order.accepted (steady-run (record unopened { is_open = true }) es refl h)
      ∙ Order.wire-deq-sent (as_loop es)
      ∙ given-as_loop es

  -- Busy, with nothing pending.
  pub record Stuck (s : QueuedSend A) : Type ℓ where
    pub nothing : s.out.in_flight ≡ none
    pub busy : s.out.queue.busy ≡ true

  enqueued_busy :
      (msg : A) (busy : Bool) (deq wire : List A) (f : Option A)
      → busy ≡ true
      → let o : SendLoop A = record {
        queue = record { deq = deq; busy = busy };
        in_flight = f;
        wire = wire;
      } in
        let o' = send_or_enqueue msg o in o'.in_flight ≡ f × o'.queue.busy ≡ true × o'.wire ≡ wire
  unfolding send_or_enqueue produce
  enqueued_busy msg true deq wire f b = (refl, refl, refl)
  enqueued_busy msg false deq wire f b = cc

  aio_sent-none :
      (result : AioResult) (f : Option A) (o : SendLoop A) → f ≡ none → aio_sent result f o ≡ o
  unfolding aio_sent
  aio_sent-none result f o e = rw e refl

  send-Stuck :
      (b : Bool) (msg : A) (s : QueuedSend A)
      → Stuck s
      → Stuck (send_if b msg s).1 × (send_if b msg s).1.out.wire ≡ s.out.wire
  unfolding send_if send_or_enqueue produce
  send-Stuck false msg s k = (k, refl)
  send-Stuck true msg s k =
      let o = s.out in
      let (same, busy, wire) =
        enqueued_busy msg o.queue.busy o.queue.deq o.wire o.in_flight k.busy in
      (record { nothing = same ∙ k.nothing; busy = busy }, wire)

  step-Stuck :
      (s : QueuedSend A) (e : SendEvent A)
      → Stuck s
      → Stuck (step s e) × (step s e).out.wire ≡ s.out.wire
  unfolding step open_if close clear
  step-Stuck s opens k =
      elim s.is_open as (λ b. Stuck (open_if b s) × (open_if b s).out.wire ≡ s.out.wire) [
        | true ↦ (record { nothing = refl; busy = k.busy }, refl)
        | false ↦ (record { nothing = k.nothing; busy = k.busy }, refl)
      ]
  step-Stuck s closes k = (record { nothing = refl; busy = k.busy }, refl)
  step-Stuck s (sends msg) k = send-Stuck s.is_open msg s k
  step-Stuck s (ends result) k =
      let e = aio_sent-none result s.out.in_flight s.out k.nothing in
      (
        record {
          nothing = ap (λ o. o.in_flight) e ∙ k.nothing;
          busy = ap (λ o. o.queue.busy) e ∙ k.busy;
        },
        ap (λ o. o.wire) e,
      )

  run-Stuck :
      (s : QueuedSend A) (es : List (SendEvent A)) → Stuck s → (run s es).out.wire ≡ s.out.wire
  unfolding run
  run-Stuck s [] k = refl
  run-Stuck s (e ∷ es) k = let (k', same) = step-Stuck s e k in run-Stuck (step s e) es k' ∙ same

  -- A QueuedSend_ that is closed while its queue is busy, as it is whenever a send is pending: nothing
  -- that is sent later reaches the transport, however often it is opened again.
  pub reopened-stalls :
      (s : QueuedSend A) (es : List (SendEvent A))
      → s.out.queue.busy ≡ true
      → (run s (closes ∷ opens ∷ es)).out.wire ≡ s.out.wire
  unfolding run step close clear
  reopened-stalls s es b = run-Stuck (close s) (opens ∷ es) (record { nothing = refl; busy = b })
