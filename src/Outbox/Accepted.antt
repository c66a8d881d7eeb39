-- ===== src/Outbox/Accepted.antt =====
-- What is accepted is what is sent, in order.
use telling.Outbox.{Outbox, box, Pushed, accepted, closed, push, end_send, call_socket}
use telling.Prelude.{List, [], ◌∷◌, ◌++◌, ◌≡◌, refl, sym, ◌∙◌, ap, inl, inr, Bool-cases}
use telling.SendLoop
use telling.SendLoop.{SendLoop, AioResult, new_loop}
use telling.SendLoop.Order.{sent, wire-deq-sent}
use telling.Socket.{Socket, is_ready}
use telling.Socket.Connectors

pub data Event {ℓ} (A : Type ℓ) : Type ℓ where
  pushes : A → Event A
  ends : AioResult → Event A
  calls : Connectors.Call → Event A

module _ {ℓ} {A : Type ℓ} where
  -- The message of a call that is accepted.
  abbrev pub if_accepted : Pushed → A → List A
  if_accepted accepted msg = msg ∷ []
  if_accepted closed msg = []

  -- The box after a step, and the messages that were accepted.
  unfoldable pub step : Event A → Outbox A → Outbox A × List A
  unfolding push end_send call_socket
  step (pushes msg) b = let (outcome, b') = push msg b in (b', if_accepted outcome msg)
  step (ends result) b = (end_send result b, [])
  step (calls call) b = (call_socket call b, [])

  unfoldable pub run : List (Event A) → Outbox A → Outbox A × List A
  unfolding step
  run [] b = (b, [])
  run (e ∷ events) b =
      let (b', taken) = step e b in let (end, later) = run events b' in (end, taken ++ later)

  -- The events of the loop.
  Follows : List (Event A) → Outbox A → Type ℓ
  Follows events b =
      (es : List (SendLoop.Event A)) × ((run events b).0.loop ≡ SendLoop.run b.loop es)
      × ((run events b).1 ≡ sent es)

  run-Follows : (events : List (Event A)) (b : Outbox A) → Follows events b
  unfolding Follows run push end_send call_socket SendLoop.run SendLoop.step
  run-Follows [] b = ([], refl, refl)
  run-Follows (pushes msg ∷ events) b = elim (Bool-cases (is_ready b.socket)) [
    | inl e ↦
        let (es, same, out) =
          run-Follows events (record b { loop = SendLoop.send_msg msg b.loop }) in
        (SendLoop.sends msg ∷ es, rw e same, rw e (ap (◌∷◌ msg) out))
    | inr e ↦ let (es, same, out) = run-Follows events b in (es, rw e same, rw e out)
  ]
  run-Follows (ends result ∷ events) b =
      let (es, same, out) = run-Follows events (end_send result b) in
      (SendLoop.ends result ∷ es, same, out)
  run-Follows (calls call ∷ events) b = run-Follows events (call_socket call b)

  -- Whatever is called on the socket of a Push_Box or Publish_Box, and however its sends end: the messages
  -- that were given to the transport, followed by those that wait in the queue, are the messages that
  -- push or publish accepted, in their order.
  pub run-accepted :
      (events : List (Event A)) (socket : Socket)
      → let r = run events (box socket) in r.0.loop.wire ++ r.0.loop.queue.deq ≡ r.1
  unfolding Follows
  run-accepted events socket =
      let (es, same, out) = run-Follows events (box socket) in
      ap (λ l. l.wire ++ l.queue.deq) same ∙ (wire-deq-sent es ∙ sym out)
