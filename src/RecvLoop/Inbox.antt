-- ===== src/RecvLoop/Inbox.antt =====
-- Subscribe_Box of include/telling/client_subscribe.h and Pull_Box of include/telling/service_pull.h: a
-- receive loop whose handler is the box's own AsyncRecvQueue.
use telling.Queue.{RecvQueue, empty_recv, push, pull}
use telling.RecvLoop.Delivery.{end_receive, queue_all, before_error, at_rest, at_work}
use telling.RecvLoop.{
  RecvLoop, new, Ended, received, fails, callback, notify, recv_start, start_with, begin,
  queue_effect,
}
use telling.SendLoop.{success, timedout, canceled, other}
use telling.Prelude.{
  ℕ, true, false, Option, none, some, List, [], ◌∷◌, ◌++◌, ◌≡◌, refl, sym, ◌∙◌, ap, append_assoc,
  append-nil,
}

pub record Inbox {ℓ} (A : Type ℓ) : Type ℓ where
  pub loop : RecvLoop
  pub queue : RecvQueue A

-- The end of a receive, if one is pending, or a call of consume or pull.
pub data Event {ℓ} (A : Type ℓ) : Type ℓ where
  ends : Ended A → Event A
  consumes : Event A

module _ {ℓ} {A : Type ℓ} where
  -- `_init`: the handler of a box is alive, and its async_start does nothing.
  unfoldable pub init : ℕ → Inbox A
  unfolding recv_start start_with begin queue_all queue_effect
  init h =
      let (outcome, loop, effects) = recv_start true true false h new in
      record { loop = loop; queue = queue_all effects empty_recv }

  -- What a call hands out.
  abbrev pub handed : Option A → List A
  handed none = []
  handed (some msg) = msg ∷ []

  -- `consume` and `pull`
  unfoldable pub consume : Inbox A → Option A × Inbox A
  unfolding pull
  consume b = let (msg, queue) = pull b.queue in (msg, record b { queue = queue })

  unfoldable pub receive_end : Ended A → Inbox A → Inbox A
  unfolding end_receive queue_all queue_effect
  receive_end ended b =
      let (loop, effects) = end_receive ended b.loop in
      record { loop = loop; queue = queue_all effects b.queue }

  -- A step with what it hands out.
  unfoldable pub step : Event A → Inbox A → Inbox A × List A
  unfolding consume receive_end
  step (ends ended) b = (receive_end ended b, [])
  step consumes b = let (msg, b') = consume b in (b', handed msg)

  unfoldable pub run : List (Event A) → Inbox A → Inbox A × List A
  unfolding step
  run [] b = (b, [])
  run (e ∷ events) b =
      let (b', out) = step e b in let (end, later) = run events b' in (end, out ++ later)

  -- How the receives end.
  abbrev pub endings : List (Event A) → List (Ended A)
  endings [] = []
  endings (ends ended ∷ events) = ended ∷ endings events
  endings (consumes ∷ events) = endings events

  abbrev Hands : List (Event A) → Inbox A → List A → Type ℓ
  Hands events b all = let r = run events b in r.1 ++ r.0.queue.deq ≡ all

  abbrev inbox : RecvLoop → List A → Inbox A
  inbox loop deq = record { loop = loop; queue = record { deq = deq } }

  run-rest :
      (h : ℕ) (events : List (Event A)) (deq : List A) → Hands events (inbox (at_rest h) deq) deq
  unfolding run step consume pull receive_end end_receive queue_all
  run-rest h [] deq = refl
  run-rest h (ends ended ∷ events) deq = run-rest h events deq
  run-rest h (consumes ∷ events) [] = run-rest h events []
  run-rest h (consumes ∷ events) (msg ∷ deq) = ap (◌∷◌ msg) (run-rest h events deq)

  run-work :
      (h : ℕ) (events : List (Event A)) (deq : List A)
      → Hands events (inbox (at_work h) deq) (deq ++ before_error (endings events))
  unfolding run step consume pull receive_end end_receive queue_all queue_effect callback notify
      push
  run-work h [] deq = sym (append-nil deq)
  run-work h (ends (received msg) ∷ events) deq =
      run-work h events (deq ++ msg ∷ [])
      ∙ append_assoc deq (msg ∷ []) (before_error (endings events))
  run-work h (ends (fails timedout) ∷ events) deq = run-work h events deq
  run-work h (ends (fails success) ∷ events) deq = run-rest h events deq ∙ sym (append-nil deq)
  run-work h (ends (fails canceled) ∷ events) deq = run-rest h events deq ∙ sym (append-nil deq)
  run-work h (ends (fails other) ∷ events) deq = run-rest h events deq ∙ sym (append-nil deq)
  run-work h (consumes ∷ events) [] = run-work h events []
  run-work h (consumes ∷ events) (msg ∷ deq) = ap (◌∷◌ msg) (run-work h events deq)

  -- However the calls of consume, or pull, fall between the ends of the receives of a new Subscribe_Box or
  -- Pull_Box: what the calls handed out, followed by what waits in the queue, are the messages received
  -- before the first error other than a timeout, in their order.
  pub run-hands_out :
      (h : ℕ) (events : List (Event A))
      → let r = run events (init h) in r.1 ++ r.0.queue.deq ≡ before_error (endings events)
  unfolding init recv_start start_with begin queue_all queue_effect
  run-hands_out h events = run-work h events []
