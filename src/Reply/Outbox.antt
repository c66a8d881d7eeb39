-- ===== src/Reply/Outbox.antt =====
-- The outbox of a Reply runs as a send loop does.
use telling.Prelude.{
  ℕ, Bool, true, false, Option, none, some, List, [], ◌∷◌, ◌++◌, Bytes, ◌≡◌, ◌≢◌, refl, sym, ap,
  ◌∙◌, subst,
}
use telling.QueuedIo.Sending.{enqueued, sent_deq, ended}
use telling.QueuedIo.{send_or_enqueue}
use telling.Reply.{
  Reply, member, claim, respond_prepped, aio_sent, receive_next, new_reply, respond_to, respond_tag,
  receive_query, aio_received, Event, receives, responds, sends, step, run,
}
use telling.SendLoop.Order
use telling.SendLoop.Stall.{stalled-run}
use telling.SendLoop.{
  AioResult, success, timedout, canceled, other, SendLoop, new_loop, async_prep, async_sent,
  transmit, transmit_if, send_msg, callback,
}
use telling.SendLoop

-- Loops over the responses, and how one comes from another by events of a send loop.
abbrev Loop : Type 0
Loop = SendLoop (ℕ × Bytes)

pub record Runs (o o' : Loop) : Type 0 where
  pub events : List (SendLoop.Event (ℕ × Bytes))
  pub is_run : o' ≡ SendLoop.run o events

stays : (o : Loop) → Runs o o
unfolding SendLoop.run
stays o = record { events = []; is_run = refl }

run-append :
    (o : Loop) (xs ys : List (SendLoop.Event (ℕ × Bytes)))
    → SendLoop.run o (xs ++ ys) ≡ SendLoop.run (SendLoop.run o xs) ys
unfolding SendLoop.run
run-append o [] ys = refl
run-append o (x ∷ xs) ys = run-append (SendLoop.step o x) xs ys

then_runs : (o o' o'' : Loop) → Runs o o' → Runs o' o'' → Runs o o''
then_runs o o' o'' r s = record {
  events = r.events ++ s.events;
  is_run =
      s.is_run ∙ ap (λ x. SendLoop.run x s.events) r.is_run ∙ sym (run-append o r.events s.events);
}

send_or_enqueue-Runs : (item : ℕ × Bytes) (o : Loop) → Runs o (send_or_enqueue item o)
unfolding SendLoop.run SendLoop.step
send_or_enqueue-Runs item o = record {
  events = SendLoop.sends item ∷ [];
  is_run = enqueued item o.queue.busy o.queue.deq o.wire o.in_flight;
}

aio_sent-Runs :
    (result : AioResult) (f : Option (ℕ × Bytes)) (s : Reply)
    → s.out.in_flight ≡ f
    → Runs s.out (aio_sent result f s).1.out
unfolding SendLoop.run aio_sent callback
aio_sent-Runs result none s e = stays s.out
aio_sent-Runs success (some (q, msg)) s e = record {
  events = SendLoop.ends success ∷ [];
  is_run =
      sent_deq s.out.queue.busy s.out.queue.deq s.out.wire s.out.in_flight
      ∙ sym (ended success (some (q, msg)) (q, msg) s.out refl e);
}
aio_sent-Runs result (some (q, msg)) s e = record {
  events = SendLoop.ends result ∷ [];
  is_run = sym (ended result (some (q, msg)) (q, msg) s.out refl e);
}

claim-Runs : (b : Bool) (q : ℕ) (msg : Bytes) (s : Reply) → Runs s.out (claim b q msg s).1.out
unfolding claim
claim-Runs true q msg s = send_or_enqueue-Runs (q, msg) s.out
claim-Runs false q msg s = stays s.out

prepped-Runs : (o : Option Bytes) (q : ℕ) (s : Reply) → Runs s.out (respond_prepped o q s).1.out
unfolding respond_prepped
prepped-Runs none q s = stays s.out
prepped-Runs (some msg) q s = claim-Runs (member q s.unresponded) q msg s

module _ (ctx_id : ℕ → ℕ) (prep : ℕ → Bytes → Option Bytes)
    (answer : ℕ → Bytes → Option Bytes) where
  respond_to-Runs :
      (ready has_handler : Bool) (q : ℕ) (msg : Bytes) (s : Reply)
      → Runs s.out (respond_to ctx_id prep answer ready has_handler q msg s).2.out
  unfolding respond_to
  respond_to-Runs false has_handler q msg s = stays s.out
  respond_to-Runs true false q msg s = stays s.out
  respond_to-Runs true true q msg s = prepped-Runs (prep q msg) q s

  respond_tag-Runs :
      (o : Option Bytes) (q : ℕ) (s : Reply)
      → Runs s.out (respond_tag ctx_id prep answer o q s).1.out
  unfolding respond_tag
  respond_tag-Runs none q s = stays s.out
  respond_tag-Runs (some msg) q s = respond_to-Runs true true q msg s

  aio_received-Runs :
      (has_handler : Bool) (result : AioResult) (query : Bytes) (o : Option ℕ) (s : Reply)
      → Runs s.out (aio_received ctx_id prep answer has_handler result query o s).1.out
  unfolding aio_received receive_query receive_next
  aio_received-Runs has_handler result query none s = stays s.out
  aio_received-Runs false result query (some q) s = stays s.out
  aio_received-Runs true success query (some q) s = respond_tag-Runs (answer q query) q _
  aio_received-Runs true _ query (some q) s = stays s.out

  step-Runs : (s : Reply) (e : Event) → Runs s.out (step ctx_id prep answer s e).1.out
  unfolding step
  step-Runs s (receives has_handler result query) =
      aio_received-Runs has_handler result query s.receiving s
  step-Runs s (responds ready has_handler q msg) = respond_to-Runs ready has_handler q msg s
  step-Runs s (sends result) = aio_sent-Runs result s.out.in_flight s refl

  run-Runs : (s : Reply) (es : List Event) → Runs s.out (run ctx_id prep answer s es).1.out
  unfolding run
  run-Runs s [] = stays s.out
  run-Runs s (e ∷ es) =
      let s' = (step ctx_id prep answer s e).1 in
      then_runs s.out s'.out (run ctx_id prep answer s' es).1.out (step-Runs s e) (run-Runs s' es)

  failed_out :
      (result : AioResult) (f : Option (ℕ × Bytes)) (s : Reply)
      → result ≢ success
      → f ≢ none
      → (aio_sent result f s).1.out ≡ record s.out { in_flight = none }
  unfolding aio_sent
  failed_out result none s r p = elim (p refl) [ ]
  failed_out success (some (q, msg)) s r p = elim (r refl) [ ]
  failed_out _ (some (q, msg)) s r p = refl

  new_Runs :
      (es : List Event)
      → let s = (run ctx_id prep answer (new_reply ctx_id prep answer) es).1 in Runs new_loop s.out
  unfolding new_reply receive_next
  new_Runs es = run-Runs (new_reply ctx_id prep answer) es

  -- Whatever queries arrived and responses were given before: if a send of a response is pending and
  -- fails, a timeout included, no response is given to the transport afterwards, whatever queries
  -- arrive, responses are given and operations end.
  pub failed_response-stalls :
      (es later : List Event) (result : AioResult)
      → let s = (run ctx_id prep answer (new_reply ctx_id prep answer) es).1 in
        result ≢ success
        → s.out.in_flight ≢ none
        → (run ctx_id prep answer s (sends result ∷ later)).1.out.wire ≡ s.out.wire
  unfolding run step
  failed_response-stalls es later result r p =
      let s = (run ctx_id prep answer (new_reply ctx_id prep answer) es).1 in
      let s' = (aio_sent result s.out.in_flight s).1 in
      let before = new_Runs es in
      let v =
        subst Order.Inv (sym before.is_run) (Order.run-Inv new_loop before.events Order.new-Inv) in
      let after = run-Runs s' later in
      let failed = failed_out result s.out.in_flight s r p in
      ap (λ o. o.wire) after.is_run
      ∙ stalled-run s'.out after.events (ap (λ o. o.in_flight) failed)
          (ap (λ o. o.queue.busy) failed ∙ v.pending p)
      ∙ ap (λ o. o.wire) failed
