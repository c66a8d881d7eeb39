-- ===== src/SendLoop/Order.antt =====
-- No message is lost, made up or overtaken, and one send is pending at a time.
use telling.Prelude.{
  true, none, List, [], ◌∷◌, ◌++◌, ◌≡◌, ◌≢◌, refl, sym, ◌∙◌, ap, append_assoc, append-nil, arith,
}
use telling.SendLoop.{success, SendLoop, new_loop, Event, sends, ends, step, run}

module _ {ℓ} {A : Type ℓ} where
  -- The messages of the calls of `send_msg`.
  abbrev pub sent : List (Event A) → List A
  sent [] = []
  sent (sends msg ∷ es) = msg ∷ sent es
  sent (ends r ∷ es) = sent es

  abbrev pub accepted : SendLoop A → List A
  accepted s = s.wire ++ s.queue.deq

  abbrev pub sent_by : Event A → List A
  sent_by (sends msg) = msg ∷ []
  sent_by (ends r) = []

  -- Whatever is pending or queued, the queue is busy.
  pub record Inv (s : SendLoop A) : Type ℓ where
    pub pending : s.in_flight ≢ none → s.queue.busy ≡ true
    pub queued : s.queue.deq ≢ [] → s.queue.busy ≡ true

  pub step-Inv : (s : SendLoop A) (e : Event A) → Inv s → Inv (step s e)
  unfolding step
  step-Inv s (sends msg) v = ground arith
  step-Inv s (ends success) v = ground arith
  step-Inv s (ends _) v = ground arith

  pub run-Inv : (s : SendLoop A) (es : List (Event A)) → Inv s → Inv (run s es)
  unfolding run
  run-Inv s [] v = v
  run-Inv s (e ∷ es) v = run-Inv (step s e) es (step-Inv s e v)

  pub new-Inv : Inv new_loop
  new-Inv = record { pending = λ ne. elim (ne refl) [ ]; queued = λ ne. elim (ne refl) [ ] }

  sent-cons : (e : Event A) (es : List (Event A)) → sent_by e ++ sent es ≡ sent (e ∷ es)
  sent-cons (sends msg) es = refl
  sent-cons (ends r) es = refl

  step-accepted :
      (s : SendLoop A) (e : Event A) → Inv s → accepted (step s e) ≡ accepted s ++ sent_by e
  unfolding step
  step-accepted s (sends msg) v = grind (arith, append_assoc, append-nil)
  step-accepted s (ends success) v = grind (arith, append_assoc, append-nil)
  step-accepted s (ends _) v = grind (arith, append_assoc, append-nil)

  run-accepted :
      (s : SendLoop A) (es : List (Event A)) → Inv s → accepted (run s es) ≡ accepted s ++ sent es
  unfolding run
  run-accepted s [] v = sym (append-nil (accepted s))
  run-accepted s (e ∷ es) v =
      run-accepted (step s e) es (step-Inv s e v)
      ∙ ap (λ l. l ++ sent es) (step-accepted s e v)
      ∙ append_assoc (accepted s) (sent_by e) (sent es)
      ∙ ap (λ l. accepted s ++ l) (sent-cons e es)

  -- From a new loop, whatever calls of `send_msg` and ends of pending sends follow each other, failed
  -- ones included, the messages given to the transport and then those still queued are together all
  -- that was sent, in the order of the calls.
  pub wire-deq-sent : (es : List (Event A)) → accepted (run new_loop es) ≡ sent es
  wire-deq-sent es = run-accepted new_loop es new-Inv
