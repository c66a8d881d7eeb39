-- ===== src/SendLoop/Stall.antt =====
-- A send that fails leaves the queue busy with nothing pending, so the loop sends no more.
use telling.Prelude.{true, none, List, [], ◌∷◌, ◌≡◌, ◌≢◌, refl, ◌∙◌, arith}
use telling.SendLoop.{AioResult, success, SendLoop, Event, sends, ends, step, run}
use telling.SendLoop.Order.{Inv}

module _ {ℓ} {A : Type ℓ} where
  stalled-step :
      (s : SendLoop A) (e : Event A)
      → s.in_flight ≡ none
      → s.queue.busy ≡ true
      → (step s e).in_flight ≡ none × (step s e).queue.busy ≡ true × (step s e).wire ≡ s.wire
  unfolding step
  stalled-step s (sends msg) nothing busy = ground arith
  stalled-step s (ends r) nothing busy = ground arith

  pub stalled-run :
      (s : SendLoop A) (es : List (Event A))
      → s.in_flight ≡ none
      → s.queue.busy ≡ true
      → (run s es).wire ≡ s.wire
  unfolding run
  stalled-run s [] nothing busy = refl
  stalled-run s (e ∷ es) nothing busy =
      let (nothing', busy', wire) = stalled-step s e nothing busy in
      stalled-run (step s e) es nothing' busy' ∙ wire

  pub failed-step :
      (s : SendLoop A) (r : AioResult)
      → r ≢ success
      → Inv s
      → s.in_flight ≢ none
      → (step s (ends r)).in_flight ≡ none
        × (step s (ends r)).queue.busy ≡ true
        × (step s (ends r)).wire ≡ s.wire
  unfolding step
  failed-step s success failed v p = elim (failed refl) [ ]
  failed-step s _ failed v p = ground arith

  -- Once a pending send has ended with an error, a timeout included, nothing that is sent later
  -- reaches the transport: the invariant of the loop holds before, and any events may follow.
  pub failed_end-stalls :
      (s : SendLoop A) (r : AioResult) (es : List (Event A))
      → r ≢ success
      → Inv s
      → s.in_flight ≢ none
      → (run (step s (ends r)) es).wire ≡ s.wire
  failed_end-stalls s r es failed v p =
      let (nothing, busy, wire) = failed-step s r failed v p in
      stalled-run (step s (ends r)) es nothing busy ∙ wire
