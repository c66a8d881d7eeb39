-- ===== src/RecvLoop/Delivery.antt =====
-- A loop with a handler that stays alive: what is delivered, and how often it is told to stop.
use telling.Queue.{RecvQueue, push}
use telling.RecvLoop.{
  RecvLoop, new, Effect, async_start, async_recv, async_error, async_stop, Ended, received, fails,
  callback, notify, recv_stop, aio_stop, recv_start, start_with, begin, queue_effect,
}
use telling.SendLoop.{success, timedout, canceled, other}
use telling.Prelude.{
  ℕ, suc, ◌+◌, Bool, true, false, some, List, [], ◌∷◌, ◌++◌, ◌≡◌, refl, sym, ◌∙◌, ap, arith,
  append_assoc, append-nil, if◌then◌else◌,
}

abbrev pub at_rest : ℕ → RecvLoop
at_rest h = record { handler = some h; receiving = false }

abbrev pub at_work : ℕ → RecvLoop
at_work h = record { handler = some h; receiving = true }

add_up : (b : Bool) (m n : ℕ) → m ≡ (if b then 0 else 1) → n ≡ (if b then 2 else 1) → m + n ≡ 2
add_up true m n e f = omega arith
add_up false m n e f = omega arith

module _ {ℓ} {A : Type ℓ} where
  -- A receive ends only while one is pending.
  unfoldable pub end_receive : Ended A → RecvLoop → RecvLoop × List (Effect A)
  unfolding callback
  end_receive ended s = if s.receiving then callback true ended s else (s, [])

  unfoldable pub run_endings : List (Ended A) → RecvLoop → RecvLoop × List (Effect A)
  unfolding end_receive
  run_endings [] s = (s, [])
  run_endings (e ∷ endings) s =
      let (s', effects) = end_receive e s in
      let (end, later) = run_endings endings s' in (end, effects ++ later)

  unfoldable pub queue_all : List (Effect A) → RecvQueue A → RecvQueue A
  unfolding queue_effect
  queue_all [] q = q
  queue_all (e ∷ effects) q = queue_all effects (queue_effect e q)

  -- The messages before the first error that is no timeout, and whether there is none.
  abbrev pub before_error : List (Ended A) → List A
  before_error [] = []
  before_error (received msg ∷ endings) = msg ∷ before_error endings
  before_error (fails timedout ∷ endings) = before_error endings
  before_error (fails success ∷ endings) = []
  before_error (fails canceled ∷ endings) = []
  before_error (fails other ∷ endings) = []

  abbrev pub without_error : List (Ended A) → Bool
  without_error [] = true
  without_error (received msg ∷ endings) = without_error endings
  without_error (fails timedout ∷ endings) = without_error endings
  without_error (fails success ∷ endings) = false
  without_error (fails canceled ∷ endings) = false
  without_error (fails other ∷ endings) = false

  abbrev pub stops : List (Effect A) → ℕ
  stops [] = 0
  stops (async_start h ∷ effects) = stops effects
  stops (async_recv h msg ∷ effects) = stops effects
  stops (async_error h r ∷ effects) = stops effects
  stops (async_stop h r ∷ effects) = suc (stops effects)

  rests : (h : ℕ) (endings : List (Ended A)) → run_endings endings (at_rest h) ≡ (at_rest h, [])
  unfolding run_endings
  rests h [] = refl
  rests h (e ∷ endings) = rw (rests h endings) refl

  -- What the endings come to.
  abbrev Delivers : ℕ → List (Ended A) → Type ℓ
  Delivers h endings =
      let r = run_endings endings (at_work h) in
      ((q : RecvQueue A) → (queue_all r.1 q).deq ≡ q.deq ++ before_error endings)
      × (r.0 ≡ record { handler = some h; receiving = without_error endings })
      × (stops r.1 ≡ (if without_error endings then 0 else 1))

  delivers : (h : ℕ) (endings : List (Ended A)) → Delivers h endings
  unfolding run_endings queue_all notify
  delivers h [] = (λ q. sym (append-nil q.deq), refl, refl)
  delivers h (received msg ∷ endings) =
      let (ds, e, n) = delivers h endings in
      (λ q. ds (push msg q) ∙ append_assoc q.deq (msg ∷ []) (before_error endings), e, n)
  delivers h (fails timedout ∷ endings) = delivers h endings
  delivers h (fails success ∷ endings) =
      rw (rests h endings) (λ q. sym (append-nil q.deq), refl, refl)
  delivers h (fails canceled ∷ endings) =
      rw (rests h endings) (λ q. sym (append-nil q.deq), refl, refl)
  delivers h (fails other ∷ endings) =
      rw (rests h endings) (λ q. sym (append-nil q.deq), refl, refl)

  -- A loop that is started, receives and is stopped.
  abbrev pub session : ℕ → List (Ended A) → List (Effect A)
  session h endings =
      let (outcome, s, first) = recv_start true true false h new in
      let (s', effects) = run_endings endings s in
      let (s'', last) = recv_stop true s' in first ++ (effects ++ last)

  stops-append : (xs ys : List (Effect A)) → stops (xs ++ ys) ≡ stops xs + stops ys
  stops-append [] ys = omega arith
  stops-append (async_start h ∷ xs) ys = stops-append xs ys
  stops-append (async_recv h msg ∷ xs) ys = stops-append xs ys
  stops-append (async_error h r ∷ xs) ys = stops-append xs ys
  stops-append (async_stop h r ∷ xs) ys = omega (arith, stops-append xs ys)

last_stops {ℓ} :
    (A : Type ℓ) (h : ℕ) (b : Bool)
    → stops (recv_stop {A = A} true (record { handler = some h; receiving = b })).1
      ≡ (if b then 2 else 1)
unfolding recv_stop aio_stop callback notify
last_stops A h true = refl
last_stops A h false = refl

module _ {ℓ} {A : Type ℓ} where
  -- A loop whose handler stays alive gives the queue of an AsyncRecvQueue, in order, the messages that
  -- came before the first error other than a timeout, and no others. It goes on receiving exactly while
  -- there was no such error.
  pub run-delivers :
      (h : ℕ) (endings : List (Ended A)) (q : RecvQueue A)
      → let r = run_endings endings (at_work h) in
        ((queue_all r.1 q).deq ≡ q.deq ++ before_error endings)
        × (r.0.receiving ≡ without_error endings)
  run-delivers h endings q = let (ds, e, n) = delivers h endings in (ds q, ap (λ s. s.receiving) e)

  -- A handler that stays alive is told twice that its loop stopped, however the receives of the loop
  -- ended before it was stopped or destroyed.
  pub session-stops : (h : ℕ) (endings : List (Ended A)) → stops (session h endings) ≡ 2
  unfolding recv_start start_with begin
  session-stops h endings =
      let (ds, e, n) = delivers h endings in
      let r = run_endings endings (at_work h) in
      let last =
        ap (λ s. stops {A = A} (recv_stop true s).1) e ∙ last_stops A h (without_error endings) in
      stops-append r.1 (recv_stop true r.0).1
      ∙ add_up (without_error endings) (stops r.1) (stops (recv_stop true r.0).1) n last
