-- ===== src/RecvLoop/Bracket.antt =====
-- The order of the calls that a loop makes on its handlers.
use telling.RecvLoop.{
  RecvLoop, new, Effect, async_start, async_recv, async_error, async_stop, Ended, received, fails,
  callback, notify, recv_stop, aio_stop, recv_start, start_with, begin,
}
use telling.SendLoop.{success, timedout, canceled, other}
use telling.Prelude.{
  ℕ, Bool, true, false, Option, none, some, List, [], ◌∷◌, ◌++◌, ◌≡◌, refl, ◌∙◌, ap, arith, ◌==◌,
  if◌then◌else◌,
}

-- What a handler has been told: nothing, that the loop started, or that it stopped.
pub data Phase : Type 0 where
  untold : Phase
  running halted : ℕ → Phase

-- What may happen to a loop.
pub data Event {ℓ} (A : Type ℓ) : Type ℓ where
  starts_with : (alive new_alive throws : Bool) → ℕ → Event A
  ends : Bool → Ended A → Event A
  stops : Bool → Event A

abbrev pub then_told : (Phase → Option Phase) → Option Phase → Option Phase
then_told rest none = none
then_told rest (some phase) = rest phase

-- What a loop has told its handlers fits its state.
abbrev pub FitsParts : Option ℕ → Bool → Phase → Type 0
FitsParts none b untold = b ≡ false
FitsParts none b (running h) = ⊥
FitsParts none b (halted h) = ⊥
FitsParts (some g) b untold = ⊥
FitsParts (some g) b (running h) = g ≡ h
FitsParts (some g) b (halted h) = (g ≡ h) × (b ≡ false)

abbrev pub Fits : RecvLoop → Phase → Type 0
Fits s phase = FitsParts s.handler s.receiving phase

module _ {ℓ} {A : Type ℓ} where
  unfoldable pub step : Event A → RecvLoop → RecvLoop × List (Effect A)
  unfolding recv_start callback recv_stop
  step (starts_with alive new_alive throws h) s =
      let (outcome, s', effects) = recv_start alive new_alive throws h s in (s', effects)
  step (ends alive ended) s = if s.receiving then callback alive ended s else (s, [])
  step (stops alive) s = recv_stop alive s

  unfoldable pub run : List (Event A) → RecvLoop → RecvLoop × List (Effect A)
  unfolding step
  run [] s = (s, [])
  run (e ∷ events) s =
      let (s', effects) = step e s in let (end, later) = run events s' in (end, effects ++ later)

  -- A message or an error is for the handler that was told last that the loop started.
  abbrev pub told : Effect A → Phase → Option Phase
  told (async_start h) phase = some (running h)
  told (async_recv h msg) (running g) = if h == g then some (running g) else none
  told (async_recv h msg) untold = none
  told (async_recv h msg) (halted g) = none
  told (async_error h r) (running g) = if h == g then some (running g) else none
  told (async_error h r) untold = none
  told (async_error h r) (halted g) = none
  told (async_stop h r) (running g) = if h == g then some (halted g) else none
  told (async_stop h r) (halted g) = if h == g then some (halted g) else none
  told (async_stop h r) untold = none

  unfoldable pub told_all : List (Effect A) → Phase → Option Phase
  told_all [] phase = some phase
  told_all (e ∷ effects) phase = then_told (told_all effects) (told e phase)

  abbrev Told : Phase → RecvLoop × List (Effect A) → Type 0
  Told phase r = (phase' : Phase) × (told_all r.1 phase ≡ some phase') × Fits r.0 phase'

  notify-Told :
      (g h : ℕ) (ended : Ended A) (s : RecvLoop)
      → s.handler ≡ some g
      → g ≡ h
      → Told (running h) (notify (some g) ended s)
  unfolding notify told_all
  notify-Told g h (received msg) s e same = (running h, ground arith, rw e same)
  notify-Told g h (fails timedout) s e same = (running h, ground arith, rw e same)
  notify-Told g h (fails success) s e same = (halted h, ground arith, rw e (same, refl))
  notify-Told g h (fails canceled) s e same = (halted h, ground arith, rw e (same, refl))
  notify-Told g h (fails other) s e same = (halted h, ground arith, rw e (same, refl))

  callback-Told :
      (alive : Bool) (g h : ℕ) (ended : Ended A)
      → g ≡ h
      → Told (running h) (callback alive ended (record { handler = some g; receiving = true }))
  unfolding callback notify told_all
  callback-Told false g h ended same = (running h, refl, same)
  callback-Told true g h ended same =
      notify-Told g h ended (record { handler = some g; receiving = true }) refl same

  ends-Told :
      (alive : Bool) (ended : Ended A) (x : Option ℕ) (b : Bool) (phase : Phase)
      → FitsParts x b phase
      → Told phase (step (ends alive ended) (record { handler = x; receiving = b }))
  unfolding step told_all
  ends-Told alive ended x false phase f = (phase, refl, f)
  ends-Told alive ended none true untold f = cc
  ends-Told alive ended (some g) true (running h) f = callback-Told alive g h ended f
  ends-Told alive ended (some g) true (halted h) (e, f) = cc
  ends-Told alive ended none true (running h) f = absurd f
  ends-Told alive ended none true (halted h) f = absurd f
  ends-Told alive ended (some g) true untold f = absurd f

  step-Told :
      (e : Event A) (x : Option ℕ) (b : Bool) (phase : Phase)
      → FitsParts x b phase
      → Told phase (step e (record { handler = x; receiving = b }))
  unfolding step recv_start start_with begin recv_stop aio_stop callback notify told_all
  step-Told (ends alive ended) x b phase f = ends-Told alive ended x b phase f
  step-Told (starts_with true n t k) (some g) b phase f = (phase, refl, f)
  step-Told (starts_with false false t k) x b phase f = (phase, refl, f)
  step-Told (starts_with false true true k) x b phase f = (running k, refl, refl)
  step-Told (starts_with false true false k) x b phase f = (running k, refl, refl)
  step-Told (starts_with true false t k) none b phase f = (phase, refl, f)
  step-Told (starts_with true true true k) none b phase f = (running k, refl, refl)
  step-Told (starts_with true true false k) none b phase f = (running k, refl, refl)
  step-Told (stops true) none true untold f = cc
  step-Told (stops true) none true (running h) f = absurd f
  step-Told (stops true) none true (halted h) f = absurd f
  step-Told (stops true) none false phase f = (phase, refl, f)
  step-Told (stops true) (some g) b untold f = absurd f
  step-Told (stops true) (some g) true (running h) f = (halted h, ground arith, (f, refl))
  step-Told (stops true) (some g) false (running h) f = (halted h, ground arith, (f, refl))
  step-Told (stops true) (some g) true (halted h) (f, e) = cc
  step-Told (stops true) (some g) false (halted h) (f, e) = (halted h, ground arith, (f, refl))
  step-Told (stops false) none true untold f = cc
  step-Told (stops false) none false untold f = (untold, refl, f)
  step-Told (stops false) none b (running h) f = absurd f
  step-Told (stops false) none b (halted h) f = absurd f
  step-Told (stops false) (some g) true (running h) f = (running h, refl, f)
  step-Told (stops false) (some g) b untold f = absurd f
  step-Told (stops false) (some g) false (running h) f = (running h, refl, f)
  step-Told (stops false) (some g) true (halted h) (f, e) = cc
  step-Told (stops false) (some g) false (halted h) f = (halted h, refl, f)

  then_told-append :
      (xs ys : List (Effect A)) (o : Option Phase)
      → ((p : Phase) → told_all (xs ++ ys) p ≡ then_told (told_all ys) (told_all xs p))
      → then_told (told_all (xs ++ ys)) o ≡ then_told (told_all ys) (then_told (told_all xs) o)
  then_told-append xs ys none ih = refl
  then_told-append xs ys (some p) ih = ih p

  told_all-append :
      (xs ys : List (Effect A)) (phase : Phase)
      → told_all (xs ++ ys) phase ≡ then_told (told_all ys) (told_all xs phase)
  unfolding told_all
  told_all-append [] ys phase = refl
  told_all-append (x ∷ xs) ys phase = then_told-append xs ys (told x phase) (told_all-append xs ys)

  run-Told :
      (events : List (Event A)) (s : RecvLoop) (phase : Phase)
      → Fits s phase
      → Told phase (run events s)
  unfolding run told_all
  run-Told [] s phase f = (phase, refl, f)
  run-Told (e ∷ events) s phase f =
      let (phase', first, f') = step-Told e s.handler s.receiving phase f in
      let (phase'', later, f'') = run-Told events (step e s).0 phase' f' in
      (
        phase'',
        told_all-append (step e s).1 (run events (step e s).0).1 phase
            ∙ ap (then_told (told_all (run events (step e s).0).1)) first
            ∙ later,
        f'',
      )

  -- Whatever happens to a new loop and its handlers, a message or an error is only ever given to the
  -- handler that the loop last told that it started, and only before that handler is told that it
  -- stopped.
  pub run-bracketed :
      (events : List (Event A))
      → (phase : Phase) × (told_all (run events new).1 untold ≡ some phase)
  run-bracketed events = let (phase, e, f) = run-Told events new untold refl in (phase, e)
