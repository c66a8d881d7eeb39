-- ===== src/Services/Reachable.antt =====
-- The registry under any sequence of registrations, disconnections and management rounds.
use telling.Prelude.{
  ℕ, Bool, false, Option, none, some, List, [], ◌∷◌, Bytes, ◌≡◌, refl, subst, arith,
}
use telling.Services.Events.{Inv, new_services-Inv, answer-Inv, disconnect-Inv, manage-Inv}
use telling.Services.Live.{is_live, is_some}
use telling.Services.{
  PrefixMap, MapLaws, Route, NewRoute, Services, new_services, async_recv, pipe_event, manage,
}

-- A message of a query on a pipe, the end of a pipe, and a round of the management thread with the
-- outcomes of dialing.
pub data Event : Type 0 where
  receives : ℕ → ℕ → Bytes → Event
  disconnects : ℕ → Event
  manages : (NewRoute → Bool) → Event

module _ (m : PrefixMap Route) where
  abbrev pub step : Services m → Event → Option (Services m)
  step s (receives query pipe msg) = some (async_recv m query pipe msg s)
  step s (disconnects pipe) = pipe_event m pipe s
  step s (manages dials) = some (manage m dials s)

  abbrev pub then_run :
      (Services m → Option (Services m)) → Option (Services m) → Option (Services m)
  then_run rest none = none
  then_run rest (some s) = rest s

  -- The state after the events, `none` where one of them is undefined.
  unfoldable pub run : List Event → Services m → Option (Services m)
  run [] s = some s
  run (e ∷ es) s = then_run (run es) (step s e)

module _ (m : PrefixMap Route) (laws : MapLaws m) where
  step-Inv : (s s' : Services m) (e : Event) → Inv m laws s → step m s e ≡ some s' → Inv m laws s'
  unfolding async_recv pipe_event
  step-Inv s s' (receives query pipe msg) v e =
      let same : async_recv m query pipe msg s ≡ s' = ground arith in
      subst (Inv m laws) same (answer-Inv m laws query pipe _ s v)
  step-Inv s s' (disconnects pipe) v e = disconnect-Inv m laws pipe _ s s' v e
  step-Inv s s' (manages dials) v e =
      let same : manage m dials s ≡ s' = ground arith in
      subst (Inv m laws) same (manage-Inv m laws dials s v).0

  then_run-Inv :
      (rest : Services m → Option (Services m)) (x : Option (Services m)) (s' : Services m)
      → ((s₁ : Services m) → x ≡ some s₁ → rest s₁ ≡ some s' → Inv m laws s')
      → then_run m rest x ≡ some s'
      → Inv m laws s'
  then_run-Inv rest none s' h e = ground arith
  then_run-Inv rest (some s₁) s' h e = h s₁ refl e

  run-Inv :
      (es : List Event) (s s' : Services m) → Inv m laws s → run m es s ≡ some s' → Inv m laws s'
  unfolding run
  run-Inv [] s s' v e = let same : s ≡ s' = ground arith in subst (Inv m laws) same v
  run-Inv (ev ∷ es) s s' v e =
      then_run-Inv (run m es) (step m s ev) s'
        (λ s₁ made rest. run-Inv es s₁ s' (step-Inv s s₁ ev v made) rest) e

  -- With a prefix map that keeps its laws, from the start, through any registrations,
  -- disconnections and management rounds, whatever cannot be dialed, as long as no pipe ends that is
  -- not registered, which is undefined: after a management round, the paths that are live by their
  -- last report are those that have a route in the table.
  pub managed-is_live :
      (es : List Event) (s : Services m) (dials : NewRoute → Bool) (k : Bytes)
      → run m es (new_services m) ≡ some s
      → is_live k (manage m dials s).published false ≡ is_some (m.find k (manage m dials s).map)
  managed-is_live es s dials k e =
      let (v, closed) =
        manage-Inv m laws dials s (run-Inv es (new_services m) s (new_services-Inv m laws) e) in
      let said = v.reported k in ground arith
