-- ===== src/Registration/Refusal.antt =====
-- A registration that the registry's management thread refuses, and the end of its pipe.
use telling.MsgError.{ok}
use telling.Prelude.{
  ℕ, Bool, true, false, not, ◌||◌, Option, none, some, List, [], ◌∷◌, ◌++◌, Bytes, ◌≡◌, refl, ap,
  ◌∙◌, arith,
}
use telling.Registration.Opening.{registration-asks}
use telling.Registration.{alias_or_path, registration_request}
use telling.Services.Live.{is_some}
use telling.Services.Reachable.{Event, receives, disconnects, manages, run, then_run}
use telling.Services.{
  PrefixMap, Route, NewRoute, Registrations, Services, registered, unregister, in_proc, respond_to,
  publish, async_recv, disconnect, pipe_event, open_new, open_route, open_all, close_route,
  close_all, manage,
}
use telling.Writer.{MsgWriter, contains_newline}

registered-unregister : (pipe : ℕ) (r : Registrations) → registered pipe (unregister pipe r) ≡ none
unfolding registered unregister
registered-unregister pipe [] = refl
registered-unregister pipe ((p, path) ∷ rest) =
    let ih = registered-unregister pipe rest in ground arith

module _ (m : PrefixMap Route) where
  -- The path has a route already, or its service cannot be dialed.
  abbrev pub is_refused : Bool → Option Route → Bool
  is_refused dialed x = is_some x || not dialed

  open_new-registered :
      (dialed : Bool) (spec : NewRoute) (x : Option Route) (s : Services m)
      → is_refused dialed x ≡ true
      → registered spec.pipe_id (open_new m dialed spec x s).registration ≡ none
  unfolding open_new respond_to
  open_new-registered dialed spec (some r) s refused =
      registered-unregister spec.pipe_id s.registration
  open_new-registered true spec none s refused = ground arith
  open_new-registered false spec none s refused = registered-unregister spec.pipe_id s.registration

  close_all-keeps :
      (rs : List Route) (s : Services m)
      → ((close_all m rs s).map ≡ s.map) × ((close_all m rs s).route_open ≡ s.route_open)
  unfolding close_all close_route publish
  close_all-keeps [] s = (refl, refl)
  close_all-keeps (r ∷ rs) s = close_all-keeps rs (close_route m r s)

  manage-registered :
      (dials : NewRoute → Bool) (spec : NewRoute) (s : Services m)
      → s.route_open ≡ spec ∷ []
      → is_refused (dials spec) (m.find spec.map_uri s.map) ≡ true
      → registered spec.pipe_id (manage m dials s).registration ≡ none
  unfolding manage open_all open_route
  manage-registered dials spec s waits refused =
      let (map_is, open_is) = close_all-keeps s.route_close s in
      let closed = close_all m s.route_close s in
      ap (λ specs. registered spec.pipe_id (open_all m dials specs closed).registration)
        (open_is ∙ waits)
      ∙ open_new-registered (dials spec) spec (m.find spec.map_uri closed.map) closed
          (ap (λ t. is_refused (dials spec) (m.find spec.map_uri t)) map_is ∙ refused)

  -- Where the registry has no other route to open, and the path of a registration, in one line like
  -- its alias, has a route already or its service cannot be dialed: if the registry receives the
  -- request that the registration writes, its management thread then runs, and the pipe of the
  -- request ends, then that end is undefined, whatever follows.
  pub refused-undefined :
      (path alias : Bytes) (query pipe : ℕ) (s : Services m) (dials : NewRoute → Bool)
      (es : List Event)
      → contains_newline path ≡ false
      → contains_newline alias ≡ false
      → s.route_open ≡ []
      → let prefix = alias_or_path path alias in
        let spec : NewRoute = record {
          query_id = query;
          pipe_id = pipe;
          map_uri = prefix;
          host = in_proc m prefix;
        } in
        is_refused (dials spec) (m.find prefix s.map) ≡ true
        → (msg : Bytes) × (w : MsgWriter) × (registration_request path alias ≡ ok (some msg, w))
          × (run m (receives query pipe msg ∷ manages dials ∷ disconnects pipe ∷ es) s ≡ none)
  unfolding run pipe_event disconnect
  refused-undefined path alias query pipe s dials es one two idle refused =
      let (msg, w, written, asks) = registration-asks m path alias query pipe s one two in
      let (open_is, registration_is, replies_is, map_is) = asks in
      let s' = async_recv m query pipe msg s in
      let prefix = alias_or_path path alias in
      let spec : NewRoute = record {
        query_id = query;
        pipe_id = pipe;
        map_uri = prefix;
        host = in_proc m prefix;
      } in
      let gone =
        manage-registered dials spec s' (open_is ∙ ap (λ specs. specs ++ spec ∷ []) idle)
          (ap (λ t. is_refused (dials spec) (m.find prefix t)) map_is ∙ refused) in
      (
        msg,
        w,
        written,
        ap (λ x. then_run m (run m es) (disconnect m pipe x (manage m dials s'))) gone,
      )
