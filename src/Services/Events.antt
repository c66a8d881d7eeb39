-- ===== src/Services/Events.antt =====
-- The reports that are published, and the routing table.
use telling.Prelude.{
  ℕ, Bool, true, false, Option, none, some, List, [], ◌∷◌, ◌++◌, Bytes, same_text, same_text_iff,
  ◌==◌, if◌then◌else◌, ◌≡◌, refl, sym, ap, subst, ◌∙◌, arith, Bool-cases, inl, inr, append_assoc,
  append-nil, ◌||◌,
}
use telling.Services.{
  PrefixMap, MapLaws, Route, NewRoute, Report, Services, Registrations, new_services, respond_to,
  publish, register_body, register_path, answer, close_path, disconnect, open_new, Reply,
  close_route, close_all, open_route, open_all, manage,
}
use telling.Status.StatusCode
use telling.MsgError.{Result, ok, err}
use telling.View.{MsgView}
use telling.Services.Live.{
  is_live, is_some, has_path, is_live-append, has_path-append, ne-same_text, closings,
  is_live-closings,
}

module _ (m : PrefixMap Route) (laws : MapLaws m) where
  -- A path that is in the table is that of its route and has none that waits to be closed, and the
  -- reports say of a path that it is live where it is in the table or waits to be closed.
  pub record Inv (s : Services m) : Type 0 where
    pub keyed : (k : Bytes) (r : Route) → m.find k s.map ≡ some r → r.path ≡ k
    pub reported :
        (k : Bytes)
        → is_live k s.published false ≡ (is_some (m.find k s.map) || has_path k s.route_close)
    pub closed_once : (k : Bytes) → has_path k s.route_close ≡ true → m.find k s.map ≡ none

  pub new_services-Inv : Inv (new_services m)
  unfolding new_services
  new_services-Inv = record {
    keyed = λ k r e. let none_there = laws.find-empty_map k in ground arith;
    reported = λ k. let none_there = laws.find-empty_map k in ground arith;
    closed_once = λ k h. laws.find-empty_map k;
  }

  erased :
      (path k : Bytes) (t : m.Table) → same_text path k ≡ true → m.find k (m.erase path t) ≡ none
  erased path k t h =
      subst (λ x. m.find x (m.erase path t) ≡ none) ((same_text_iff path k).0 h)
        (laws.find-erase_self path t)

  emplaced :
      (path k : Bytes) (r : Route) (t : m.Table)
      → same_text path k ≡ true
      → m.find path t ≡ none
      → m.find k (m.emplace path r t) ≡ some r
  emplaced path k r t h free =
      subst (λ x. m.find x (m.emplace path r t) ≡ some r) ((same_text_iff path k).0 h)
        (laws.find-emplace_self path r t free)

  -- Taking a route out of the table for the management thread to close.
  erase-Inv :
      (s : Services m) (path : Bytes) (r : Route) (registration' : Registrations)
      → Inv s
      → m.find path s.map ≡ some r
      → Inv (record s {
        registration = registration';
        map = m.erase path s.map;
        route_close = s.route_close ++ r ∷ [];
      })
  erase-Inv s path r reg v there =
      let key = v.keyed path r there in
      record {
        keyed = λ k r' e. elim (Bool-cases (same_text path k)) [
          | inl h ↦ let gone = erased path k s.map h in ground arith
          | inr h ↦ v.keyed k r' (sym (laws.find-erase_ne path k s.map (ne-same_text path k h)) ∙ e)
        ];
        reported = λ k. elim (Bool-cases (same_text path k)) [
          | inl h ↦
              let gone = erased path k s.map h in
              let was = subst (λ x. m.find x s.map ≡ some r) ((same_text_iff path k).0 h) there in
              let same = subst (λ x. same_text x k ≡ true) (sym key) h in
              let queued = has_path-append k s.route_close r in
              let before = v.reported k in ground arith
          | inr h ↦
              let kept = laws.find-erase_ne path k s.map (ne-same_text path k h) in
              let queued = has_path-append k s.route_close r in
              let before = v.reported k in ground arith
        ];
        closed_once = λ k queued. elim (Bool-cases (same_text path k)) [
          | inl h ↦ erased path k s.map h
          | inr h ↦
              let kept = laws.find-erase_ne path k s.map (ne-same_text path k h) in
              let split = has_path-append k s.route_close r in
              let before = v.closed_once k in ground arith
        ];
      }

  -- What leaves the table, the reports and the closing routes as they are.
  same-Inv :
      (s : Services m) (registration' : Registrations) (route_open' : List NewRoute)
      (replies' : List Reply)
      → Inv s
      → Inv
          (record s { registration = registration'; route_open = route_open'; replies = replies' })
  same-Inv s reg new rep v = record {
    keyed = v.keyed;
    reported = v.reported;
    closed_once = v.closed_once;
  }

  close_path-Inv :
      (pipe : ℕ) (path : Bytes) (x : Option Route) (s : Services m)
      → m.find path s.map ≡ x
      → Inv s
      → Inv (close_path m pipe path x s)
  unfolding close_path
  close_path-Inv pipe path none s e v = same-Inv s _ _ _ v
  close_path-Inv pipe path (some route) s e v = erase-Inv s path route _ v e

  -- Where the disconnection is defined.
  pub disconnect-Inv :
      (pipe : ℕ) (x : Option Bytes) (s s' : Services m)
      → Inv s
      → disconnect m pipe x s ≡ some s'
      → Inv s'
  unfolding disconnect
  disconnect-Inv pipe none s s' v e = ground arith
  disconnect-Inv pipe (some path) s s' v e =
      let closed = close_path-Inv pipe path (m.find path s.map) s refl v in
      let same : close_path m pipe path (m.find path s.map) s ≡ s' = ground arith in
      subst Inv same closed

  register_path-Inv :
      (query pipe : ℕ) (path after : Bytes) (s : Services m)
      → Inv s
      → Inv (register_path m query pipe path after s)
  unfolding register_path respond_to
  register_path-Inv query pipe path [] s v = same-Inv s _ _ _ v
  register_path-Inv query pipe path (c ∷ cs) s v = same-Inv s _ _ _ v

  pub answer-Inv :
      (query pipe : ℕ) (x : Result MsgView) (s : Services m) → Inv s → Inv (answer m query pipe x s)
  unfolding answer respond_to register_body
  answer-Inv query pipe (ok w) s v = register_path-Inv query pipe _ _ s v
  answer-Inv query pipe (err e) s v = same-Inv s _ _ _ v
  answer-Inv query pipe _ s v = v

  close_all_lem :
      (rs : List Route) (s : Services m)
      → close_all m rs s ≡ record s { route_close = []; published = s.published ++ closings rs }
  unfolding close_all close_route publish
  close_all_lem [] s = rw (append-nil s.published) refl
  close_all_lem (r ∷ rs) s =
      close_all_lem rs (close_route m r s)
      ∙ ap (λ l. record s { route_close = []; published = l })
          (append_assoc s.published (record { status = StatusCode.gone; path = r.path } ∷ [])
            (closings rs))

  close_all-Inv : (s : Services m) → Inv s → Inv (close_all m s.route_close s)
  close_all-Inv s v = subst Inv (sym (close_all_lem s.route_close s)) (record {
    keyed = v.keyed;
    reported = λ k.
        let said = is_live-append k s.published (closings s.route_close) false in
        let after = is_live-closings k s.route_close (is_live k s.published false) in
        let before = v.reported k in let once = v.closed_once k in ground arith;
    closed_once = λ k h. ground arith;
  })

  -- Every report of a path but this one's is as it was.
  is_live-publish :
      (k : Bytes) (s : Services m) (r : Report)
      → is_live k (s.published ++ r ∷ []) false ≡ (
          if same_text r.path k
          then r.status == StatusCode.created
          else is_live k s.published false)
  is_live-publish k s r = is_live-append k s.published (r ∷ []) false

  restored :
      (k path : Bytes) (s : Services m)
      → m.find path s.map ≡ none
      → m.find k (m.erase path (m.emplace path (record { path = path }) s.map)) ≡ m.find k s.map
  restored k path s free = elim (Bool-cases (same_text path k)) [
    | inl h ↦
        let was = subst (λ x. m.find x s.map ≡ none) ((same_text_iff path k).0 h) free in
        erased path k _ h ∙ sym was
    | inr h ↦
        laws.find-erase_ne path k _ (ne-same_text path k h)
        ∙ laws.find-emplace_ne path k _ s.map (ne-same_text path k h)
  ]

  -- The new route in the table, and the report of it.
  opened-Inv :
      (path : Bytes) (s : Services m) (replies' : List Reply)
      → m.find path s.map ≡ none
      → Inv s
      → s.route_close ≡ []
      → Inv (record s {
        map = m.emplace path (record { path = path }) s.map;
        replies = replies';
        published = s.published ++ record { status = StatusCode.created; path = path } ∷ [];
      })
  opened-Inv path s rep free v closed =
      let route : Route = record { path = path } in
      record {
        keyed = λ k r' e. elim (Bool-cases (same_text path k)) [
          | inl h ↦
              let same = (same_text_iff path k).0 h in
              let here = emplaced path k route s.map h free in
              let route_is : some route ≡ some r' = sym here ∙ e in ground arith
          | inr h ↦
              v.keyed k r'
                (sym (laws.find-emplace_ne path k route s.map (ne-same_text path k h)) ∙ e)
        ];
        reported = λ k.
            let said = is_live-publish k s (record { status = StatusCode.created; path = path }) in
            elim (Bool-cases (same_text path k)) [
              | inl h ↦ let here = emplaced path k route s.map h free in ground arith
              | inr h ↦
                  let kept = laws.find-emplace_ne path k route s.map (ne-same_text path k h) in
                  let before = v.reported k in ground arith
            ];
        closed_once = λ k h. ground arith;
      }

  -- The table without the route that was just put there.
  restored-Inv :
      (path : Bytes) (s : Services m) (registration' : Registrations) (replies' : List Reply)
      → m.find path s.map ≡ none
      → Inv s
      → Inv (record s {
        map = m.erase path (m.emplace path (record { path = path }) s.map);
        registration = registration';
        replies = replies';
      })
  restored-Inv path s reg rep free v =
      let t = m.erase path (m.emplace path (record { path = path }) s.map) in
      let same : (k : Bytes) → m.find k t ≡ m.find k s.map = λ k. restored k path s free in
      record {
        keyed = λ k r' e. v.keyed k r' (sym (same k) ∙ e);
        reported = λ k. let at = same k in let before = v.reported k in ground arith;
        closed_once = λ k h. same k ∙ v.closed_once k h;
      }

  open_new-Inv :
      (dialed : Bool) (spec : NewRoute) (x : Option Route) (s : Services m)
      → m.find spec.map_uri s.map ≡ x
      → Inv s
      → s.route_close ≡ []
      → Inv (open_new m dialed spec x s) × ((open_new m dialed spec x s).route_close ≡ [])
  unfolding open_new respond_to publish
  open_new-Inv dialed spec (some there) s e v closed = (same-Inv s _ _ _ v, closed)
  open_new-Inv true spec none s e v closed = (opened-Inv spec.map_uri s _ e v closed, closed)
  open_new-Inv false spec none s e v closed = (restored-Inv spec.map_uri s _ _ e v, closed)

  open_all-Inv :
      (dials : NewRoute → Bool) (specs : List NewRoute) (s : Services m)
      → Inv s
      → s.route_close ≡ []
      → Inv (open_all m dials specs s) × ((open_all m dials specs s).route_close ≡ [])
  unfolding open_all open_route
  open_all-Inv dials [] s v closed = (same-Inv s _ _ _ v, closed)
  open_all-Inv dials (spec ∷ specs) s v closed =
      let (v', closed') =
        open_new-Inv (dials spec) spec (m.find spec.map_uri s.map) s refl v closed in
      open_all-Inv dials specs _ v' closed'

  pub manage-Inv :
      (dials : NewRoute → Bool) (s : Services m)
      → Inv s
      → Inv (manage m dials s) × ((manage m dials s).route_close ≡ [])
  unfolding manage
  manage-Inv dials s v =
      open_all-Inv dials (close_all m s.route_close s).route_open _ (close_all-Inv s v)
        (ap (λ x. x.route_close) (close_all_lem s.route_close s))
