-- ===== src/Services/Routing.antt =====
-- Where messages go, and how registrations are answered.
use telling.Prelude.{
  ℕ, Bool, true, false, Option, none, some, List, [], ◌∷◌, ◌++◌, Bytes, ◌≡◌, ◌↔◌, refl, sym, ap,
  ◌∙◌, arith, append_assoc, append-nil,
}
use telling.Services.{
  PrefixMap, MapLaws, Route, NewRoute, Reply, Services, send_to, route_message, open_new,
  open_route, open_all, close_route, close_all, manage, respond_to, publish,
}
use telling.Status.StatusCode
use telling.Uri.{has_prefix}

abbrev pub queries : List Reply → List ℕ
queries [] = []
queries (r ∷ rest) = r.query ∷ queries rest

abbrev pub asked : List NewRoute → List ℕ
asked [] = []
asked (spec ∷ rest) = spec.query_id ∷ asked rest

queries-append : (xs : List Reply) (r : Reply) → queries (xs ++ r ∷ []) ≡ queries xs ++ r.query ∷ []
queries-append [] r = refl
queries-append (x ∷ xs) r = ap (◌∷◌ x.query) (queries-append xs r)

module _ (m : PrefixMap Route) where
  open_new-queries :
      (dialed : Bool) (spec : NewRoute) (x : Option Route) (s : Services m)
      → queries (open_new m dialed spec x s).replies ≡ queries s.replies ++ spec.query_id ∷ []
  unfolding open_new respond_to publish
  open_new-queries dialed spec (some r) s = queries-append s.replies _
  open_new-queries true spec none s = queries-append s.replies _
  open_new-queries false spec none s = queries-append s.replies _

  open_all-queries :
      (dials : NewRoute → Bool) (specs : List NewRoute) (s : Services m)
      → (queries (open_all m dials specs s).replies ≡ queries s.replies ++ asked specs)
        × ((open_all m dials specs s).route_open ≡ [])
  unfolding open_all open_route
  open_all-queries dials [] s = (sym (append-nil (queries s.replies)), refl)
  open_all-queries dials (spec ∷ specs) s =
      let next = open_new m (dials spec) spec (m.find spec.map_uri s.map) s in
      let (answered, empty) = open_all-queries dials specs next in
      (
        answered
            ∙ ap (λ q. q ++ asked specs)
                (open_new-queries (dials spec) spec (m.find spec.map_uri s.map) s)
            ∙ append_assoc (queries s.replies) (spec.query_id ∷ []) (asked specs),
        empty,
      )

  close_all-replies :
      (rs : List Route) (s : Services m)
      → ((close_all m rs s).replies ≡ s.replies) × ((close_all m rs s).route_open ≡ s.route_open)
  unfolding close_all close_route publish
  close_all-replies [] s = (refl, refl)
  close_all-replies (r ∷ rs) s = close_all-replies rs (close_route m r s)

  -- A management round answers each registration that waits exactly once, in their order, and leaves
  -- none waiting.
  pub manage-queries :
      (dials : NewRoute → Bool) (s : Services m)
      → (queries (manage m dials s).replies ≡ queries s.replies ++ asked s.route_open)
        × ((manage m dials s).route_open ≡ [])
  unfolding manage
  manage-queries dials s =
      let (replies, waiting) = close_all-replies s.route_close s in
      let closed = close_all m s.route_close s in
      let (answered, empty) = open_all-queries dials closed.route_open closed in
      (
        answered
            ∙ ap (λ r. queries r ++ asked closed.route_open) replies
            ∙ ap (λ w. queries s.replies ++ asked w) waiting,
        empty,
      )

  module _ (laws : MapLaws m) where
    send_to-not_found :
        (sends : Route → Bool) (x : Option Route)
        → send_to m sends x ≡ StatusCode.not_found
        → x ≡ none
    unfolding send_to
    send_to-not_found sends none e = refl
    send_to-not_found sends (some r) e = ground arith

    not_found-none :
        (sends : Route → Bool) (path : Bytes) (s : Services m) (x : Option Route)
        → m.longest_prefix path s.map ≡ x
        → ((k : Bytes) → has_prefix k path ≡ true → m.find k s.map ≡ none)
        → send_to m sends x ≡ StatusCode.not_found
    unfolding send_to
    not_found-none sends path s none e free = refl
    not_found-none sends path s (some r) e free =
        let (k, there, prefix, longest) = laws.longest_prefix-some path s.map r e in
        let nothing = free k prefix in cc

    -- With a prefix map that keeps its laws, a message has the status 404 exactly where the table has
    -- no path that is a prefix of its own, whether or not routes can send.
    pub route_message-not_found_iff :
        (sends : Route → Bool) (path : Bytes) (s : Services m)
        → (route_message m sends path s ≡ StatusCode.not_found)
          ↔ ((k : Bytes) → has_prefix k path ≡ true → m.find k s.map ≡ none)
    unfolding route_message
    route_message-not_found_iff sends path s = (
      λ e. laws.longest_prefix-none path s.map (send_to-not_found sends _ e),
      λ free. not_found-none sends path s (m.longest_prefix path s.map) refl free,
    )
