-- ===== src/HttpClient/Queries/Reused.antt =====
-- The second query of an HttpClient, on the action of the first.
use telling.HttpClient.Queries.{
  HttpClient, Requested, accepted, allocate_from, name_query, stow, proceed, start, request, settle,
  react, callback,
}
use telling.HttpClient.Reading.{Reading, whole, conclude, closing}
use telling.HttpClient.Turns.{turn-whole}
use telling.HttpClient.{
  connect, HttpResult, success, Action, Effect, async_prep, async_recv, http_conn_open,
  http_conn_close, starts_connect, succeed, notify, deliver, clean_up, turn_over, advance, turn,
}
use telling.Prelude.Table.{find, erase}
use telling.Prelude.{
  ℕ, suc, Bool, true, false, Option, none, some, List, [], ◌∷◌, ◌++◌, Bytes, ◌==◌, ◌≡◌, refl, sym,
  ap, ◌∙◌, subst, arith,
}

module _ (blank : ℕ → Bytes) where
  -- What an action is that has handed over its response.
  record Spent (a : Action) : Type 0 where
    complete : a.res_completion.complete ≡ true
    empty : a.res ≡ none

  turn-connect :
      (a : Action) (result : Bytes)
      → a.state ≡ connect
      → turn blank true (success result) a
        ≡ conclude blank
            (http_conn_open a.query_id ∷ [])
            (record a { conn = true })
            a.res_completion.complete
  unfolding turn notify succeed
  turn-connect a result c = rw c refl

  deliver-Spent :
      (a : Action)
      → Spent a
      → deliver blank true a ≡ (async_recv a.query_id none ∷ [], record a { res = none })
  unfolding deliver
  deliver-Spent a s = let c = s.complete in let e = s.empty in ground arith

  turn-Spent :
      (a : Action) (result : Bytes)
      → a.state ≡ connect
      → Spent a
      → let (effects, a', stays) = turn blank true (success result) a in
        effects
          ≡ http_conn_open a.query_id ∷ async_recv a.query_id none ∷ http_conn_close a.query_id ∷ []
        × stays ≡ false
  unfolding turn_over clean_up advance
  turn-Spent a result c s =
      let a1 = record a { conn = true } in
      let told : List Effect = http_conn_open a.query_id ∷ [] in
      subst
        (λ t.
          t.0
            ≡ http_conn_open a.query_id
              ∷ async_recv a.query_id none
              ∷ http_conn_close a.query_id
              ∷ []
          × t.2 ≡ false)
        (sym (turn-connect a result c ∙ ap (conclude blank told a1) s.complete))
        (subst
          (λ d.
            told ++ (d.0 ++ closing blank d.1) ++ []
              ≡ http_conn_open a.query_id
                ∷ async_recv a.query_id none
                ∷ http_conn_close a.query_id
                ∷ []
            × ◌≡◌ {A = Bool} false false)
          (sym (deliver-Spent a1 (record { complete = s.complete; empty = s.empty }))) (refl, refl))

  -- A client whose one active query has ended.
  callback-single :
      (result : HttpResult) (q n : ℕ) (a : Action) (idle_actions : List Action)
      → let c : HttpClient = record {
        active = (q, a) ∷ [];
        idle_actions = idle_actions;
        next_query_id = n;
      } in
        let (effects, a', stays) = turn blank true result a in
        stays ≡ false
        → callback blank true result q c ≡ (
          effects,
          record { active = []; idle_actions = idle_actions ++ a' ∷ []; next_query_id = n },
        )
  unfolding callback react settle find erase
  callback-single result q n a idle_actions stays =
      let e : (q == q) ≡ true = ground arith in rw (e, stays) (rw e refl)

  -- What `request` does on an action that it takes from the idle queue.
  request-idle :
      (prep : ℕ → Bytes → Option Bytes) (msg msg' : Bytes) (a : Action) (n : ℕ)
      → prep n msg ≡ some msg'
      → request prep true msg (record { active = []; idle_actions = a ∷ []; next_query_id = n }) ≡ (
        accepted n,
        async_prep n msg ∷ starts_connect n ∷ [],
        record {
          active = (n, stow msg' (record a { query_id = n })) ∷ [];
          idle_actions = [];
          next_query_id = suc n;
        },
      )
  unfolding request start allocate_from name_query proceed
  request-idle prep msg msg' a n p = rw p refl

  stowed-turn :
      (a : Action) (msg result : Bytes) (n : ℕ)
      → Spent a
      → let (effects, a', stays) =
          turn blank true (success result) (stow msg (record a { query_id = n })) in
        effects ≡ http_conn_open n ∷ async_recv n none ∷ http_conn_close n ∷ [] × stays ≡ false
  unfolding stow
  stowed-turn a msg result n s =
      turn-Spent (stow msg (record a { query_id = n })) result refl
        (record { complete = s.complete; empty = s.empty })

  -- What is said of the second query, from what its request returns.
  abbrev Unsent :
      (ℕ → Bytes → Option Bytes) → Bytes → Bytes → ℕ → Requested × List Effect × HttpClient → Type 0
  Unsent prep msg result n (requested, asked, c2) =
      requested ≡ accepted n
      × (callback blank true (success result) n c2).0
        ≡ http_conn_open n ∷ async_recv n none ∷ http_conn_close n ∷ []
      × (callback blank true (success result) n c2).1.active ≡ []

  -- A client with a handler has one query, which is reading its response, and no idle actions, and the
  -- chunk that is read next makes the response complete. The next request is accepted; when its
  -- connection has been made, the handler is given an empty response, the connection is closed, and
  -- the query is over: the request is never written.
  pub second_query-unsent :
      (prep : ℕ → Bytes → Option Bytes) (a : Action) (before chunk msg msg' result : Bytes) (n : ℕ)
      → Reading blank a before
      → whole blank (before ++ chunk) ≡ true
      → prep n msg ≡ some msg'
      → let c : HttpClient = record {
        active = (a.query_id, a) ∷ [];
        idle_actions = [];
        next_query_id = n;
      } in
        let (read, c1) = callback blank true (success chunk) a.query_id c in
        let (requested, asked, c2) = request prep true msg c1 in
        let (effects, c3) = callback blank true (success result) n c2 in
        requested ≡ accepted n
        × effects ≡ http_conn_open n ∷ async_recv n none ∷ http_conn_close n ∷ []
        × c3.active ≡ []
  second_query-unsent prep a before chunk msg msg' result n r w p =
      let (delivers, stays, complete, res) = turn-whole blank a before chunk w r in
      let (read, a1, s) = turn blank true (success chunk) a in
      let a2 = stow msg' (record a1 { query_id = n }) in
      let (effects, stays') =
        stowed-turn a1 msg' result n (record { complete = complete; empty = res }) in
      let first = callback-single (success chunk) a.query_id n a [] stays in
      let second = request-idle prep msg msg' a1 n p in
      let third = callback-single (success result) n (suc n) a2 [] stays' in
      subst (λ x. Unsent prep msg result n (request prep true msg x.1)) (sym first)
        (subst (Unsent prep msg result n) (sym second) (
          subst
            (λ x.
              accepted n ≡ accepted n
              × x.0 ≡ http_conn_open n ∷ async_recv n none ∷ http_conn_close n ∷ []
              × x.1.active ≡ [])
            (sym third) (refl, effects, refl)))
