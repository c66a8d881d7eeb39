-- ===== src/HttpClient/Failing.antt =====
-- What the callback of an HttpClient does when an operation fails, and with an action used before.
use telling.HttpClient.Responses.{turns, turns-stays}
use telling.HttpClient.Reading.{deliveries, conclude}
use telling.HttpClient.{
  ActionState, idle, recv, HttpResult, success, connaborted, connreset, connshut, closed, canceled,
  timedout, other, Action, Effect, async_recv, async_error, http_conn_close, conn_read, fail,
  hung_up, notify, deliver, clean_up, turn_over, advance, turn,
}
use telling.Prelude.{
  ℕ, Bool, true, false, ◌&&◌, ◌||◌, List, [], ◌∷◌, ◌++◌, Bytes, if◌then◌else◌, ◌≡◌, refl, sym, ap,
  ◌∙◌, subst, arith, append-nil,
}
use telling.View.Completion.{implicit}

-- The errors that the handler is told.
abbrev pub errors : List Effect → List HttpResult
errors [] = []
errors (async_error i result ∷ es) = result ∷ errors es
errors (_ ∷ es) = errors es

-- The results that cancel a query whatever the action has received.
abbrev pub cancels : HttpResult → Bool
cancels canceled = true
cancels timedout = true
cancels other = true
cancels _ = false

-- The results of a connection that has ended.
abbrev pub hangs_up : HttpResult → Bool
hangs_up connaborted = true
hangs_up connreset = true
hangs_up connshut = true
hangs_up closed = true
hangs_up _ = false

module _ (blank : ℕ → Bytes) where
  abbrev pub closes : Action → List Effect
  closes a = if a.conn && true then http_conn_close a.query_id ∷ [] else []

  notify-cancels :
      (result : HttpResult) (a : Action)
      → cancels result ≡ true
      → notify blank true result a ≡ fail blank result a
  unfolding notify
  notify-cancels (success chunk) a h = cc
  notify-cancels connaborted a h = cc
  notify-cancels connreset a h = cc
  notify-cancels connshut a h = cc
  notify-cancels closed a h = cc
  notify-cancels canceled a h = refl
  notify-cancels timedout a h = refl
  notify-cancels other a h = refl

  notify-hangs_up :
      (result : HttpResult) (a : Action)
      → hangs_up result ≡ true
      → notify blank true result a ≡ hung_up blank result a
  unfolding notify
  notify-hangs_up (success chunk) a h = cc
  notify-hangs_up connaborted a h = refl
  notify-hangs_up connreset a h = refl
  notify-hangs_up connshut a h = refl
  notify-hangs_up closed a h = refl
  notify-hangs_up canceled a h = cc
  notify-hangs_up timedout a h = cc
  notify-hangs_up other a h = cc

  -- The callback after its first part.
  abbrev finish : List Effect × Action × Bool → List Effect × Action × Bool
  finish (told, a1, disconnect) = conclude blank told a1 (disconnect || a1.res_completion.complete)

  turn-finish :
      (result : HttpResult) (a : Action)
      → turn blank true result a ≡ finish (notify blank true result a)
  unfolding turn
  turn-finish result a = refl

  -- With a handler, an operation that is canceled, times out or fails in a way that the code does not
  -- name, in any state of the action: the handler is told the error, and then all the same given a
  -- message, what the action has of a response, or none; then the connection, if there is one, is
  -- closed, and the action is done.
  pub failed_turn :
      (result : HttpResult) (a : Action)
      → cancels result ≡ true
      → let (effects, a', stays) = turn blank true result a in
        effects ≡ async_error a.query_id result ∷ async_recv a.query_id a.res ∷ closes a
        × stays ≡ false
        × a'.state ≡ idle
  unfolding fail turn_over deliver clean_up implicit advance
  failed_turn result a h =
      subst
        (λ t.
          t.0 ≡ async_error a.query_id result ∷ async_recv a.query_id a.res ∷ closes a
          × t.2 ≡ false
          × t.1.state ≡ idle)
        (sym (turn-finish result a ∙ ap finish (notify-cancels result a h)))
        (append-nil _, refl, refl)

  -- An action that reads a response without a length, which so only ends with its connection.
  pub record Endless (a : Action) : Type 0 where
    pub receiving : a.state ≡ recv
    pub unbounded : implicit a.res_completion ≡ true
    pub incomplete : a.res_completion.complete ≡ false

  hung_up-Endless :
      (result : HttpResult) (a : Action) → Endless a → hung_up blank result a ≡ ([], a, false)
  unfolding hung_up
  hung_up-Endless result a e = rw e.unbounded refl

  advance-Endless :
      (state : ActionState) (a : Action)
      → state ≡ recv
      → Endless a
      → let (effects, a', stays) = advance blank state a in
        effects ≡ conn_read a.query_id ∷ [] × stays ≡ true × Endless a'
  unfolding advance
  advance-Endless state a s e = rw s (
    refl,
    refl,
    record { receiving = e.receiving; unbounded = e.unbounded; incomplete = e.incomplete },
  )

  turn-Endless :
      (result : HttpResult) (a : Action)
      → hangs_up result ≡ true
      → Endless a
      → let (effects, a', stays) = turn blank true result a in
        effects ≡ conn_read a.query_id ∷ [] × stays ≡ true × Endless a'
  unfolding turn_over
  turn-Endless result a h e =
      subst (λ t. t.0 ≡ conn_read a.query_id ∷ [] × t.2 ≡ true × Endless t.1)
        (sym (
          turn-finish result a
          ∙ ap finish (notify-hangs_up result a h ∙ hung_up-Endless result a e)
          ∙ ap (conclude blank [] a) e.incomplete))
        (advance-Endless a.state a e.receiving e)

  abbrev pub all_hang_up : List HttpResult → Bool
  all_hang_up [] = true
  all_hang_up (result ∷ results) = hangs_up result && all_hang_up results

  -- With a handler, an action that reads a response without a length, in HTTP, whose end is the end of
  -- its connection: however often its reads then end because the connection is closed, reset, shut or
  -- aborted, the handler is never given the response nor told an error, and the action reads again.
  pub hang_ups-undelivered :
      (a : Action) (results : List HttpResult)
      → all_hang_up results ≡ true
      → Endless a
      → let (effects, a', stays) = turns blank results a in
        deliveries effects ≡ [] × errors effects ≡ [] × stays ≡ true × Endless a'
  unfolding turns
  hang_ups-undelivered a [] h e = (refl, refl, refl, e)
  hang_ups-undelivered a (result ∷ results) h e =
      let first : hangs_up result ≡ true = ground arith in
      let later : all_hang_up results ≡ true = ground arith in
      let (reads, stays, e') = turn-Endless result a first e in
      let (effects, a', s) = turn blank true result a in
      let (silent, fine, stays', e'') = hang_ups-undelivered a' results later e' in
      let rest = (turns blank results a').0 in
      subst (λ t. deliveries t.0 ≡ [] × errors t.0 ≡ [] × t.2 ≡ true × Endless t.1)
        (sym (turns-stays blank a result results stays))
        (
          ap (λ l. deliveries (l ++ rest)) reads ∙ silent,
          ap (λ l. errors (l ++ rest)) reads ∙ fine,
          stays',
          e'',
        )
