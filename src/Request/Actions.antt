-- ===== src/Request/Actions.antt =====
-- Every action of a Request is either active, under SEND or RECV, or idle.
use telling.Prelude.Table.{
  find, erase, update, entries_of, one_if, entries_of-erase, entries_of-update, occurrences,
  occurrences-snoc, made_as, made_as-once,
}
use telling.Prelude.{
  ℕ, ◌+◌, ◌≤◌, Bool, true, false, Option, none, some, List, [], ◌∷◌, ◌++◌, Bytes, ◌==◌, length, ◌≡◌,
  ◌≢◌, refl, arith,
}
use telling.Request.{
  ActionState, idle, send, recv, Request, new_request, count_stats, msg_stats, allocate_from,
  proceed, start, request, settle, react, callback, Event, requests, ends, step, run,
}
use telling.SendLoop.{AioResult}

abbrev pub no_idle : List (ℕ × ActionState) → Bool
no_idle [] = true
no_idle ((i, idle) ∷ t) = false
no_idle ((i, send) ∷ t) = no_idle t
no_idle ((i, recv) ∷ t) = no_idle t

pub find-no_idle :
    (i : ℕ) (t : List (ℕ × ActionState)) (state : ActionState)
    → no_idle t ≡ true
    → find i t ≡ some state
    → state ≢ idle
unfolding find
find-no_idle i [] state h f = cc
find-no_idle i ((j, idle) ∷ t) state h f = cc
find-no_idle i ((j, send) ∷ t) state h f = let ih = find-no_idle i t state h in ground arith
find-no_idle i ((j, recv) ∷ t) state h f = let ih = find-no_idle i t state h in ground arith

no_idle-erase : (i : ℕ) (t : List (ℕ × ActionState)) → no_idle t ≡ true → no_idle (erase i t) ≡ true
unfolding erase
no_idle-erase i [] h = refl
no_idle-erase i ((j, idle) ∷ t) h = cc
no_idle-erase i ((j, send) ∷ t) h = let ih = no_idle-erase i t h in ground arith
no_idle-erase i ((j, recv) ∷ t) h = let ih = no_idle-erase i t h in ground arith

no_idle-update :
    (i : ℕ) (t : List (ℕ × ActionState)) → no_idle t ≡ true → no_idle (update i recv t) ≡ true
unfolding update
no_idle-update i [] h = refl
no_idle-update i ((j, idle) ∷ t) h = cc
no_idle-update i ((j, send) ∷ t) h = let ih = no_idle-update i t h in ground arith
no_idle-update i ((j, recv) ∷ t) h = let ih = no_idle-update i t h in ground arith

stats-length :
    (t : List (ℕ × ActionState))
    → no_idle t ≡ true
    → (count_stats t).awaiting_send + (count_stats t).awaiting_recv ≡ length t
unfolding count_stats
stats-length [] h = refl
stats-length ((i, idle) ∷ t) h = cc
stats-length ((i, send) ∷ t) h = omega (arith, stats-length t h)
stats-length ((i, recv) ∷ t) h = omega (arith, stats-length t h)

module _ (ctx_id : ℕ → ℕ) where
  abbrev pub holders : ℕ → Request → ℕ
  holders k c = entries_of k c.active + occurrences k c.idle_ids

  pub record Inv (c : Request) : Type 0 where
    pub live : no_idle c.active ≡ true
    pub kept : (k : ℕ) → holders k c ≡ made_as ctx_id k c.made

  module _ (prep : ℕ → Bytes → Option Bytes) where
    allocate-Inv :
        (is : List ℕ) (c : Request)
        → c.idle_ids ≡ is
        → Inv c
        → let (i, c') = allocate_from ctx_id prep is c in
          c'.active ≡ c.active
          × ((k : ℕ) → one_if (k == i) + holders k c' ≡ made_as ctx_id k c'.made)
    unfolding allocate_from
    allocate-Inv [] c e v = (refl, λ k. let kept = v.kept k in omega arith)
    allocate-Inv (i ∷ is) c e v = (refl, λ k. let kept = v.kept k in ground arith)

    proceed-Inv :
        (o : Option Bytes) (i : ℕ) (c : Request)
        → no_idle c.active ≡ true
        → ((k : ℕ) → one_if (k == i) + holders k c ≡ made_as ctx_id k c.made)
        → Inv (proceed ctx_id prep o i c).2
    unfolding proceed entries_of
    proceed-Inv none i c l kept = record { live = l; kept = λ k. let h = kept k in omega arith }
    proceed-Inv (some msg) i c l kept = record {
      live = l;
      kept = λ k. let h = kept k in ground arith;
    }

    start-Inv : (msg : Bytes) (c : Request) → Inv c → Inv (start ctx_id prep msg c).2
    unfolding start
    start-Inv msg c v =
        let (i, c') = allocate_from ctx_id prep c.idle_ids c in
        let (same, kept) = allocate-Inv c.idle_ids c refl v in
        proceed-Inv (prep i msg) i c' (rw same v.live) kept

  retire-Inv :
      (found : ActionState) (i : ℕ) (c : Request)
      → find i c.active ≡ some found
      → Inv c
      → Inv (record c { active = erase i c.active; idle_ids = c.idle_ids ++ i ∷ [] })
  retire-Inv found i c f v = record {
    live = no_idle-erase i c.active v.live;
    kept = λ k.
        let kept = v.kept k in
        omega (arith, entries_of-erase k i c.active found f, occurrences-snoc k i c.idle_ids);
  }

  settle-Inv :
      (state found : ActionState) (i : ℕ) (c : Request)
      → find i c.active ≡ some found
      → Inv c
      → Inv (settle state i c).1
  unfolding settle
  settle-Inv send found i c f v = record {
    live = no_idle-update i c.active v.live;
    kept = λ k. let kept = v.kept k in omega (arith, entries_of-update k i recv c.active);
  }
  settle-Inv idle found i c f v = retire-Inv found i c f v
  settle-Inv recv found i c f v = retire-Inv found i c f v

  react-Inv :
      (has_handler : Bool) (result : AioResult) (msg : Bytes) (i : ℕ) (o : Option ActionState)
      (c : Request)
      → find i c.active ≡ o
      → Inv c
      → Inv (react has_handler result msg i o c).1
  unfolding react
  react-Inv has_handler result msg i none c f v = v
  react-Inv has_handler result msg i (some state) c f v = settle-Inv _ state i c f v

  module _ (prep : ℕ → Bytes → Option Bytes) where
    pub step-Inv : (c : Request) (e : Event) → Inv c → Inv (step ctx_id prep c e).1
    unfolding step request callback
    step-Inv c (requests false has_handler msg) v = v
    step-Inv c (requests true false msg) v = v
    step-Inv c (requests true true msg) v = start-Inv prep msg c v
    step-Inv c (ends has_handler result msg i) v =
        react-Inv has_handler result msg i (find i c.active) c refl v

    pub run-Inv : (c : Request) (es : List Event) → Inv c → Inv (run ctx_id prep c es).1
    unfolding run
    run-Inv c [] v = v
    run-Inv c (e ∷ es) v = run-Inv (step ctx_id prep c e).1 es (step-Inv c e v)

    pub new_request-Inv : Inv new_request
    unfolding entries_of
    new_request-Inv = record { live = refl; kept = λ k. refl }

    -- The numbers of nng being distinct, after any requests, ready or not, accepted, declined or
    -- refused, and any ends of operations, failed ones and a handler that is gone included: no
    -- context belongs to two actions, active or idle, and the two counts of msgStats add up to the
    -- number of active actions.
    pub actions_once :
        (injective : (i j : ℕ) → ctx_id i ≡ ctx_id j → i ≡ j) (es : List Event) (k : ℕ)
        → let c = (run ctx_id prep new_request es).1 in
          let stats = msg_stats c in
          entries_of k c.active + occurrences k c.idle_ids ≤ 1
          × stats.awaiting_send + stats.awaiting_recv ≡ length c.active
    unfolding msg_stats
    actions_once injective es k =
        let v = run-Inv new_request es new_request-Inv in
        let kept = v.kept k in
        let c = (run ctx_id prep new_request es).1 in
        (omega (arith, made_as-once ctx_id injective k c.made), stats-length c.active v.live)
