-- ===== src/Request/Ledger.antt =====
-- What the handler of a Request is told about each query.
use telling.Prelude.Table.{find, erase, entries_of, one_if, entries_of-erase, entries_of-update}
use telling.Prelude.{
  ℕ, ◌+◌, total, total-append, Bool, true, false, ◌&&◌, Option, none, some, List, [], ◌∷◌, Bytes,
  ◌==◌, ◌≡◌, ◌≢◌, refl, ap, arith,
}
use telling.Request.Actions.{Inv, find-no_idle, step-Inv, new_request-Inv}
use telling.Request.{
  ActionState, idle, send, recv, Effect, async_recv, async_error, ctx_send, Request, new_request,
  proceed, start, request, allocate_from, notify, settle, react, callback, Event, requests, ends,
  step, run,
}
use telling.SendLoop.{AioResult, success}

-- A query starts when its message is given to the context, and the handler learns its outcome by the
-- response or by an error.
abbrev pub is_start : ℕ → Effect → ℕ
is_start k (ctx_send i msg) = one_if (k == i)
is_start k _ = 0

abbrev pub is_outcome : ℕ → Effect → ℕ
is_outcome k (async_recv i msg) = one_if (k == i)
is_outcome k (async_error i result) = one_if (k == i)
is_outcome k _ = 0

abbrev pub starts : ℕ → List Effect → ℕ
starts k = total (is_start k)

abbrev pub outcomes : ℕ → List Effect → ℕ
outcomes k = total (is_outcome k)

-- The handler is alive whenever an operation ends.
abbrev pub handled : List Event → Bool
handled [] = true
handled (requests ready has_handler msg ∷ es) = handled es
handled (ends has_handler result msg i ∷ es) = has_handler && handled es

-- Every start adds an active action, and every outcome takes one away.
pub record Balance (k : ℕ) (effects : List Effect) (before after : Request) : Type 0 where
  pub balance :
      outcomes k effects + entries_of k after.active ≡ starts k effects + entries_of k before.active

-- The action at its end, with one outcome.
retired :
    (k i : ℕ) (found : ActionState) (c : Request)
    → find i c.active ≡ some found
    → one_if (k == i) + 0 + entries_of k (erase i c.active) ≡ 0 + entries_of k c.active
retired k i found c f = omega (arith, entries_of-erase k i c.active found f)

react-Balance :
    (k i : ℕ) (o : Option ActionState) (msg : Bytes) (result : AioResult) (c : Request)
    → o ≢ some idle
    → find i c.active ≡ o
    → Balance k (react true result msg i o c).0 c (react true result msg i o c).1
unfolding react notify settle
react-Balance k i none msg result c ne f = record { balance = refl }
react-Balance k i (some idle) msg result c ne f = elim (ne refl) [ ]
react-Balance k i (some send) msg success c ne f = record {
  balance = omega (arith, entries_of-update k i recv c.active);
}
react-Balance k i (some recv) msg success c ne f = record { balance = retired k i recv c f }
react-Balance k i (some state) msg _ c ne f = record { balance = retired k i state c f }

handled-cons :
    (e : Event) (es : List Event)
    → handled (e ∷ es) ≡ true
    → handled (e ∷ []) ≡ true × handled es ≡ true
handled-cons (requests ready has_handler msg) es h = (refl, h)
handled-cons (ends has_handler result msg i) es h = ground arith

module _ (ctx_id : ℕ → ℕ) (prep : ℕ → Bytes → Option Bytes) where
  allocate_active :
      (is : List ℕ) (c : Request) → (allocate_from ctx_id prep is c).1.active ≡ c.active
  unfolding allocate_from
  allocate_active [] c = refl
  allocate_active (i ∷ is) c = refl

  proceed-Balance :
      (k i : ℕ) (o : Option Bytes) (c : Request)
      → Balance k (proceed ctx_id prep o i c).1 c (proceed ctx_id prep o i c).2
  unfolding proceed entries_of
  proceed-Balance k i none c = record { balance = refl }
  proceed-Balance k i (some msg) c = record { balance = ground arith }

  step-Balance :
      (k : ℕ) (c : Request) (e : Event)
      → handled (e ∷ []) ≡ true
      → Inv ctx_id c
      → Balance k (step ctx_id prep c e).0 c (step ctx_id prep c e).1
  unfolding step request start callback
  step-Balance k c (requests false has_handler msg) h v = record { balance = refl }
  step-Balance k c (requests true false msg) h v = record { balance = refl }
  step-Balance k c (requests true true msg) h v =
      let (i, c') = allocate_from ctx_id prep c.idle_ids c in
      let b = proceed-Balance k i (prep i msg) c' in
      let e = ap (entries_of k) (allocate_active c.idle_ids c) in
      record { balance = omega (arith, b.balance, e) }
  step-Balance k c (ends false result msg i) h v = cc
  step-Balance k c (ends true result msg i) h v =
      react-Balance k i (find i c.active) msg result c
        (λ e. find-no_idle i c.active idle v.live e refl) refl

  run-Balance :
      (k : ℕ) (c : Request) (es : List Event)
      → handled es ≡ true
      → Inv ctx_id c
      → Balance k (run ctx_id prep c es).0 c (run ctx_id prep c es).1
  unfolding run
  run-Balance k c [] h v = record { balance = refl }
  run-Balance k c (e ∷ es) h v =
      let (first, later) = handled-cons e es h in
      let (effects, c') = step ctx_id prep c e in
      let b = step-Balance k c e first v in
      let r = run-Balance k c' es later (step-Inv ctx_id prep c e v) in
      let rest = (run ctx_id prep c' es).0 in
      record {
        balance = omega (
          arith,
          b.balance,
          r.balance,
          total-append (is_start k) effects rest,
          total-append (is_outcome k) effects rest,
        );
      }

  -- As long as the handler lives whenever an operation ends, whatever the requests and the results:
  -- for each context, the queries whose message was given to it are as many as the outcomes, a
  -- response or an error, that the handler was told, and one more where the action is still active.
  pub starts-outcomes :
      (k : ℕ) (es : List Event)
      → handled es ≡ true
      → let (effects, c) = run ctx_id prep new_request es in
        starts k effects ≡ outcomes k effects + entries_of k c.active
  unfolding entries_of
  starts-outcomes k es h =
      let b = run-Balance k new_request es h (new_request-Inv ctx_id prep) in
      omega (arith, b.balance)
