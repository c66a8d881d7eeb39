-- ===== src/Tests/Clients.antt =====
-- Runs of the client requests, and their theorems at concrete events.
use telling.Headers.{MsgHeader}
use telling.Prelude.Table.{find, update, erase, entries_of, occurrences}
use telling.Prelude.{
  ℕ, ◌+◌, ◌≤◌, true, false, Option, none, some, List, [], ◌∷◌, Bytes, codes, if◌then◌else◌, length,
  ◌≡◌, refl, arith,
}
use telling.Request.Actions.{actions_once}
use telling.Request.Box.{
  new_delegate, async_prep, get_future, Call, sents, recvs, errors, calls, undisturbed,
  get_future-undisturbed,
}
use telling.Request.Ledger.{starts, outcomes, starts-outcomes}
use telling.Request.{
  send, recv, Request, new_request, msg_stats, Event, requests, ends, run, request,
}
use telling.SendLoop.{success, timedout, other}
use telling.View.Completion.{completion_of}

-- Contexts numbered from 7 on, and a handler that declines empty messages.
abbrev ctx_id : ℕ → ℕ
ctx_id n = n + 7

abbrev declining : ℕ → Bytes → Option Bytes
declining i [] = none
declining i (c ∷ cs) = some (c ∷ cs)

abbrev query_events : List Event
query_events =
    requests true true (codes "a")
    ∷ requests true true []
    ∷ requests true true (codes "b")
    ∷ ends true success [] 7
    ∷ ends true timedout [] 8
    ∷ ends true success (codes "r") 7
    ∷ requests true true (codes "c")
    ∷ requests false true (codes "d")
    ∷ []

abbrev two_active : Request
two_active = record { active = (8, send) ∷ (7, recv) ∷ []; idle_ids = 9 ∷ []; made = 3 }

actions_once_example :
    let c = (run ctx_id declining new_request query_events).1 in
    let stats = msg_stats c in
    entries_of 7 c.active + occurrences 7 c.idle_ids ≤ 1
    × stats.awaiting_send + stats.awaiting_recv ≡ length c.active
actions_once_example = actions_once ctx_id declining (λ i j e. omega arith) query_events 7

starts-outcomes_example :
    let (effects, c) = run ctx_id declining new_request query_events in
    starts 7 effects ≡ outcomes 7 effects + entries_of 7 c.active
starts-outcomes_example = starts-outcomes ctx_id declining 7 query_events refl

outcomes-events : outcomes 7 (run ctx_id declining new_request query_events).0 ≡ 1
unfolding run request update erase
outcomes-events = refl

abbrev between : List Call
between = sents 7 ∷ recvs 9 (codes "x") ∷ errors 7 other ∷ []

get_future-undisturbed_example :
    (get_future 7 (calls (async_prep 7 new_delegate) between)).0
    ≡ (if undisturbed 7 between then some 7 else none)
unfolding find
get_future-undisturbed_example = get_future-undisturbed 7 new_delegate between refl refl

-- The error came first, so its caller gets an exception.
early_error : (get_future 7 (calls (async_prep 7 new_delegate) between)).0 ≡ none
unfolding get_future calls async_prep
early_error = refl

abbrev chunked_headers : List MsgHeader
chunked_headers =
    record { name = codes "content-length"; value = codes "5" }
    ∷ record { name = codes "Transfer-Encoding"; value = codes "gzip, chunked" }
    ∷ []

length_read : (completion_of chunked_headers 4 true).complete ≡ false
unfolding completion_of
length_read = refl
