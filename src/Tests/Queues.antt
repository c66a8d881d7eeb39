-- ===== src/Tests/Queues.antt =====
-- Runs of the queues and of the send loop, and their theorems at concrete events.
use telling.Prelude.{ℕ, ◌≡◌, refl, true, none, some, List, [], ◌∷◌}
use telling.Queue.Fifo.{Call, pushes, pulls, pulled}
use telling.Queue.{empty_recv, push, pull, clear_recv, is_empty, produce, clear}
use telling.SendLoop.Order.{Inv, sent, accepted, wire-deq-sent}
use telling.SendLoop.Stall.{failed_end-stalls}
use telling.SendLoop.{success, timedout, SendLoop, new_loop, Event, sends, ends, step, run}

abbrev calls : List (Call ℕ)
calls = pushes 1 ∷ pushes 2 ∷ pulls ∷ pushes 3 ∷ pulls ∷ []

pulled-calls : pulled empty_recv calls ≡ 1 ∷ 2 ∷ []
unfolding push pull
pulled-calls = refl

pull_empty : (pull (empty_recv {A = ℕ})).0 ≡ none
unfolding pull
pull_empty = refl

is_empty-clear_recv : is_empty {A = ℕ} (clear_recv (push 1 empty_recv)) ≡ true
unfolding is_empty clear_recv
is_empty-clear_recv = refl

-- Clearing a busy queue leaves it busy.
busy_cleared : (clear {A = ℕ} (produce 1 (record { deq = 2 ∷ []; busy = true })).1).busy ≡ true
unfolding clear produce
busy_cleared = refl

abbrev events : List (Event ℕ)
events = sends 1 ∷ sends 2 ∷ ends success ∷ sends 3 ∷ ends timedout ∷ sends 4 ∷ []

wire-deq-sent_example : accepted (run new_loop events) ≡ sent events
wire-deq-sent_example = wire-deq-sent events

wire_events : (run new_loop events).wire ≡ 1 ∷ 2 ∷ []
unfolding run
wire_events = refl

abbrev pending : SendLoop ℕ
pending = record { queue = record { deq = 2 ∷ []; busy = true }; in_flight = some 1; wire = 1 ∷ [] }

pending-Inv : Inv pending
pending-Inv = record { pending = λ ne. refl; queued = λ ne. refl }

failed_end-stalls_example :
    (run (step pending (ends timedout)) (sends 3 ∷ ends success ∷ sends 4 ∷ [])).wire ≡ pending.wire
failed_end-stalls_example =
    failed_end-stalls pending timedout (sends 3 ∷ ends success ∷ sends 4 ∷ []) (λ e. cc) pending-Inv
      (λ e. cc)
