-- ===== src/Socket/Pipes.antt =====
-- Runs of a socket over the events of its pipes.
use telling.Socket.{
  Socket, PipeEvent, add_pre, add_post, rem_post, Effect, pipe_event, count_pipes, pipe_callback,
  handle_pipe, is_connected,
}
use telling.Prelude.{
  ℕ, suc, ◌+◌, ◌-◌, ◌%◌, ◌^◌, ◌↔◌, ◌<◌, true, some, List, [], ◌∷◌, ◌++◌, ◌≡◌, refl, ◌∙◌, ap, arith,
  map,
}

unfoldable pub run : List PipeEvent → Socket → Socket × List Effect
unfolding pipe_callback
run [] s = (s, [])
run (e ∷ events) s =
    let (s', effects) = pipe_callback true e s in
    let (end, later) = run events s' in (end, effects ++ later)

abbrev pub additions : List PipeEvent → ℕ
additions [] = 0
additions (add_pre ∷ events) = additions events
additions (add_post ∷ events) = suc (additions events)
additions (rem_post ∷ events) = additions events

abbrev pub removals : List PipeEvent → ℕ
removals [] = 0
removals (add_pre ∷ events) = removals events
removals (add_post ∷ events) = removals events
removals (rem_post ∷ events) = suc (removals events)

-- With so many pipes at the start, a pipe is only removed while there is one.
abbrev pub Alternates : ℕ → List PipeEvent → Type 0
Alternates n [] = Unit
Alternates n (add_pre ∷ events) = Alternates n events
Alternates n (add_post ∷ events) = Alternates (suc n) events
Alternates n (rem_post ∷ events) = (0 < n) × Alternates (n - 1) events

counted : List PipeEvent → ℕ → ℕ
unfolding count_pipes
counted [] n = n
counted (e ∷ events) n = counted events (count_pipes e n)

run-counted :
    (events : List PipeEvent) (s : Socket)
    → (run events s).0.pipe_count ≡ counted events s.pipe_count
unfolding run pipe_callback counted
run-counted [] s = refl
run-counted (e ∷ events) s = run-counted events (pipe_callback true e s).0

counted_lem :
    (events : List PipeEvent) (n : ℕ)
    → Alternates n events
    → n + additions events < 2 ^ 32
    → counted events n + removals events ≡ n + additions events
unfolding counted count_pipes
counted_lem [] n h l = refl
counted_lem (add_pre ∷ events) n h l = counted_lem events n h l
counted_lem (add_post ∷ events) n h l =
    let fits : suc n % 2 ^ 32 ≡ suc n = omega arith in
    let ih = counted_lem events (suc n) h (omega arith) in rw fits (omega (arith, ih))
counted_lem (rem_post ∷ events) n (p, h) l =
    let ih = counted_lem events (n - 1) h (omega arith) in omega (arith, ih)

handled :
    (events : List PipeEvent) (s : Socket) (handler : ℕ)
    → s.pipe_handler ≡ some handler
    → (run events s).1 ≡ map (pipe_event handler) events
unfolding run pipe_callback
handled [] s handler h = refl
handled (e ∷ events) s handler h =
    let ih = handled events (pipe_callback true e s).0 handler h in
    ap (λ x. handle_pipe x e ++ (run events (pipe_callback true e s).0).1) h
    ∙ ap (◌∷◌ (pipe_event handler e)) ih

-- Where a pipe is removed only after it was added and there are less than 2 ^ 32 of them, a socket
-- counts those that were added and not removed: it is connected exactly where there are more of the
-- former than of the latter. A handler that is alive is given every event, in order.
pub run-connected :
    (events : List PipeEvent) (s : Socket) (handler : ℕ)
    → s.pipe_handler ≡ some handler
    → Alternates s.pipe_count events
    → s.pipe_count + additions events < 2 ^ 32
    → ((run events s).0.pipe_count + removals events ≡ s.pipe_count + additions events)
      × ((is_connected (run events s).0 ≡ true)
          ↔ (removals events < s.pipe_count + additions events))
      × ((run events s).1 ≡ map (pipe_event handler) events)
unfolding is_connected
run-connected events s handler installed alternates small =
    let counts : (run events s).0.pipe_count + removals events ≡ s.pipe_count + additions events =
      rw (run-counted events s) (counted_lem events s.pipe_count alternates small) in
    (counts, ground (arith, counts), handled events s handler installed)
