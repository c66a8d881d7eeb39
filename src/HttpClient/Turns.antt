-- ===== src/HttpClient/Turns.antt =====
-- The callback of an action that reads: of a chunk, and of the end of the send before.
use telling.HttpClient.Reading.{
  deliveries, Reading, Filled, is_whole, whole, received, conclude, turn-receive, conclude-part,
  conclude-whole,
}
use telling.HttpClient.{
  ActionState, send, success, Action, async_sent, realloc, completion_now, write_at, body_of,
  note_progress, receive, succeed, notify, turn_over, advance, turn,
}
use telling.Prelude.{
  ℕ, ◌+◌, true, false, Option, none, some, [], ◌∷◌, ◌++◌, Bytes, length, ◌≡◌, refl, sym, ap, ◌∙◌,
  subst, length-append,
}
use telling.View.Completion.{MsgCompletion}

module _ (blank : ℕ → Bytes) where
  note-Filled :
      (o : Option MsgCompletion) (body : Bytes) (a : Action)
      → a.res_completion.complete ≡ false
      → Filled blank a body
      → let (told, a') = note_progress blank o body a in
        deliveries told ≡ [] × a'.res_completion.complete ≡ is_whole blank o × Filled blank a' body
  unfolding note_progress
  note-Filled none body a incomplete f = (refl, incomplete, f)
  note-Filled (some comp) body a incomplete f =
      (refl, refl, record { receiving = f.receiving; counted = f.counted; filled = f.filled })

  receive-Filled :
      (a : Action) (before chunk : Bytes)
      → Reading blank a before
      → let o = completion_now blank (before ++ chunk) in
        let (told, a') = receive blank chunk a in
        deliveries told ≡ []
        × a'.res_completion.complete ≡ is_whole blank o
        × Filled blank a' (before ++ chunk)
  unfolding receive note_progress
  receive-Filled a before chunk r =
      let count = a.recv_count + length chunk in
      let body = realloc blank count (write_at blank a.recv_count chunk (body_of blank a.res)) in
      let e : body ≡ before ++ chunk =
        ap (λ n. realloc blank (n + length chunk) (write_at blank n chunk (body_of blank a.res)))
          r.counted
        ∙ received blank before chunk (body_of blank a.res) r.kept in
      let counted : count ≡ length body =
        ap (λ n. n + length chunk) r.counted
        ∙ sym (length-append before chunk)
        ∙ ap length (sym e) in
      let (silent, complete, f) =
        note-Filled (completion_now blank body) body
          (record a { recv_count = count; res = some body }) r.incomplete
          (record { receiving = r.receiving; counted = counted; filled = refl }) in
      (
        silent,
        complete ∙ ap (λ x. is_whole blank (completion_now blank x)) e,
        subst (Filled blank (receive blank chunk a).1) e f,
      )

  -- The callback for a chunk that does not complete the response.
  pub turn-part :
      (a : Action) (before chunk : Bytes)
      → whole blank (before ++ chunk) ≡ false
      → Reading blank a before
      → let (effects, a', stays) = turn blank true (success chunk) a in
        deliveries effects ≡ [] × stays ≡ true × Reading blank a' (before ++ chunk)
  turn-part a before chunk w r =
      let (silent, complete, f) = receive-Filled a before chunk r in
      let (told, a1) = receive blank chunk a in
      subst (λ t. deliveries t.0 ≡ [] × t.2 ≡ true × Reading blank t.1 (before ++ chunk))
        (sym (turn-receive blank a chunk r.receiving ∙ ap (conclude blank told a1) (complete ∙ w)))
        (conclude-part blank told a1 (before ++ chunk) silent (complete ∙ w) f)

  -- The callback for the chunk that completes it.
  pub turn-whole :
      (a : Action) (before chunk : Bytes)
      → whole blank (before ++ chunk) ≡ true
      → Reading blank a before
      → let (effects, a', stays) = turn blank true (success chunk) a in
        deliveries effects ≡ some (before ++ chunk) ∷ []
        × stays ≡ false
        × a'.res_completion.complete ≡ true
        × a'.res ≡ none
  turn-whole a before chunk w r =
      let (silent, complete, f) = receive-Filled a before chunk r in
      let (told, a1) = receive blank chunk a in
      subst
        (λ t.
          deliveries t.0 ≡ some (before ++ chunk) ∷ []
          × t.2 ≡ false
          × t.1.res_completion.complete ≡ true
          × t.1.res ≡ none)
        (sym (turn-receive blank a chunk r.receiving ∙ ap (conclude blank told a1) (complete ∙ w)))
        (conclude-whole blank told a1 (before ++ chunk) silent (complete ∙ w) f)

  turn-send :
      (a : Action) (chunk : Bytes)
      → a.state ≡ send
      → turn blank true (success chunk) a
        ≡ conclude blank
            (async_sent a.query_id ∷ [])
            (record a { req = none })
            a.res_completion.complete
  unfolding turn notify succeed
  turn-send a chunk s = rw s refl

  advance-send :
      (state : ActionState) (a : Action)
      → state ≡ send
      → let (effects, a', stays) = advance blank state a in
        deliveries effects ≡ [] × stays ≡ true × Reading blank a' []
  unfolding advance
  advance-send state a s =
      rw s (refl, refl, record { receiving = refl; counted = refl; kept = refl; incomplete = refl })

  -- The callback when the request has been sent.
  pub turn-sent :
      (a : Action) (chunk : Bytes)
      → a.state ≡ send
      → a.res_completion.complete ≡ false
      → let (effects, a', stays) = turn blank true (success chunk) a in
        deliveries effects ≡ [] × stays ≡ true × Reading blank a' []
  unfolding turn_over
  turn-sent a chunk s c =
      subst (λ t. deliveries t.0 ≡ [] × t.2 ≡ true × Reading blank t.1 [])
        (sym (
          turn-send a chunk s
          ∙ ap (conclude blank (async_sent a.query_id ∷ []) (record a { req = none })) c))
        (advance-send a.state (record a { req = none }) s)
