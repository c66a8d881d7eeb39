-- ===== src/HttpClient/Reading.antt =====
-- How an HttpClient puts the response together from what it reads.
use telling.HttpClient.{
  ActionState, idle, recv, success, Action, Effect, async_recv, http_conn_close, conn_read, realloc,
  completion_now, write_at, body_of, receive, succeed, notify, deliver, clean_up, turn_over,
  advance, turn,
}
use telling.Prelude.{
  ℕ, ◌+◌, ◌-◌, Bool, true, false, ◌&&◌, Option, none, some, List, [], ◌∷◌, ◌++◌, Bytes, length,
  take, drop, if◌then◌else◌, ◌≡◌, refl, sym, ap, ◌∙◌, subst, arith, length-append, take-append,
  take-take, append_assoc, append-nil,
}
use telling.View.Completion.{MsgCompletion}

-- The messages given to the handler.
abbrev pub delivery : Effect → List (Option Bytes)
delivery (async_recv i msg) = msg ∷ []
delivery _ = []

abbrev pub deliveries : List Effect → List (Option Bytes)
deliveries [] = []
deliveries (e ∷ es) = delivery e ++ deliveries es

pub deliveries-append :
    (xs ys : List Effect) → deliveries (xs ++ ys) ≡ deliveries xs ++ deliveries ys
deliveries-append [] ys = refl
deliveries-append (x ∷ xs) ys =
    ap (λ l. delivery x ++ l) (deliveries-append xs ys)
    ∙ sym (append_assoc (delivery x) (deliveries xs) (deliveries ys))

module _ (blank : ℕ → Bytes) where
  -- Whether what has been received is a complete message.
  abbrev pub is_whole : Option MsgCompletion → Bool
  is_whole none = false
  is_whole (some comp) = comp.complete

  abbrev pub whole : Bytes → Bool
  whole body = is_whole (completion_now blank body)

  -- An action that waits for more of the response behind `before`.
  pub record Reading (a : Action) (before : Bytes) : Type 0 where
    pub receiving : a.state ≡ recv
    pub counted : a.recv_count ≡ length before
    pub kept : take (length before) (body_of blank a.res) ≡ before
    pub incomplete : a.res_completion.complete ≡ false

  joined :
      (before chunk rest : Bytes)
      → realloc blank (length before + length chunk) (before ++ chunk ++ rest) ≡ before ++ chunk
  unfolding realloc
  joined before chunk rest =
      let more = blank (length before + length chunk - length (before ++ chunk ++ rest)) in
      let parts : (before ++ chunk ++ rest) ++ more ≡ (before ++ chunk) ++ (rest ++ more) =
        grind (arith, append_assoc) in
      let counts = length-append before chunk in
      ap (take (length before + length chunk)) parts
      ∙ ap (λ n. take n ((before ++ chunk) ++ (rest ++ more))) (sym counts)
      ∙ take-append (before ++ chunk) (rest ++ more)

  pub received :
      (before chunk body : Bytes)
      → take (length before) body ≡ before
      → realloc blank (length before + length chunk) (write_at blank (length before) chunk body)
        ≡ before ++ chunk
  unfolding write_at
  received before chunk body kept =
      let rest = drop (length before + length chunk) body in
      ap (λ t. realloc blank (length before + length chunk) (t ++ chunk ++ rest)) kept
      ∙ joined before chunk rest

  -- The rest of the callback after its first part, of a handler that is alive.
  abbrev pub conclude : List Effect → Action → Bool → List Effect × Action × Bool
  conclude told a1 disconnect =
      let (over, a2, disconnects) = turn_over blank true disconnect a1 in
      let state = if disconnects then idle else a2.state in
      let (next, a3, stays) = advance blank state (record a2 { state = state }) in
      (told ++ over ++ next, a3, stays)

  pub turn-receive :
      (a : Action) (chunk : Bytes)
      → a.state ≡ recv
      → let (told, a') = receive blank chunk a in
        turn blank true (success chunk) a ≡ conclude told a' a'.res_completion.complete
  unfolding turn notify succeed
  turn-receive a chunk r = rw r refl

  -- What holds when the bytes that were read are in their place.
  pub record Filled (a : Action) (body : Bytes) : Type 0 where
    pub receiving : a.state ≡ recv
    pub counted : a.recv_count ≡ length body
    pub filled : a.res ≡ some body

  silenced :
      (told over next : List Effect)
      → deliveries told ≡ []
      → deliveries (told ++ over ++ next) ≡ deliveries over ++ deliveries next
  silenced told over next silent =
      deliveries-append (told ++ over) next
      ∙ ap (λ l. l ++ deliveries next) (deliveries-append told over)
      ∙ ap (λ l. (l ++ deliveries over) ++ deliveries next) silent

  advance-recv :
      (state : ActionState) (a : Action)
      → state ≡ recv
      → advance blank state a ≡ (
        conn_read a.query_id ∷ [],
        record a { res = some (realloc blank (a.recv_count + 4096) (body_of blank a.res)) },
        true,
      )
  unfolding advance
  advance-recv state a r = rw r refl

  enlarged : (body : Bytes) → take (length body) (realloc blank (length body + 4096) body) ≡ body
  unfolding realloc
  enlarged body = take-take body (blank (length body + 4096 - length body)) 4096

  pub conclude-part :
      (told : List Effect) (a : Action) (body : Bytes)
      → deliveries told ≡ []
      → a.res_completion.complete ≡ false
      → Filled a body
      → let (effects, a', stays) = conclude told a false in
        deliveries effects ≡ [] × stays ≡ true × Reading a' body
  unfolding turn_over
  conclude-part told a body silent incomplete f =
      subst (λ t. deliveries (told ++ [] ++ t.0) ≡ [] × t.2 ≡ true × Reading t.1 body)
        (sym (advance-recv a.state a f.receiving))
        (
          silenced told [] (conn_read a.query_id ∷ []) silent,
          refl,
          record {
            receiving = f.receiving;
            counted = f.counted;
            kept =
                ap (λ o. take (length body) (realloc blank (a.recv_count + 4096) (body_of blank o)))
                  f.filled
                ∙ ap (λ n. take (length body) (realloc blank (n + 4096) body)) f.counted
                ∙ enlarged body;
            incomplete = incomplete;
          },
        )

  deliver-complete :
      (a : Action)
      → a.res_completion.complete ≡ true
      → deliver blank true a ≡ (async_recv a.query_id a.res ∷ [], record a { res = none })
  unfolding deliver
  deliver-complete a c = ground arith

  abbrev pub closing : Action → List Effect
  closing a = if a.conn && true then http_conn_close a.query_id ∷ [] else []

  closing-silent :
      (conn : Bool) (i : ℕ) → deliveries (if conn && true then http_conn_close i ∷ [] else []) ≡ []
  closing-silent true i = refl
  closing-silent false i = refl

  pub conclude-whole :
      (told : List Effect) (a : Action) (body : Bytes)
      → deliveries told ≡ []
      → a.res_completion.complete ≡ true
      → Filled a body
      → let (effects, a', stays) = conclude told a true in
        deliveries effects ≡ some body ∷ []
        × stays ≡ false
        × a'.res_completion.complete ≡ true
        × a'.res ≡ none
  unfolding turn_over clean_up advance
  conclude-whole told a body silent complete f =
      subst
        (λ d.
          deliveries (told ++ (d.0 ++ closing d.1) ++ []) ≡ some body ∷ []
          × false ≡ false
          × d.1.res_completion.complete ≡ true
          × ◌≡◌ {A = Option Bytes} none none)
        (sym (deliver-complete a complete))
        (
          silenced told (async_recv a.query_id a.res ∷ closing a) [] silent
              ∙ append-nil (a.res ∷ deliveries (closing a))
              ∙ ap (◌∷◌ a.res) (closing-silent a.conn a.query_id)
              ∙ ap (λ r. r ∷ []) f.filled,
          refl,
          complete,
          refl,
        )
