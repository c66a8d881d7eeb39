-- ===== src/HttpClient/Responses.antt =====
-- A response that an HttpClient reads in pieces.
use telling.HttpClient.Reading.{Reading, deliveries, deliveries-append, whole}
use telling.HttpClient.Turns.{turn-part, turn-whole, turn-sent}
use telling.HttpClient.{send, HttpResult, success, Action, Effect, turn}
use telling.Prelude.{
  ℕ, Bool, true, false, Option, none, some, List, [], ◌∷◌, ◌++◌, Bytes, map, if◌then◌else◌, ◌≡◌,
  refl, sym, ap, ◌∙◌, subst, Bool-cases, inl, inr,
}

module _ (blank : ℕ → Bytes) where
  -- The callback for results that come one after another, as long as the action is active.
  unfoldable pub turns : List HttpResult → Action → List Effect × Action × Bool
  turns [] a = ([], a, true)
  turns (result ∷ results) a =
      let (effects, a', stays) = turn blank true result a in
      let (later, a'', stays') = turns results a' in
      if stays then (effects ++ later, a'', stays') else (effects, a', false)

  -- What the handler should get: the bytes read so far, as soon as they are a complete message.
  abbrev pub first_whole : Bytes → List Bytes → Option Bytes
  first_whole before [] = none
  first_whole before (chunk ∷ chunks) =
      let later = first_whole (before ++ chunk) chunks in
      if whole blank (before ++ chunk) then some (before ++ chunk) else later

  abbrev pub delivered : Option Bytes → List (Option Bytes)
  delivered none = []
  delivered (some body) = some body ∷ []

  abbrev pub is_none : Option Bytes → Bool
  is_none none = true
  is_none (some body) = false

  pub turns-stays :
      (a : Action) (result : HttpResult) (results : List HttpResult)
      → let (effects, a', stays) = turn blank true result a in
        stays ≡ true
        → turns (result ∷ results) a
          ≡ (effects ++ (turns results a').0, (turns results a').1, (turns results a').2)
  unfolding turns
  turns-stays a result results h = rw h refl

  turns-last :
      (a : Action) (result : HttpResult) (results : List HttpResult)
      → let (effects, a', stays) = turn blank true result a in
        stays ≡ false → turns (result ∷ results) a ≡ (effects, a', false)
  unfolding turns
  turns-last a result results h = rw h refl

  abbrev Delivers : List Effect × Action × Bool → Option Bytes → Type 0
  Delivers t o = deliveries t.0 ≡ delivered o × t.2 ≡ is_none o

  turns-first_whole :
      (before : Bytes) (chunks : List Bytes) (a : Action)
      → Reading blank a before
      → Delivers (turns (map success chunks) a) (first_whole before chunks)
  unfolding turns
  turns-first_whole before [] a r = (refl, refl)
  turns-first_whole before (chunk ∷ chunks) a r =
      elim (Bool-cases (whole blank (before ++ chunk))) [
        | inl w ↦
            let (delivers, stays, complete, res) = turn-whole blank a before chunk w r in
            subst (λ o. Delivers (turns (map success (chunk ∷ chunks)) a) o)
              (ap (λ b. if b then some (before ++ chunk) else first_whole (before ++ chunk) chunks)
                (sym w))
              (subst (λ t. Delivers t (some (before ++ chunk)))
                (sym (turns-last a (success chunk) (map success chunks) stays)) (delivers, refl))
        | inr p ↦
            let (silent, stays, r') = turn-part blank a before chunk p r in
            let (effects, a', s) = turn blank true (success chunk) a in
            let (later, stays') = turns-first_whole (before ++ chunk) chunks a' r' in
            subst (λ o. Delivers (turns (map success (chunk ∷ chunks)) a) o)
              (ap (λ b. if b then some (before ++ chunk) else first_whole (before ++ chunk) chunks)
                (sym p))
              (subst (λ t. Delivers t (first_whole (before ++ chunk) chunks))
                (sym (turns-stays a (success chunk) (map success chunks) stays))
                (
                  deliveries-append effects (turns (map success chunks) a').0
                      ∙ ap (λ l. l ++ deliveries (turns (map success chunks) a').0) silent
                      ∙ later,
                  stays',
                ))
      ]

  -- With a handler, an action that is sending its request, and of which no response counts as complete
  -- yet, ends its send with success and reads the response in chunks of any sizes, and no read fails. The handler
  -- gets exactly one message, all bytes read until then in their order, as soon as these are a
  -- complete message, and then the action is done; before that it gets none, and the action reads on.
  pub response-first_whole :
      (a : Action) (sent : Bytes) (chunks : List Bytes)
      → a.state ≡ send
      → a.res_completion.complete ≡ false
      → let (effects, a', stays) = turns (map success (sent ∷ chunks)) a in
        deliveries effects ≡ delivered (first_whole [] chunks)
        × stays ≡ is_none (first_whole [] chunks)
  response-first_whole a sent chunks s c =
      let (silent, stays, r) = turn-sent blank a sent s c in
      let (effects, a', s') = turn blank true (success sent) a in
      let (later, stays') = turns-first_whole [] chunks a' r in
      subst (λ t. Delivers t (first_whole [] chunks))
        (sym (turns-stays a (success sent) (map success chunks) stays))
        (
          deliveries-append effects (turns (map success chunks) a').0
              ∙ ap (λ l. l ++ deliveries (turns (map success chunks) a').0) silent
              ∙ later,
          stays',
        )
