-- ===== src/Queue/Fifo.antt =====
-- The receive queue hands out what was pushed, in that order.
use telling.Prelude.{
  Option, none, some, List, [], ◌∷◌, ◌++◌, ◌≡◌, ap, ◌∙◌, sym, append_assoc, append-nil,
}
use telling.Queue.{RecvQueue, empty_recv, push, pull}

pub data Call {ℓ} (A : Type ℓ) : Type ℓ where
  pushes : A → Call A
  pulls : Call A

module _ {ℓ} {A : Type ℓ} where
  abbrev pub step : RecvQueue A → Call A → Option A × RecvQueue A
  step q (pushes a) = (none, push a q)
  step q pulls = pull q

  abbrev pub end_state : RecvQueue A → List (Call A) → RecvQueue A
  end_state q [] = q
  end_state q (c ∷ cs) = end_state (step q c).1 cs

  abbrev cons_some : Option A → List A → List A
  cons_some none rest = rest
  cons_some (some a) rest = a ∷ rest

  -- What the pulls return, and what the pushes put in, in order.
  abbrev pub pulled : RecvQueue A → List (Call A) → List A
  pulled q [] = []
  pulled q (c ∷ cs) = cons_some (step q c).0 (pulled (step q c).1 cs)

  abbrev pub pushed : List (Call A) → List A
  pushed [] = []
  pushed (pushes a ∷ cs) = a ∷ pushed cs
  pushed (pulls ∷ cs) = pushed cs

  pulled_front :
      (deq : List A) (cs : List (Call A))
      → deq ++ pushed cs
        ≡ pulled (record { deq = deq }) cs ++ (end_state (record { deq = deq }) cs).deq
  unfolding push pull
  pulled_front deq [] = append-nil deq
  pulled_front deq (pushes a ∷ cs) =
      sym (append_assoc deq (a ∷ []) (pushed cs)) ∙ pulled_front (deq ++ a ∷ []) cs
  pulled_front [] (pulls ∷ cs) = pulled_front [] cs
  pulled_front (front ∷ rest) (pulls ∷ cs) = ap (◌∷◌ front) (pulled_front rest cs)

  -- After any calls on an empty queue, what was pulled and then what is still queued are together
  -- all that was pushed, in the order of the pushes.
  pub pushed-pulled :
      (cs : List (Call A)) → pushed cs ≡ pulled empty_recv cs ++ (end_state empty_recv cs).deq
  pushed-pulled cs = pulled_front [] cs
