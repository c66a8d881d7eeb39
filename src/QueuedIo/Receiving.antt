-- ===== src/QueuedIo/Receiving.antt =====
-- What a QueuedRecv_ hands out.
use telling.Prelude.{
  Bool, true, false, Option, none, some, List, [], ◌∷◌, ◌++◌, ◌≡◌, sym, ap, ◌∙◌, append_assoc,
  append-nil,
}
use telling.Queue.{push, pull}
use telling.QueuedIo.{
  QueuedRecv, RecvEvent, receives, fails, pulls, closes_recv, opens_recv, close_recv, open_recv,
  opened, aio_received, received_if, recv_step,
}

module _ {ℓ} {A : Type ℓ} where
  abbrev cons_some : Option A → List A → List A
  cons_some none rest = rest
  cons_some (some a) rest = a ∷ rest

  -- What the calls of `pull` return, and the state behind the events.
  abbrev pub handed_out : QueuedRecv A → List (RecvEvent A) → List A
  handed_out r [] = []
  handed_out r (e ∷ es) = cons_some (recv_step r e).0 (handed_out (recv_step r e).1 es)

  abbrev pub end_state : QueuedRecv A → List (RecvEvent A) → QueuedRecv A
  end_state r [] = r
  end_state r (e ∷ es) = end_state (recv_step r e).1 es

  -- The messages that arrive while a receive is pending: none after one fails or the queue is closed,
  -- until it is opened again.
  abbrev pub arrivals : Bool → List (RecvEvent A) → List A
  arrivals false [] = []
  arrivals false (opens_recv ∷ es) = arrivals true es
  arrivals false (_ ∷ es) = arrivals false es
  arrivals true [] = []
  arrivals true (receives msg ∷ es) = msg ∷ arrivals true es
  arrivals true (fails ∷ es) = arrivals false es
  arrivals true (closes_recv ∷ es) = arrivals false es
  arrivals true (opens_recv ∷ es) = arrivals true es
  arrivals true (pulls ∷ es) = arrivals true es

  received_front :
      (receiving : Bool) (deq : List A) (es : List (RecvEvent A))
      → let r : QueuedRecv A = record { receiving = receiving; queue = record { deq = deq } } in
        deq ++ arrivals receiving es ≡ handed_out r es ++ (end_state r es).queue.deq
  unfolding recv_step received_if aio_received push pull close_recv open_recv
  received_front true deq [] = append-nil deq
  received_front false deq [] = append-nil deq
  received_front true deq (receives msg ∷ es) =
      sym (append_assoc deq (msg ∷ []) (arrivals true es))
      ∙ received_front true (deq ++ msg ∷ []) es
  received_front false deq (receives msg ∷ es) = received_front false deq es
  received_front true deq (fails ∷ es) = received_front false deq es
  received_front false deq (fails ∷ es) = received_front false deq es
  received_front true deq (closes_recv ∷ es) = received_front false deq es
  received_front false deq (closes_recv ∷ es) = received_front false deq es
  received_front true deq (opens_recv ∷ es) = received_front true deq es
  received_front false deq (opens_recv ∷ es) = received_front true deq es
  received_front true [] (pulls ∷ es) = received_front true [] es
  received_front true (front ∷ rest) (pulls ∷ es) = ap (◌∷◌ front) (received_front true rest es)
  received_front false [] (pulls ∷ es) = received_front false [] es
  received_front false (front ∷ rest) (pulls ∷ es) = ap (◌∷◌ front) (received_front false rest es)

  -- From an opened QueuedRecv_, however it is closed and opened again: what the calls of `pull` return
  -- and then what is still queued are together the messages that arrived while a receive was pending, in
  -- their order; an error of any kind, a timeout included, ends the receiving until the next `open`.
  pub arrivals-handed_out :
      (es : List (RecvEvent A))
      → arrivals true es ≡ handed_out opened es ++ (end_state opened es).queue.deq
  arrivals-handed_out es = received_front true [] es
