-- ===== src/Reply/Places.antt =====
-- Where a query of a Reply is: its context receives, it waits for a response, its response waits in
-- the outbox, or its response was given to the transport.
use telling.Prelude.Table.{
  entries_of, one_if, entries_of-append, occurrences, made_as, made_as-once,
}
use telling.Prelude.{
  ℕ, ◌+◌, ◌≤◌, Bool, true, false, Option, none, some, List, [], ◌∷◌, ◌++◌, Bytes, ◌==◌, ◌≡◌, refl,
  ap, arith,
}
use telling.Queue.{produce, consume}
use telling.QueuedIo.{send_or_enqueue, send_next, sent_out}
use telling.Reply.{
  Reply, member, insert_if, emplace, remove, claim, respond_prepped, aio_sent, receive_next,
  new_reply, respond_to, respond_tag, receive_query, aio_received, Event, receives, responds, sends,
  step, run,
}
use telling.SendLoop.{AioResult, success, SendLoop, transmit}

abbrev pub holds : ℕ → Option ℕ → ℕ
holds k none = 0
holds k (some q) = one_if (k == q)

abbrev pub handed : ℕ → SendLoop (ℕ × Bytes) → ℕ
handed k o = entries_of k o.queue.deq + entries_of k o.wire

abbrev pub places : ℕ → Reply → ℕ
places k s = holds k s.receiving + occurrences k s.unresponded + handed k s.out

pub occurrences-member : (k : ℕ) (js : List ℕ) → member k js ≡ false → occurrences k js ≡ 0
unfolding member
occurrences-member k [] h = refl
occurrences-member k (j ∷ js) h = let ih = occurrences-member k js in ground arith

member-occurrences : (k : ℕ) (js : List ℕ) → occurrences k js ≡ 0 → member k js ≡ false
unfolding member
member-occurrences k [] h = refl
member-occurrences k (j ∷ js) h = let ih = member-occurrences k js in ground arith

occurrences-insert :
    (k q : ℕ) (b : Bool) (js : List ℕ)
    → occurrences k (insert_if b q js) ≤ one_if (k == q) + occurrences k js
unfolding insert_if
occurrences-insert k q true js = omega arith
occurrences-insert k q false js = omega arith

occurrences-remove :
    (k q : ℕ) (js : List ℕ)
    → member q js ≡ true
    → occurrences k js ≡ one_if (k == q) + occurrences k (remove q js)
unfolding member remove
occurrences-remove k q [] h = cc
occurrences-remove k q (j ∷ js) h = let ih = occurrences-remove k q js in ground arith

entries_of-one :
    (k q : ℕ) (msg : Bytes) (l : List (ℕ × Bytes))
    → entries_of k (l ++ (q, msg) ∷ []) ≡ entries_of k l + one_if (k == q)
unfolding entries_of
entries_of-one k q msg l = let e = entries_of-append k l ((q, msg) ∷ []) in ground arith

handed-send :
    (k q : ℕ) (msg : Bytes) (o : SendLoop (ℕ × Bytes))
    → handed k (send_or_enqueue (q, msg) o) ≡ one_if (k == q) + handed k o
unfolding send_or_enqueue produce transmit
handed-send k q msg o =
    let queued = entries_of-one k q msg o.queue.deq in
    let wired = entries_of-one k q msg o.wire in ground arith

entries_of-cons :
    (k q : ℕ) (msg : Bytes) (l : List (ℕ × Bytes))
    → entries_of k ((q, msg) ∷ l) ≡ one_if (k == q) + entries_of k l
unfolding entries_of
entries_of-cons k q msg l = ground arith

handed-sent_deq :
    (k : ℕ) (deq wire : List (ℕ × Bytes)) (busy : Bool) (f : Option (ℕ × Bytes))
    → handed k (
        sent_out (record { queue = record { deq = deq; busy = busy }; in_flight = f; wire = wire }))
      ≡ entries_of k deq + entries_of k wire
unfolding sent_out consume send_next transmit
handed-sent_deq k [] wire busy f = refl
handed-sent_deq k ((q, msg) ∷ deq) wire busy f =
    omega (arith, entries_of-one k q msg wire, entries_of-cons k q msg deq)

handed-sent_out : (k : ℕ) (o : SendLoop (ℕ × Bytes)) → handed k (sent_out o) ≡ handed k o
handed-sent_out k o = handed-sent_deq k o.queue.deq o.wire o.queue.busy o.in_flight

module _ (ctx_id : ℕ → ℕ) (prep : ℕ → Bytes → Option Bytes)
    (answer : ℕ → Bytes → Option Bytes) where
  pub record Inv (s : Reply) : Type 0 where
    pub placed : (k : ℕ) → places k s ≤ made_as ctx_id k s.made

  claim-Inv :
      (q : ℕ) (msg : Bytes) (b : Bool) (s : Reply)
      → member q s.unresponded ≡ b
      → Inv s
      → Inv (claim b q msg s).1
  unfolding claim
  claim-Inv q msg false s m v = v
  claim-Inv q msg true s m v = record {
    placed = λ k.
        let p = v.placed k in
        omega (arith, handed-send k q msg s.out, occurrences-remove k q s.unresponded m);
  }

  respond_prepped-Inv :
      (o : Option Bytes) (q : ℕ) (s : Reply) → Inv s → Inv (respond_prepped o q s).1
  unfolding respond_prepped
  respond_prepped-Inv none q s v = v
  respond_prepped-Inv (some msg) q s v = claim-Inv q msg (member q s.unresponded) s refl v

  respond_to-Inv :
      (ready has_handler : Bool) (q : ℕ) (msg : Bytes) (s : Reply)
      → Inv s
      → Inv (respond_to ctx_id prep answer ready has_handler q msg s).2
  unfolding respond_to
  respond_to-Inv false has_handler q msg s v = v
  respond_to-Inv true false q msg s v = v
  respond_to-Inv true true q msg s v = respond_prepped-Inv (prep q msg) q s v

  respond_tag-Inv :
      (o : Option Bytes) (q : ℕ) (s : Reply) → Inv s → Inv (respond_tag ctx_id prep answer o q s).1
  unfolding respond_tag
  respond_tag-Inv none q s v = v
  respond_tag-Inv (some msg) q s v = respond_to-Inv true true q msg s v

  receive_next-Inv :
      (s : Reply) → s.receiving ≡ none → Inv s → Inv (receive_next ctx_id prep answer s).1
  unfolding receive_next
  receive_next-Inv s e v = record {
    placed =
        λ k. let p = v.placed k in let h : holds k s.receiving ≡ 0 = ap (holds k) e in omega arith;
  }

  claim_receiving :
      (b : Bool) (q : ℕ) (msg : Bytes) (s : Reply) → (claim b q msg s).1.receiving ≡ s.receiving
  unfolding claim
  claim_receiving true q msg s = refl
  claim_receiving false q msg s = refl

  prepped_receiving :
      (o : Option Bytes) (q : ℕ) (s : Reply) → (respond_prepped o q s).1.receiving ≡ s.receiving
  unfolding respond_prepped
  prepped_receiving none q s = refl
  prepped_receiving (some msg) q s = claim_receiving (member q s.unresponded) q msg s

  respond_tag_receiving :
      (o : Option Bytes) (q : ℕ) (s : Reply)
      → (respond_tag ctx_id prep answer o q s).1.receiving ≡ s.receiving
  unfolding respond_tag respond_to
  respond_tag_receiving none q s = refl
  respond_tag_receiving (some msg) q s = prepped_receiving (prep q msg) q s

  arrived-Inv :
      (q : ℕ) (s : Reply)
      → s.receiving ≡ some q
      → Inv s
      → Inv (record s { receiving = none; unresponded = emplace q s.unresponded })
  unfolding emplace
  arrived-Inv q s e v = record {
    placed = λ k.
        let p = v.placed k in
        let h : holds k s.receiving ≡ one_if (k == q) = ap (holds k) e in
        omega (arith, occurrences-insert k q (member q s.unresponded) s.unresponded);
  }

  receive_query-Inv :
      (q : ℕ) (query : Bytes) (s : Reply)
      → s.receiving ≡ some q
      → Inv s
      → Inv (receive_query ctx_id prep answer q query s).1
  unfolding receive_query
  receive_query-Inv q query s e v =
      let s1 = record s { receiving = none; unresponded = emplace q s.unresponded } in
      receive_next-Inv (respond_tag ctx_id prep answer (answer q query) q s1).1
        (respond_tag_receiving (answer q query) q s1)
        (respond_tag-Inv (answer q query) q s1 (arrived-Inv q s e v))

  aio_sent-Inv :
      (result : AioResult) (o : Option (ℕ × Bytes)) (s : Reply)
      → Inv s
      → Inv (aio_sent result o s).1
  unfolding aio_sent
  aio_sent-Inv result none s v = v
  aio_sent-Inv success (some (q, msg)) s v = record {
    placed = λ k. let p = v.placed k in omega (arith, handed-sent_out k s.out);
  }
  aio_sent-Inv _ (some (q, msg)) s v = record { placed = v.placed }

  dropped-Inv : (s : Reply) → Inv s → Inv (record s { receiving = none })
  dropped-Inv s v = record { placed = λ k. let p = v.placed k in omega arith }

  aio_received-Inv :
      (has_handler : Bool) (result : AioResult) (query : Bytes) (o : Option ℕ) (s : Reply)
      → s.receiving ≡ o
      → Inv s
      → Inv (aio_received ctx_id prep answer has_handler result query o s).1
  unfolding aio_received
  aio_received-Inv has_handler result query none s e v = v
  aio_received-Inv false result query (some q) s e v = dropped-Inv s v
  aio_received-Inv true success query (some q) s e v = receive_query-Inv q query s e v
  aio_received-Inv true _ query (some q) s e v = dropped-Inv s v

  step-Inv : (s : Reply) (e : Event) → Inv s → Inv (step ctx_id prep answer s e).1
  unfolding step
  step-Inv s (receives has_handler result query) v =
      aio_received-Inv has_handler result query s.receiving s refl v
  step-Inv s (responds ready has_handler q msg) v = respond_to-Inv ready has_handler q msg s v
  step-Inv s (sends result) v = aio_sent-Inv result s.out.in_flight s v

  run-Inv : (s : Reply) (es : List Event) → Inv s → Inv (run ctx_id prep answer s es).1
  unfolding run
  run-Inv s [] v = v
  run-Inv s (e ∷ es) v = run-Inv (step ctx_id prep answer s e).1 es (step-Inv s e v)

  new_reply-Inv : Inv (new_reply ctx_id prep answer)
  unfolding new_reply entries_of
  new_reply-Inv = receive_next-Inv _ refl (record { placed = λ k. omega arith })

  -- The numbers of nng being distinct, whatever queries arrive or fail to, and whatever responses are
  -- given to whatever ids, by the tag or later, declined or refused ones included, and sent or failed:
  -- no query is at once still received, waiting for a response, in the outbox or with the transport, nor
  -- twice in one of these places; so a query is never sent two responses.
  pub places_once :
      (injective : (i j : ℕ) → ctx_id i ≡ ctx_id j → i ≡ j) (es : List Event) (k : ℕ)
      → places k (run ctx_id prep answer (new_reply ctx_id prep answer) es).1 ≤ 1
  places_once injective es k =
      let s = (run ctx_id prep answer (new_reply ctx_id prep answer) es).1 in
      let p = (run-Inv (new_reply ctx_id prep answer) es new_reply-Inv).placed k in
      omega (arith, made_as-once ctx_id injective k s.made)
