-- ===== src/Reply/Box.antt =====
-- Reply_Box of src/telling/service_reply.cpp: one query is received and answered at a time. Its
-- delegate lives as long as it, and its `async_prep` leaves messages as they are.
use telling.Prelude.{
  ℕ, Bool, true, false, Option, none, some, List, ◌∷◌, Bytes, ◌==◌, ◌≡◌, ◌≢◌, refl, ap, arith,
}
use telling.Queue.{RecvQueue, push, pull}
use telling.QueuedIo.{send_or_enqueue}
use telling.Reply.{
  Reply, Responded, closed, inval, declined, taken, member, remove, claim, respond_prepped,
}

pub record ReplyBox : Type 0 where
  pub reply : Reply
  pub inbox : RecvQueue (ℕ × Bytes)
  pub current_query : ℕ

-- What `receive` comes to: it throws `closed` (not_ready) or `state` (must_respond), or returns false or a request.
pub data Received : Type 0 where
  not_ready must_respond nothing : Received
  request : Bytes → Received

-- What `respond` comes to: it throws `state` (must_receive), or what `respondTo` comes to.
pub data Answered : Type 0 where
  must_receive : Answered
  responded : Responded → Answered

-- `Delegate::async_recv`
unfoldable pub async_recv : ℕ → Bytes → ReplyBox → ReplyBox
unfolding push
async_recv q query b = record b { inbox = push (q, query) b.inbox }

unfoldable pub hand_over : Option (ℕ × Bytes) → ReplyBox → Received × ReplyBox
hand_over none b = (nothing, b)
hand_over (some (q, query)) b = (request query, record b { current_query = q })

unfoldable pub receive_idle : Bool → ReplyBox → Received × ReplyBox
unfolding pull hand_over
receive_idle false b = (must_respond, b)
receive_idle true b =
    let (front, inbox) = pull b.inbox in hand_over front (record b { inbox = inbox })

-- `receive`
unfoldable pub receive : Bool → ReplyBox → Received × ReplyBox
unfolding receive_idle
receive false b = (not_ready, b)
receive true b = receive_idle (b.current_query == 0) b

-- `respondTo` and, unless it throws, `current_query = 0`.
unfoldable pub answered : Responded × Reply → ReplyBox → Answered × ReplyBox
answered (closed, s) b = (responded closed, record b { reply = s })
answered (inval, s) b = (responded inval, record b { reply = s })
answered (result, s) b = (responded result, record b { reply = s; current_query = 0 })

unfoldable pub respond_current : Bool → Option Bytes → ReplyBox → Answered × ReplyBox
unfolding answered respond_prepped
respond_current true msg b = (must_receive, b)
respond_current false msg b = answered (respond_prepped msg b.current_query b.reply) b

-- `respond`; a null message is none.
unfoldable pub respond : Bool → Option Bytes → ReplyBox → Answered × ReplyBox
unfolding respond_current
respond false msg b = (responded closed, b)
respond true msg b = respond_current (b.current_query == 0) msg b

-- A box in which a query waits, that is still to be answered, as the next of its inbox.
module _ (b : ReplyBox) (q : ℕ) (query : Bytes) (rest : List (ℕ × Bytes)) where
  pub record Waiting : Type 0 where
    pub free : b.current_query ≡ 0
    pub first : b.inbox ≡ record { deq = (q, query) ∷ rest }
    pub named : q ≢ 0
    pub unanswered : member q b.reply.unresponded ≡ true

  pull-first : Waiting → pull b.inbox ≡ (some (q, query), record { deq = rest })
  unfolding pull
  pull-first w = rw w.first refl

  abbrev held : ReplyBox
  held = record b { inbox = record { deq = rest }; current_query = q }

  receive-Waiting : Waiting → receive true b ≡ (request query, held)
  unfolding receive receive_idle hand_over
  receive-Waiting w =
      let e : (b.current_query == 0) ≡ true = let f = w.free in ground arith in
      rw (e, pull-first w) refl

  held_named : Waiting → (q == 0) ≡ false
  held_named w = let n = w.named in ground arith

  respond-held :
      (msg : Bytes)
      → Waiting
      → respond true (some msg) held ≡ (
        responded taken,
        record held {
          reply = record b.reply {
            unresponded = remove q b.reply.unresponded;
            out = send_or_enqueue (q, msg) b.reply.out;
          };
          current_query = 0;
        },
      )
  unfolding respond respond_current respond_prepped claim answered
  respond-held msg w = rw (held_named w, w.unanswered) refl

  respond-null :
      Waiting → respond true none held ≡ (responded declined, record held { current_query = 0 })
  unfolding respond respond_current respond_prepped answered
  respond-null w = rw (held_named w) refl

  refused : Waiting → (receive true held).0 ≡ must_respond
  unfolding receive receive_idle
  refused w = rw (held_named w) refl

  -- Of a ready box that holds no query: `receive` hands out the first query of the inbox, and refuses
  -- another one before it is answered. A response goes, under that query, to the outbox, and frees the
  -- box. A null response frees the box too, but answers nothing, and the query stays unresponded.
  pub receive-respond :
      (msg : Bytes)
      → Waiting
      → let b1 = (receive true b).1 in
        (receive true b).0 ≡ request query
        × (receive true b1).0 ≡ must_respond
        × (respond true (some msg) b1).0 ≡ responded taken
        × (respond true (some msg) b1).1.reply.out ≡ send_or_enqueue (q, msg) b.reply.out
        × (respond true (some msg) b1).1.current_query ≡ 0
        × (respond true none b1).1.current_query ≡ 0
        × (respond true none b1).1.reply ≡ b.reply
  receive-respond msg w =
      let first = receive-Waiting w in
      let answer = respond-held msg w in
      let null = respond-null w in
      rw first (
        refl,
        refused w,
        ap (λ x. x.0) answer,
        ap (λ x. x.1.reply.out) answer,
        ap (λ x. x.1.current_query) answer,
        ap (λ x. x.1.current_query) null,
        ap (λ x. x.1.reply) null,
      )
