-- ===== src/QueuedIo.antt =====
-- include/telling/io_queue.h: QueuedRecv_ and QueuedSend_, a queue with the AIO that fills or empties
-- it. The same sending code stands in src/telling/service_reply.cpp.
pub mod Sending
pub mod Receiving
use telling.Prelude.{Bool, true, false, Option, none, some, List, [], ◌∷◌, ◌++◌}
use telling.Queue.{RecvQueue, empty_recv, push, pull, SendQueue, produce, consume, clear}
use telling.SendLoop.{AioResult, success, SendLoop, new_loop, transmit}

module _ {ℓ} {A : Type ℓ} where
  -- `QueuedSend_::send` on an open context, and the same code of `Reply::respondTo`.
  unfoldable pub send_or_enqueue : A → SendLoop A → SendLoop A
  unfolding produce transmit
  send_or_enqueue msg o =
      let (queued, q) = produce msg o.queue in
      elim queued [ true ↦ record o { queue = q } | false ↦ transmit msg (record o { queue = q }) ]

  -- "Transmit another message" or "AIO sequence completes".
  unfoldable pub send_next : Option A → SendLoop A → SendLoop A
  unfolding transmit
  send_next none o = o
  send_next (some next) o = transmit next o

  unfoldable pub sent_out : SendLoop A → SendLoop A
  unfolding consume send_next
  sent_out o =
      let (next, q) = consume o.queue in send_next next (record o { queue = q; in_flight = none })

  -- `QueuedSend_::_aioSent`, the end of the send of a message.
  unfoldable pub aio_sent : AioResult → Option A → SendLoop A → SendLoop A
  unfolding sent_out
  aio_sent result none o = o
  aio_sent success (some msg) o = sent_out o
  aio_sent result (some msg) o = record o { in_flight = none }

-- `QueuedSend_`: whether it has a context, and its queue with its AIO.
pub record QueuedSend {ℓ} (A : Type ℓ) : Type ℓ where
  pub is_open : Bool
  pub out : SendLoop A

-- What may happen to a QueuedSend_: its methods, and the end of a pending send.
pub data SendEvent {ℓ} (A : Type ℓ) : Type ℓ where
  opens closes : SendEvent A
  sends : A → SendEvent A
  ends : AioResult → SendEvent A

module _ {ℓ} {A : Type ℓ} where
  abbrev pub unopened : QueuedSend A
  unopened = record { is_open = false; out = new_loop }

  -- `close`: the AIO is stopped, and what waits is discarded.
  unfoldable pub close : QueuedSend A → QueuedSend A
  unfolding clear
  close s = record {
    is_open = false;
    out = record s.out { queue = clear s.out.queue; in_flight = none };
  }

  -- `open`: it has an AIO exactly while it is open.
  unfoldable pub open_if : Bool → QueuedSend A → QueuedSend A
  unfolding close
  open_if true s = record (close s) { is_open = true }
  open_if false s = record s { is_open = true }

  -- `send`: true if it takes the message, false if it throws "QueuedSend is not open."
  unfoldable pub send_if : Bool → A → QueuedSend A → Bool × QueuedSend A
  unfolding send_or_enqueue
  send_if false msg s = (false, s)
  send_if true msg s = (true, record s { out = send_or_enqueue msg s.out })

  unfoldable pub step : QueuedSend A → SendEvent A → QueuedSend A
  unfolding open_if close send_if aio_sent
  step s opens = open_if s.is_open s
  step s closes = close s
  step s (sends msg) = (send_if s.is_open msg s).1
  step s (ends result) = record s { out = aio_sent result s.out.in_flight s.out }

  unfoldable pub run : QueuedSend A → List (SendEvent A) → QueuedSend A
  unfolding step
  run s [] = s
  run s (e ∷ es) = run (step s e) es

-- `QueuedRecv_`: whether a receive is pending, and the queue.
pub record QueuedRecv {ℓ} (A : Type ℓ) : Type ℓ where
  pub receiving : Bool
  pub queue : RecvQueue A

-- The end of a receive, with its message or an error, and calls of `pull`, `close` and `open`.
pub data RecvEvent {ℓ} (A : Type ℓ) : Type ℓ where
  receives : A → RecvEvent A
  fails pulls closes_recv opens_recv : RecvEvent A

module _ {ℓ} {A : Type ℓ} where
  -- `open`
  abbrev pub opened : QueuedRecv A
  opened = record { receiving = true; queue = empty_recv }

  -- `QueuedRecv_::_aioReceived`, of a message or of an error.
  unfoldable pub aio_received : Option A → QueuedRecv A → QueuedRecv A
  unfolding push
  aio_received none r = record r { receiving = false }
  aio_received (some msg) r = record { receiving = true; queue = push msg r.queue }

  unfoldable pub received_if : Bool → Option A → QueuedRecv A → QueuedRecv A
  unfolding aio_received
  received_if true result r = aio_received result r
  received_if false result r = r

  -- `QueuedRecv_::close` and `open`, which leave the queue.
  unfoldable pub close_recv : QueuedRecv A → QueuedRecv A
  close_recv r = record r { receiving = false }

  unfoldable pub open_recv : QueuedRecv A → QueuedRecv A
  unfolding close_recv
  open_recv r = record (close_recv r) { receiving = true }

  -- An event, with what a call of `pull` returns.
  unfoldable pub recv_step : QueuedRecv A → RecvEvent A → Option A × QueuedRecv A
  unfolding received_if pull close_recv open_recv
  recv_step r (receives msg) = (none, received_if r.receiving (some msg) r)
  recv_step r fails = (none, received_if r.receiving none r)
  recv_step r pulls = let (front, q) = pull r.queue in (front, record r { queue = q })
  recv_step r closes_recv = (none, close_recv r)
  recv_step r opens_recv = (none, open_recv r)
