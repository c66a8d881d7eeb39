-- ===== src/Queue.antt =====
-- include/telling/io_queue.h: the queues that the asynchronous communicators share. Each method
-- holds the queue's mutex throughout, so it is one step.
pub mod Fifo
use telling.Prelude.{Bool, true, false, Option, none, some, List, [], ◌∷◌, ◌++◌}

-- `RecvQueueMtx_`
pub record RecvQueue {ℓ} (A : Type ℓ) : Type ℓ where
  pub deq : List A

-- `SendQueueMtx_`
pub record SendQueue {ℓ} (A : Type ℓ) : Type ℓ where
  pub deq : List A
  pub busy : Bool

module _ {ℓ} {A : Type ℓ} where
  abbrev pub empty_recv : RecvQueue A
  empty_recv = record { deq = [] }

  -- `RecvQueueMtx_::push`
  unfoldable pub push : A → RecvQueue A → RecvQueue A
  push msg q = record { deq = q.deq ++ msg ∷ [] }

  -- `RecvQueueMtx_::pull`: none on the empty queue.
  unfoldable pub pull : RecvQueue A → Option A × RecvQueue A
  pull q = elim q.deq [ [] ↦ (none, q) | front ∷ rest ↦ (some front, record { deq = rest }) ]

  -- `RecvQueueMtx_::clear`
  unfoldable pub clear_recv : RecvQueue A → RecvQueue A
  clear_recv q = record { deq = [] }

  -- `RecvQueueMtx_::empty`
  unfoldable pub is_empty : RecvQueue A → Bool
  is_empty q = elim q.deq [ [] ↦ true | front ∷ rest ↦ false ]

  abbrev pub idle : SendQueue A
  idle = record { deq = []; busy = false }

  -- `SendQueueMtx_::produce`: true if the message was queued, false if the caller keeps it.
  unfoldable pub produce : A → SendQueue A → Bool × SendQueue A
  produce msg q = elim q.busy [
    | true ↦ (true, record q { deq = q.deq ++ msg ∷ [] })
    | false ↦ (false, record q { busy = true })
  ]

  -- `SendQueueMtx_::consume`: none where the queue ceases to be busy.
  unfoldable pub consume : SendQueue A → Option A × SendQueue A
  consume q = elim q.deq [
    | [] ↦ (none, record q { busy = false })
    | front ∷ rest ↦ (some front, record q { deq = rest })
  ]

  -- `SendQueueMtx_::clear`, which leaves `_busy` as it is.
  unfoldable pub clear : SendQueue A → SendQueue A
  clear q = record q { deq = [] }
