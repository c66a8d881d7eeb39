-- ===== src/Reply/Life.antt =====
-- Reply::initialize and the destructor of src/telling/service_reply.cpp, and Request::initialize of
-- src/telling/client_request.cpp, which installs its handler by the same tests.
use telling.Prelude.{ℕ, ◌+◌, Bool, true, false, Option, none, some, List, Bytes, ◌≡◌, ◌≤◌, arith}
use telling.Prelude.Table.{occurrences}
use telling.Reply.{Reply, Event, run, new_reply}
use telling.Reply.Places.{handed, places_once}

-- How a call of initialize ends.
pub data Initialized : Type 0 where
  installed : ℕ → Initialized
  busy closed : Initialized

-- `lock` of a weak pointer to a handler that is alive or not.
abbrev pub lock : Bool → Option ℕ → Option ℕ
lock true handler = handler
lock false handler = none

unfoldable pub install : Option ℕ → Option ℕ → Initialized
install (some current) new_handler = busy
install none none = closed
install none (some h) = installed h

-- `Reply::initialize`, whose communicator then is `new_reply`, and `Request::initialize`
unfoldable pub initialize : (alive new_alive : Bool) → Option ℕ → ℕ → Initialized
unfolding install
initialize alive new_alive handler h = install (lock alive handler) (lock new_alive (some h))

-- The contexts that the destructor closes; it stops both AIOs then.
abbrev pub destroy : Reply → List ℕ
destroy s = s.unresponded

module _ (ctx_id : ℕ → ℕ) (prep : ℕ → Bytes → Option Bytes)
    (answer : ℕ → Bytes → Option Bytes) where
  -- The destructor closes no context twice, nor one whose response is queued or with the transport.
  pub destroy-once :
      (injective : (i j : ℕ) → ctx_id i ≡ ctx_id j → i ≡ j) (es : List Event) (k : ℕ)
      → let s = (run ctx_id prep answer (new_reply ctx_id prep answer) es).1 in
        occurrences k (destroy s) + handed k s.out ≤ 1
  destroy-once injective es k = omega (arith, places_once ctx_id prep answer injective es k)
