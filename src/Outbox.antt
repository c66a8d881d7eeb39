-- ===== src/Outbox.antt =====
-- Push of include/telling/client_push.h and Publish of include/telling/service_publish.h, with the
-- queue that their boxes install: a socket and a loop that sends.
pub mod Accepted
use telling.Prelude.{ℕ, Bool, true, false, List, [], ◌∷◌, ◌++◌, if◌then◌else◌}
use telling.SendLoop.{SendLoop, AioResult, new_loop, send_msg, callback, step, sends, ends}
use telling.Socket.{Socket, is_ready}
use telling.Socket.Connectors

pub record Outbox {ℓ} (A : Type ℓ) : Type ℓ where
  pub socket : Socket
  pub loop : SendLoop A

-- How a call of push or publish ends.
pub data Pushed : Type 0 where
  accepted closed : Pushed

module _ {ℓ} {A : Type ℓ} where
  -- `Push_Box` or `Publish_Box` on a socket.
  abbrev pub box : Socket → Outbox A
  box socket = record { socket = socket; loop = new_loop }

  -- `push` and `publish`; the handler of a box is alive.
  unfoldable pub push : A → Outbox A → Pushed × Outbox A
  unfolding send_msg
  push msg b =
      if is_ready b.socket then (accepted, record b { loop = send_msg msg b.loop }) else (closed, b)

  -- The end of a send, if one is pending.
  unfoldable pub end_send : AioResult → Outbox A → Outbox A
  unfolding step
  end_send result b = record b { loop = step b.loop (ends result) }

  -- A call on the socket.
  unfoldable pub call_socket : Connectors.Call → Outbox A → Outbox A
  call_socket call b = record b { socket = (Connectors.step call b.socket).0 }
