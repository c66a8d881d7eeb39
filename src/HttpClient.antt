-- ===== src/HttpClient.antt =====
-- include/telling/http_client.h and src/telling/http_client.cpp: HttpClient. As with Request, what the
-- code calls on its handler and its connections is listed as effects, in order.
pub mod Reading
pub mod Turns
pub mod Written
pub mod Responses
pub mod Failing
pub mod Queries
use telling.Layout.{reply}
use telling.MsgError.{Result, ok}
use telling.Prelude.Table.{find, erase, update}
use telling.Prelude.{
  ℕ, suc, ◌+◌, ◌-◌, Bool, true, false, not, ◌&&◌, ◌||◌, Option, none, some, List, [], ◌∷◌, ◌++◌,
  Bytes, length, take, drop, if◌then◌else◌,
}
use telling.View.{view, MsgView}
use telling.View.Completion.{MsgCompletion, no_completion, implicit, completion}

-- `ACTION_STATE`
pub data ActionState : Type 0 where
  idle connect send recv : ActionState

-- The results of an AIO that the callback tells apart, and what it has with success: nothing, or the
-- bytes that were read.
pub data HttpResult : Type 0 where
  success : Bytes → HttpResult
  connaborted connreset connshut closed canceled timedout other : HttpResult

-- `req`, `res` are null where they are none; `conn` is whether there is a connection.
pub record Action : Type 0 where
  pub query_id : ℕ
  pub state : ActionState
  pub req : Option Bytes
  pub res : Option Bytes
  pub conn : Bool
  pub res_completion : MsgCompletion
  pub recv_count : ℕ

pub data Effect : Type 0 where
  async_prep : ℕ → Bytes → Effect
  http_conn_open http_conn_close async_sent : ℕ → Effect
  async_response_progress : ℕ → MsgCompletion → Bytes → Effect
  async_recv : ℕ → Option Bytes → Effect
  async_error : ℕ → HttpResult → Effect
  starts_connect : ℕ → Effect
  conn_write : ℕ → Bytes → Effect
  conn_read : ℕ → Effect

-- `blank n` is the n bytes of new space in a message.
module _ (blank : ℕ → Bytes) where
  -- `realloc` of a message: its first `n` bytes, with new ones behind where it is shorter.
  unfoldable pub realloc : ℕ → Bytes → Bytes
  realloc n body = take n (body ++ blank (n - length body))

  -- The completion of what has been received, or none where the view throws.
  unfoldable pub completion_if : Result MsgView → Option MsgCompletion
  unfolding completion
  completion_if (ok v) = completion v
  completion_if _ = none

  unfoldable pub completion_now : Bytes → Option MsgCompletion
  unfolding view completion_if
  completion_now body = completion_if (view body reply)

  -- The bytes that `conn.read` has put behind the first `offset` ones.
  unfoldable pub write_at : ℕ → Bytes → Bytes → Bytes
  write_at offset chunk body = take offset body ++ chunk ++ drop (offset + length chunk) body

  abbrev pub body_of : Option Bytes → Bytes
  body_of none = []
  body_of (some body) = body

  -- The `try` block under RECV.
  unfoldable pub note_progress : Option MsgCompletion → Bytes → Action → List Effect × Action
  note_progress none body a = ([], a)
  note_progress (some comp) body a =
      (async_response_progress a.query_id comp body ∷ [], record a { res_completion = comp })

  -- `case RECV` of a read that succeeded.
  unfoldable pub receive : Bytes → Action → List Effect × Action
  unfolding realloc write_at note_progress completion_now
  receive chunk a =
      let count = a.recv_count + length chunk in
      let body = realloc count (write_at a.recv_count chunk (body_of a.res)) in
      note_progress (completion_now body) body (record a { recv_count = count; res = some body })

  -- The first part of `Action::_callback`: the effects, the action, and `disconnect`.
  unfoldable pub succeed : ActionState → Bytes → Action → List Effect × Action × Bool
  unfolding receive
  succeed connect chunk a = (http_conn_open a.query_id ∷ [], record a { conn = true }, false)
  succeed send chunk a = (async_sent a.query_id ∷ [], record a { req = none }, false)
  succeed recv chunk a = let (effects, a') = receive chunk a in (effects, a', false)
  succeed idle chunk a = ([], a, true)

  -- What cancels the query.
  unfoldable pub fail : HttpResult → Action → List Effect × Action × Bool
  fail error a =
      (async_error a.query_id error ∷ [], record a { res_completion = no_completion }, true)

  -- The four results of a connection that has ended.
  unfoldable pub hung_up : HttpResult → Action → List Effect × Action × Bool
  unfolding fail implicit
  hung_up error a = if implicit a.res_completion then ([], a, false) else fail error a

  unfoldable pub notify : Bool → HttpResult → Action → List Effect × Action × Bool
  unfolding succeed fail hung_up
  notify false result a = ([], a, true)
  notify true (success chunk) a = succeed a.state chunk a
  notify true connaborted a = hung_up connaborted a
  notify true connreset a = hung_up connreset a
  notify true connshut a = hung_up connshut a
  notify true closed a = hung_up closed a
  notify true result a = fail result a

  -- "Turn message over to handler"
  unfoldable pub deliver : Bool → Action → List Effect × Action
  unfolding implicit
  deliver has_handler a =
      if has_handler && (a.res_completion.complete || implicit a.res_completion)
      then (async_recv a.query_id a.res ∷ [], record a { res = none })
      else ([], a)

  -- "Disconnect" and "Clean up"
  unfoldable pub clean_up : Bool → Action → List Effect × Action
  clean_up has_handler a = (
    if a.conn && has_handler then http_conn_close a.query_id ∷ [] else [],
    record a { conn = false; req = none; res = none },
  )

  unfoldable pub turn_over : Bool → Bool → Action → List Effect × Action × Bool
  unfolding deliver clean_up
  turn_over has_handler false a = ([], a, false)
  turn_over has_handler true a =
      let (delivery, a') = deliver has_handler a in
      let (closing, a'') = clean_up has_handler a' in (delivery ++ closing, a'', true)

  -- The switch at the end, of an action that does not disconnect: what it does next, and whether it
  -- stays active.
  unfoldable pub advance : ActionState → Action → List Effect × Action × Bool
  unfolding realloc
  advance connect a = (conn_write a.query_id (body_of a.req) ∷ [], record a { state = send }, true)
  advance send a = (
    conn_read a.query_id ∷ [],
    record a {
      state = recv;
      recv_count = 0;
      res_completion = no_completion;
      res = some (blank 4096);
    },
    true,
  )
  advance recv a = (
    conn_read a.query_id ∷ [],
    record a { res = some (realloc (a.recv_count + 4096) (body_of a.res)) },
    true,
  )
  advance idle a = ([], record a { state = idle }, false)

  -- `Action::_callback` on its action.
  unfoldable pub turn : Bool → HttpResult → Action → List Effect × Action × Bool
  unfolding notify turn_over advance
  turn has_handler result a =
      let (told, a1, disconnect) = notify has_handler result a in
      let (over, a2, disconnects) =
        turn_over has_handler (disconnect || a1.res_completion.complete) a1 in
      let state = if disconnects then idle else a2.state in
      let (next, a3, stays) = advance state (record a2 { state = state }) in
      (told ++ over ++ next, a3, stays)
