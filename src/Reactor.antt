-- ===== src/Reactor.antt =====
-- include/telling/service_reactor.h and src/telling/service_reactor.cpp: Reactor::_handle. The
-- virtual methods of a service are a parameter: what the one for a method's code does with a request.
-- An exception's excerpt of the message is one too. The mutex is held while a method runs.
pub mod Errors
use telling.ErrorReply.{msg_exception_reply, reply_with_error, plain_text}
use telling.Layout.{request}
use telling.Method
use telling.Method.{
  MethodCode, unknown, none, get, head, post, put, delete, patch, options, connect, trace,
  end_of_valid_methods,
}
use telling.MsgError.{MsgError, Result, ok, err}
use telling.Prelude.{
  ℕ, Bool, true, false, Option, none, some, List, [], ◌∷◌, ◌++◌, Bytes, codes, if◌then◌else◌,
}
use telling.Protocol.{MsgProtocol}
use telling.Status.StatusCode
use telling.Status.{reason_phrase}
use telling.Uri.{has_prefix}
use telling.View.{MsgView, view, uri_string, method_string}
use telling.Writer.RoundTrip.{write_reply}
use telling.Writer.{MsgWriter}

-- What `_handle` catches: a MsgException with its excerpt, another ReplyableException with its status
-- and message, an nng::exception with `what` and `who`, and any other exception with `what`.
pub data Thrown : Type 0 where
  msg_exception : MsgError → Bytes → Thrown
  replyable : ℕ → Bytes → Thrown
  nng_exception : Bytes → Bytes → Thrown
  std_exception : Bytes → Thrown

-- The calls of `query.reply` that a method makes, in their order, and what it throws then.
pub record Outcome : Type 0 where
  pub replies : List Bytes
  pub thrown : Option Thrown

abbrev pub silent : Outcome
silent = record { replies = []; thrown = Option.none }

abbrev pub throws : Thrown → Outcome
throws x = record { replies = []; thrown = some x }

-- SendPrompt::operator(): the message is moved to where the prompt points, over the one that is
-- there.
unfoldable pub prompt : Bytes → Option Bytes → Option Bytes
prompt msg slot = some msg

unfoldable pub prompts : List Bytes → Option Bytes → Option Bytes
unfolding prompt
prompts [] slot = slot
prompts (msg ∷ msgs) slot = prompts msgs (prompt msg slot)

-- The texts of the last two handlers.
unfoldable pub nng_text : Bytes → Bytes → Bytes → Bytes
nng_text uri_prefix what who =
    codes "NNG exception in `"
    ++ (uri_prefix ++ (codes "`:\r\n\t" ++ (what ++ (codes " -- " ++ who))))

unfoldable pub std_text : Bytes → Bytes → Bytes
std_text uri_prefix what = codes "C++ exception in `" ++ (uri_prefix ++ (codes "`:\r\n\t" ++ what))

unfoldable pub internal_error : Bytes → Result (Option Bytes × MsgWriter)
internal_error text =
    write_reply StatusCode.internal_server_error (reason_phrase StatusCode.internal_server_error)
      MsgProtocol.tell plain_text text

-- The reply of each `catch`.
unfoldable pub error_reply : Bytes → Thrown → Result (Option Bytes × MsgWriter)
unfolding nng_text std_text internal_error
error_reply uri_prefix (msg_exception error excerpt) = msg_exception_reply error excerpt uri_prefix
error_reply uri_prefix (replyable status message) = reply_with_error status message uri_prefix
error_reply uri_prefix (nng_exception what who) = internal_error (nng_text uri_prefix what who)
error_reply uri_prefix (std_exception what) = internal_error (std_text uri_prefix what)

unfoldable pub released : Result (Option Bytes × MsgWriter) → Option Bytes → Option Bytes
unfolding prompt
released (ok (some msg, w)) slot = prompt msg slot
released _ slot = slot

-- The `catch` clauses.
unfoldable pub caught : Bytes → Option Thrown → Option Bytes → Option Bytes
unfolding released error_reply
caught uri_prefix none slot = slot
caught uri_prefix (some x) slot = released (error_reply uri_prefix x) slot

-- The message that is left where `query.reply` points, which it does not for a push message.
unfoldable pub reply_of : Bool → Bytes → Outcome → Option Bytes
unfolding prompts caught
reply_of false uri_prefix o = Option.none
reply_of true uri_prefix o = caught uri_prefix o.thrown (prompts o.replies Option.none)

module _ (uri_prefix : Bytes) (methods : MethodCode → MsgView → Outcome)
    (excerpt : Bytes → Bytes) where
  -- `switch (method.code)`
  unfoldable pub dispatch : MethodCode → MsgView → Outcome
  dispatch connect v = silent
  dispatch none v = silent
  dispatch end_of_valid_methods v = silent
  dispatch code v = methods code v

  -- "Prefix check"
  unfoldable pub check_prefix : MsgView → Outcome
  unfolding dispatch
  check_prefix v =
      if has_prefix uri_prefix (uri_string v)
      then dispatch (Method.parse (method_string v)) v
      else throws (replyable StatusCode.bad_gateway uri_prefix)

  unfoldable pub handle_view : Bytes → Result MsgView → Outcome
  unfolding check_prefix
  handle_view msg (ok v) = check_prefix v
  handle_view msg (err e) = throws (msg_exception e (excerpt msg))
  handle_view msg _ = silent

  -- `_handle`, of a query that can be replied to or not.
  unfoldable pub handle : Bool → Bytes → Option Bytes
  unfolding handle_view reply_of
  handle has_reply msg = reply_of has_reply uri_prefix (handle_view msg (view msg request))
