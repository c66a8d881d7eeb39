-- ===== src/Reactor/Errors.antt =====
-- What the client of a Reactor reads when something is thrown.
use telling.ErrorReply.{reply_status, error_body, context_text}
use telling.ErrorReply.Read.{
  plain_headers, reply_text_view, msg_exception_reply-view, reply_with_error-view,
}
use telling.Layout.{request, unknown}
use telling.Method.{MethodCode}
use telling.MsgError.{ok}
use telling.Prelude.{ℕ, ◌≤◌, ◌<◌, true, false, Option, none, some, ◌++◌, Bytes, ◌≡◌, refl, ap, ◌∙◌}
use telling.Protocol.{MsgProtocol}
use telling.Reactor.{
  Thrown, msg_exception, replyable, nng_exception, std_exception, Outcome, nng_text, std_text,
  internal_error, error_reply, prompt, prompts, released, caught, reply_of, handle_view, handle,
}
use telling.Status.StatusCode
use telling.Status.{reason_phrase}
use telling.View.Replies.{ReplyRead}
use telling.View.{MsgView, view}

-- The status and the text that describe what was thrown.
abbrev pub status_of : Thrown → ℕ
status_of (msg_exception error excerpt) = reply_status error
status_of (replyable status message) = status
status_of _ = StatusCode.internal_server_error

abbrev pub text_of : Bytes → Thrown → Bytes
text_of uri_prefix (msg_exception error excerpt) = error_body error excerpt uri_prefix
text_of uri_prefix (replyable status message) = context_text uri_prefix ++ message
text_of uri_prefix (nng_exception what who) = nng_text uri_prefix what who
text_of uri_prefix (std_exception what) = std_text uri_prefix what

-- Statuses that have at most three digits, as all that the program names.
abbrev pub AreDigits : Thrown → Type 0
AreDigits x = (0 < status_of x) × (status_of x ≤ 999)

pub record Described (uri_prefix : Bytes) (x : Thrown) (msg : Bytes) : Type 0 where
  pub seen : MsgView
  pub parses : view msg unknown ≡ ok seen
  pub reads :
      ReplyRead seen MsgProtocol.tell
        (status_of x)
        (reason_phrase (status_of x))
        plain_headers
        (text_of uri_prefix x)

released-error_reply :
    (uri_prefix : Bytes) (x : Thrown) (slot : Option Bytes)
    → AreDigits x
    → (msg : Bytes) × (released (error_reply uri_prefix x) slot ≡ some msg)
      × Described uri_prefix x msg
unfolding error_reply released prompt internal_error
released-error_reply uri_prefix (msg_exception error excerpt) slot d =
    let (msg, w, v, e, p, r) = msg_exception_reply-view error excerpt uri_prefix in
    (msg, ap (λ r. released r slot) e, record { seen = v; parses = p; reads = r })
released-error_reply uri_prefix (replyable status message) slot d =
    let (msg, w, v, e, p, r) = reply_with_error-view status message uri_prefix d.0 d.1 in
    (msg, ap (λ r. released r slot) e, record { seen = v; parses = p; reads = r })
released-error_reply uri_prefix (nng_exception what who) slot d =
    let (msg, w, v, e, p, r) =
      reply_text_view StatusCode.internal_server_error (nng_text uri_prefix what who) d.0 d.1 in
    (msg, ap (λ r. released r slot) e, record { seen = v; parses = p; reads = r })
released-error_reply uri_prefix (std_exception what) slot d =
    let (msg, w, v, e, p, r) =
      reply_text_view StatusCode.internal_server_error (std_text uri_prefix what) d.0 d.1 in
    (msg, ap (λ r. released r slot) e, record { seen = v; parses = p; reads = r })

module _ (uri_prefix : Bytes) (methods : MethodCode → MsgView → Outcome)
    (excerpt : Bytes → Bytes) where
  -- A request whose handling throws, because it does not parse, because its URI lacks the prefix of the
  -- reactor, or because the service's method does so, whatever replies it gave before: if the status is
  -- one of at most three digits, the one reply that is left for the client reads as a reply with the
  -- status and the description of what was thrown, in place of any that the method gave. A message
  -- without a reply leaves none.
  pub thrown-Described :
      (msg : Bytes) (x : Thrown)
      → (handle_view uri_prefix methods excerpt msg (view msg request)).thrown ≡ some x
      → AreDigits x
      → (reply : Bytes) × (handle uri_prefix methods excerpt true msg ≡ some reply)
        × (handle uri_prefix methods excerpt false msg ≡ none)
        × Described uri_prefix x reply
  unfolding handle reply_of caught
  thrown-Described msg x e d =
      let o = handle_view uri_prefix methods excerpt msg (view msg request) in
      let slot = prompts o.replies none in
      let (reply, left, read) = released-error_reply uri_prefix x slot d in
      (reply, ap (λ c. caught uri_prefix c slot) e ∙ left, refl, read)
