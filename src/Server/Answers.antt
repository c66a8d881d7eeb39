-- ===== src/Server/Answers.antt =====
-- What clients get for the requests that they send to the server.
use telling.ErrorReply.Phrases.{reason_phrase-NotProtocol}
use telling.ErrorReply.Read.{length-to_string, NoNewline-contains_newline}
use telling.Layout.{request, unknown}
use telling.MsgError.{ok}
use telling.Prelude.{
  ℕ, ◌≤◌, ◌<◌, Bool, true, false, Option, none, some, [], ◌∷◌, Bytes, codes, length, ◌≡◌, ◌≢◌, refl,
  sym, subst, arith, length-append, if◌then◌else◌,
}
use telling.Protocol.{MsgProtocol}
use telling.Protocol
use telling.Server.{
  Msg, Transport, error_text, error_reply, forward_reply, send_error, forward, conclude_request,
  handle_request, receive_request,
}
use telling.Services.{PrefixMap, MapLaws, Route, Services, send_to, route_message}
use telling.Status.Reasons.{reason_phrase-Fits}
use telling.Status.StatusCode
use telling.Status.{is_successful, reason_phrase}
use telling.Status
use telling.Uri.{has_prefix}
use telling.View.Replies.{ReplyRead, reply_line}
use telling.View.{MsgView, view, uri_string}
use telling.Writer.RoundTrip.{write_reply-view, header_size}
use telling.Writer.{MsgWriter}

header_size-bare :
    (status : ℕ) (r : Bytes)
    → length r ≤ 128
    → header_size (reply_line MsgProtocol.tell status r) MsgProtocol.tell [] ≤ 0xFFFF
unfolding Protocol.to_string Protocol.preferred_newline
header_size-bare status r h =
    omega (arith, length-append (Status.to_string status) (b' ' ∷ r), length-to_string status)

-- What a client reads of an error reply.
pub record ErrorRead (status : ℕ) (uri msg : Bytes) : Type 0 where
  pub seen : MsgView
  pub parses : view msg unknown ≡ ok seen
  pub reads :
      ReplyRead seen MsgProtocol.tell status
        (reason_phrase status)
        (codes "\n")
        (error_text status uri)

error_reply_view :
    (status : ℕ) (uri : Bytes)
    → 0 < status
    → status ≤ 999
    → (msg : Bytes) × (w : MsgWriter) × (error_reply status uri ≡ ok (some msg, w))
      × ErrorRead status uri msg
unfolding error_reply Protocol.is_valid Protocol.preferred_newline
error_reply_view status uri pos top =
    let (one, short) = reason_phrase-Fits status in
    let (msg, w, v, written, parses, reads) =
      write_reply-view status (reason_phrase status) MsgProtocol.tell [] (error_text status uri) pos
        top (NoNewline-contains_newline (reason_phrase status) one) short
        (reason_phrase-NotProtocol status) refl tt
        (header_size-bare status (reason_phrase status) short) in
    (msg, w, written, record { seen = v; parses = parses; reads = reads })

module _ (m : PrefixMap Route) (s : Services m) (sends : Route → Bool) where
  -- A request that is refused with a status is answered with that status.
  refused-answered :
      (status : ℕ) (uri : Bytes) (msg : Msg) (t : Transport)
      → is_successful status ≡ false
      → 0 < status
      → status ≤ 999
      → (reply : Bytes) × (conclude_request status uri msg t
          ≡ forward_reply (record { header = msg.header; body = reply }) t)
        × ErrorRead status uri reply
  unfolding conclude_request send_error
  refused-answered status uri msg t refused pos top =
      let (reply, w, written, read) = error_reply_view status uri pos top in
      (reply, rw (refused, written) refl, read)

  -- The client is sent one reply, with the request's routing header, that reads as this status.
  pub record Refused (status : ℕ) (uri : Bytes) (msg : Msg) (t t' : Transport) : Type 0 where
    pub reply : Bytes
    pub sent : t' ≡ forward_reply (record { header = msg.header; body = reply }) t
    pub read : ErrorRead status uri reply

  conclude_request-Refused :
      (status : ℕ) (uri : Bytes) (msg : Msg) (t : Transport)
      → is_successful status ≡ false
      → 0 < status
      → status ≤ 999
      → Refused status uri msg t (conclude_request status uri msg t)
  conclude_request-Refused status uri msg t refused pos top =
      let (reply, answered, read) = refused-answered status uri msg t refused pos top in
      record { reply = reply; sent = answered; read = read }

  -- A route is registered at the longest path of the table that is a prefix of the URI.
  pub record Routes (uri : Bytes) (r : Route) : Type 0 where
    pub key : Bytes
    pub registered_at : m.find key s.map ≡ some r
    pub is_prefix : has_prefix key uri ≡ true
    pub is_longest :
        (k : Bytes) → has_prefix k uri ≡ true → m.find k s.map ≢ none → length k ≤ length key

  -- How a request for a URI is handled: by its route, if that can send, or by a refusal.
  pub data Handled (uri : Bytes) (msg : Msg) (t t' : Transport) : Type 0 where
    forwarded :
        (r : Route) → Routes uri r → sends r ≡ true → t' ≡ forward msg t → Handled uri msg t t'
    unavailable :
        (r : Route)
        → Routes uri r
        → sends r ≡ false
        → Refused StatusCode.service_unavailable uri msg t t'
        → Handled uri msg t t'
    not_found :
        ((k : Bytes) → has_prefix k uri ≡ true → m.find k s.map ≡ none)
        → Refused StatusCode.not_found uri msg t t'
        → Handled uri msg t t'

  module _ (laws : MapLaws m) where
    longest-Routes : (uri : Bytes) (r : Route) → m.longest_prefix uri s.map ≡ some r → Routes uri r
    longest-Routes uri r e =
        let (k, there, prefix, longest) = laws.longest_prefix-some uri s.map r e in
        record { key = k; registered_at = there; is_prefix = prefix; is_longest = longest }

    concluded_sent :
        (sent : Bool) (uri : Bytes) (msg : Msg) (t : Transport) (r : Route)
        → Routes uri r
        → sends r ≡ sent
        → Handled uri msg t (
            conclude_request
              (if sent then StatusCode.ok else StatusCode.service_unavailable)
              uri
              msg
              t)
    unfolding conclude_request is_successful
    concluded_sent true uri msg t r at can = forwarded r at can refl
    concluded_sent false uri msg t r at cannot = unavailable r at cannot (
        conclude_request-Refused StatusCode.service_unavailable uri msg t refl (omega arith)
          (omega arith))

    concluded :
        (x : Option Route) (uri : Bytes) (msg : Msg) (t : Transport)
        → m.longest_prefix uri s.map ≡ x
        → Handled uri msg t (conclude_request (send_to m sends x) uri msg t)
    unfolding send_to is_successful
    concluded none uri msg t e =
        not_found (laws.longest_prefix-none uri s.map e)
          (conclude_request-Refused StatusCode.not_found uri msg t refl (omega arith) (omega arith))
    concluded (some r) uri msg t e =
        concluded_sent (sends r) uri msg t r (longest-Routes uri r e) refl

    -- With a prefix map that keeps its laws, a request that parses is handled in one of three
    -- ways. If the longest registered path that is a prefix of its URI has a route that can send, the
    -- request is forwarded as it is, and nothing else is sent. If that route cannot send, the client
    -- gets one reply, with the request's routing header, that reads as a 503; if no registered path is
    -- a prefix, one that reads as a 404.
    pub request-handled :
        (msg : Msg) (t : Transport) (v : MsgView)
        → view msg.body request ≡ ok v
        → Handled (uri_string v) msg t (receive_request m s sends msg t)
    unfolding receive_request handle_request route_message
    request-handled msg t v parses =
        subst (λ r. Handled (uri_string v) msg t (handle_request m s sends r msg t)) (sym parses)
          (concluded (m.longest_prefix (uri_string v) s.map) (uri_string v) msg t refl)
