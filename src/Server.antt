-- ===== src/Server.antt =====
-- src/telling/server_pull.cpp, src/telling/server_publish.cpp and src/telling/server_reply.cpp: what
-- the server does with the messages of its clients. A message has the header that nng routes it by and
-- its body. The log, the relay between the two reply sockets and the life of handlers are left out.
pub mod Addresses
pub mod Answers
use telling.Layout.{request, report}
use telling.MsgError.{Result, ok}
use telling.Prelude.{
  ℕ, Bool, true, false, Option, none, some, List, [], ◌∷◌, ◌++◌, Bytes, codes, ◌==◌, if◌then◌else◌,
}
use telling.Protocol.{MsgProtocol}
use telling.SendLoop.{SendLoop, send_msg}
use telling.Services.{PrefixMap, Route, Services, route_message}
use telling.Status.StatusCode
use telling.Status.{reason_phrase, is_successful}
use telling.View.{MsgView, view, uri_string}
use telling.Writer.RoundTrip.{write_reply}
use telling.Writer.{MsgWriter}

pub record Msg : Type 0 where
  pub header : Bytes
  pub body : Bytes

-- What a handler has passed on: to the routes, in order, to the clients, by the send loop of
-- ReqRep with its queue, and to the subscribers.
pub record Transport : Type 0 where
  pub forwarded : List Msg
  pub rep_send : SendLoop Msg
  pub published : List Msg

-- The switch that writes the body of an error reply. What `default` leaves has no body.
unfoldable pub error_text : ℕ → Bytes → Bytes
error_text status uri =
    if status == StatusCode.not_found
    then codes "No service for URI `" ++ uri ++ codes "`"
    else if status == StatusCode.service_unavailable
    then codes "Service exists but forwarding failed."
    else []

-- `writer.startReply(status)`, the switch, and `writer.release()`.
unfoldable pub error_reply : ℕ → Bytes → Result (Option Bytes × MsgWriter)
unfolding error_text
error_reply status uri =
    write_reply status (reason_phrase status) MsgProtocol.tell [] (error_text status uri)

-- `async_recv(ServiceReplying, msg)`: "Forward reply to proper client".
unfoldable pub forward_reply : Msg → Transport → Transport
unfolding send_msg
forward_reply msg t = record t { rep_send = send_msg msg t.rep_send }

-- The reply with the request's nng header, where the writer releases one.
unfoldable pub send_error : Bytes → Result (Option Bytes × MsgWriter) → Transport → Transport
unfolding forward_reply
send_error header (ok (some body, w)) t = forward_reply (record { header = header; body = body }) t
send_error header _ t = t

unfoldable pub forward : Msg → Transport → Transport
forward msg t = record t { forwarded = t.forwarded ++ msg ∷ [] }

-- What follows `routeRequest`, whose route has taken the message if it was successful; a message that
-- is not sent is still there.
unfoldable pub conclude_request : ℕ → Bytes → Msg → Transport → Transport
unfolding is_successful forward send_error error_reply
conclude_request status uri msg t =
    if is_successful status then forward msg t else send_error msg.header (error_reply status uri) t

-- What follows `routePush`.
unfoldable pub conclude_push : ℕ → Msg → Transport → Transport
unfolding is_successful forward
conclude_push status msg t = if is_successful status then forward msg t else t

-- `PubSub::async_recv`: a message that is a report goes to the subscribers.
unfoldable pub publish_if : Result MsgView → Msg → Transport → Transport
publish_if (ok v) msg t = record t { published = t.published ++ msg ∷ [] }
publish_if _ msg t = t

unfoldable pub receive_report : Msg → Transport → Transport
unfolding publish_if view
receive_report msg t = publish_if (view msg.body report) msg t

module _ (m : PrefixMap Route) (s : Services m) (sends : Route → Bool) where
  -- `ReqRep::async_recv(ClientRequesting, msg)`, after the attempt to parse; a message that fails to
  -- is only logged.
  unfoldable pub handle_request : Result MsgView → Msg → Transport → Transport
  unfolding conclude_request route_message
  handle_request (ok v) msg t =
      conclude_request (route_message m sends (uri_string v) s) (uri_string v) msg t
  handle_request _ msg t = t

  unfoldable pub receive_request : Msg → Transport → Transport
  unfolding handle_request view
  receive_request msg t = handle_request (view msg.body request) msg t

  -- `PushPull::async_recv`
  unfoldable pub handle_push : Result MsgView → Msg → Transport → Transport
  unfolding conclude_push route_message
  handle_push (ok v) msg t = conclude_push (route_message m sends (uri_string v) s) msg t
  handle_push _ msg t = t

  unfoldable pub receive_push : Msg → Transport → Transport
  unfolding handle_push view
  receive_push msg t = handle_push (view msg.body request) msg t
