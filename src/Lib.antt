-- ===== src/Lib.antt =====
-- A verification library for telling, C++ microservice patterns over NNG (include/telling and
-- src/telling). Messages have an HTTP-like text format: a start line, header lines, an empty line and
-- a body. Services register their paths with a server over pipes of nng, and the server routes
-- messages to them by prefix and publishes what comes and goes.
--
-- The message format:
--   Protocol, Method, Status: the elements of a start line (msg_protocol.h, msg_method.h, msg_status.h,
--     util/HttpStatusCodes_C++11.h), their names, parsers and tables.
--   Lines: namespace detail of msg_util.h; a pair of pointers is the text between them.
--   MsgError: the exceptions of msg_util.h as a result type. ErrorReply: the replies that describe
--     them (msg_util.cpp).
--   Layout: MsgLayout (msg_layout.h, msg_view.cpp). Layout/Parse is `_parse_msg`, Layout itself
--     `_setStartLine` and the ranges. Pointers into the message are offsets; the fields of 8 and 16
--     bits keep their wrap-around.
--   View: MsgView (msg_view.h), with MsgView::completion in View/Completion. Headers: MsgHeaderView and
--     MsgHeaders (msg_headers.h), with value_dec in Headers/Number.
--   Uri: Uri_ (msg_uri.h). Writer: MsgWriter (msg_writer.h, msg_writer.cpp); Writer/Release is what
--     completes a Content-Length and releases the message.
-- The server and its queues:
--   Pattern, HostAddress: pattern.h and host_address.h.
--   Socket: Socket, Communicator, Dial and Listen (socket.h, socket.cpp); Socket/Connectors are runs of
--     its calls, Socket/Pipes of the events of its pipes, Socket/Group communicators that share sockets.
--   Queue: RecvQueueMtx_ and SendQueueMtx_ (io_queue.h). SendLoop: AsyncSendLoop (async_loop.h) with
--     the AsyncSendQueue of async_queue.h, as steps on a state; SendLoop/Life has its handler and its end.
--   Services: Server::Services (server.h, server_services.cpp), as steps on a state; tsl::htrie_map is
--     the parameter `PrefixMap`, whose laws are `MapLaws`.
--   RecvLoop: AsyncRecvLoop with any handler, and AsyncRecvQueue; RecvLoop/Inbox is the Subscribe_Box of
--     client_subscribe.h and the Pull_Box of service_pull.h.
--   Outbox: Push and Publish with the queue of their boxes (client_push.h, service_publish.h), on a Socket
--     and a SendLoop.
--   QueuedIo: QueuedRecv_ and QueuedSend_ (io_queue.h), a queue with the AIO that fills or empties it.
--   Server: the handlers of PushPull, PubSub and ReqRep (server_pull.cpp, server_publish.cpp,
--     server_reply.cpp), on Services and a SendLoop; Server/Addresses is Server::open and Server::close.
--   Registration: the request and the delegate of a Registration (service_registration.cpp);
--     Registration/Opening and Registration/Refusal are the request with the registry.
-- The communicators of clients and services, as steps on a state with the calls that they make on
-- their handlers and on nng listed as effects:
--   Request: client_request.h and client_request.cpp; Request/Box is the delegate of Request_Box.
--   HttpClient: http_client.h and http_client.cpp. HttpClient itself is the callback on one action,
--     HttpClient/Queries the client with its actions.
--   Reply: service_reply.h and service_reply.cpp, with Reply_Box in Reply/Box and
--     initialize and the destructor in Reply/Life.
--   Reactor: Reactor::_handle (service_reactor.cpp), with the methods of a service as a parameter and
--     the place of the reply that they and the exceptions write (SendPrompt of async.h).
-- Apart from these:
--   Deposit: the Depository of deposit.h, whose expirations are a list in the order of the queue.
-- Prelude has the shared names, Tests the runs and each theorem at a concrete input.
--
-- A byte is its value from 0 to 255, and a message of nng is its bytes. Loops over a text have fuel:
-- `skip_headers` one round more than there are bytes, `read_headers` likewise, NumDigits and the
-- loops that print digits the number itself. The loop that prints a port has the room of its buffer.
-- The search for a claim number has fuel for the 2 ^ 32 numbers, as it ends at 0; the thread that
-- expires objects goes round once more than there are expirations.
--
-- The ids of contexts, the bytes of new space in a message, what a handler does with a message and the
-- results of operations are parameters or come with the events.
--
-- What C++ leaves undefined is a result of its own, `undefined`, or `none` for a run of the registry,
-- in which a pipe ends that is not registered.
--
-- Not modelled: what a writer holds after nng threw for want of room, nng itself (its sockets, pipes
-- and AIOs appear by the calls and events that the code sees), log output, the life of handlers beyond
-- whether one is alive at a call, the end of the range of query ids, and the named functors of afar.h,
-- whose table views texts that are gone when it is used. The operations of the depository are atomic
-- under its mutex. The classes that only combine communicators have no model of their own.
pub mod Prelude
pub mod Protocol
pub mod Lines
pub mod MsgError
pub mod Layout
pub mod View
pub mod Status
pub mod Method
pub mod Writer
mod Tests
pub mod Queue
pub mod SendLoop
pub mod RecvLoop
pub mod QueuedIo
pub mod Request
pub mod HttpClient
pub mod Reply
pub mod Pattern
pub mod HostAddress
pub mod Deposit
pub mod Socket
pub mod Headers
pub mod Uri
pub mod ErrorReply
pub mod Services
pub mod Outbox
pub mod Registration
pub mod Server
pub mod Reactor
