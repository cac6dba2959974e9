-- ===== src/Lib.antt =====
-- binderd: a binder IPC server in user space, and the wire format that its clients share.
--
-- Clients connect to the server over a Unix socket and exchange messages (`Message`). A message
-- has a type, a cookie, a destination handle and a body; the body of a transaction is a packed
-- `TransactionData`. The server keeps a session per client and one registry, which says which
-- session owns which object handle, who holds references on it, and who is context manager and
-- monitor. A session reads messages through a `MessageParser` and runs a handler for each;
-- handlers write to their own session, to the session a transaction goes to, and to the
-- monitor. A client sends requests under cookies of its own and waits for the message that
-- answers each; what others send it goes to its objects. The service manager is an object of
-- the client that is context manager, and its proxy a user of another client.
--
-- Files, and the code they model:
-- - Buffer.antt: src/binderd/buffer.cpp. The C allocator is a parameter (`Allocator`) whose
--   laws say what malloc and realloc promise; `NeverFails` is the hypothesis that memory does
--   not run out.
-- - Writer.antt, Reader.antt: src/binderd/common/binary_writer.cpp and binary_reader.cpp, for a
--   little-endian machine. A writer's or reader's pointer is a position in the buffer's bytes.
-- - Message.antt: src/binderd/message.cpp; Message/Wire.antt has Pack and Unpack. Messages are
--   values: where the code shares a message, the model passes on the changed one.
-- - Parser.antt: src/binderd/message_parser.cpp with the loop that session and client run over
--   it, which Server/Lifecycle/Loop.antt and Client/Loop.antt join to their handlers.
-- - Status.antt: src/binderd/status.h.
-- - Transaction.antt: src/binderd/transaction_data.h and its implementations. What
--   TransactionDataFromMessage hands out are views of the message's body, so it is modelled by
--   positions in that body. Transaction/Carried.antt takes a payload through its message to the
--   receiver.
-- - Pool.antt: src/binderd/object_pool.cpp. Translator.antt: src/binderd/object_translator.cpp.
-- - Messenger.antt: src/binderd/socket_messenger.cpp, at what is handed to the socket and what
--   comes from it.
-- - Server.antt: State.antt is the state of src/binderd/registry.h, server_session.h and
--   sessions.h; Registry.antt is registry.cpp; Output.antt, Translate.antt, Handlers.antt and
--   Lifecycle.antt are server_session.cpp, with Sessions and ServerImpl::StartAccept in
--   Lifecycle.antt. Invariant.antt and what is below it prove the consistency of registry and
--   sessions.
-- - Client.antt: src/binderd/client_impl.h and client_impl.cpp. State.antt is the client's
--   state; Calls.antt has the pending calls and the queue, Incoming.antt OnNewMessage,
--   Requests.antt and Deaths.antt the requests to the server, Commands.antt
--   ProcessAndExecuteCommand and the tasks of the strand. A request that waits is cut in two:
--   up to the wait for its promise (`begin_...`), and from the message that the promise got
--   (`end_transact`, `read_status`).
-- - System.antt and what is below it: a client's request at the server and back, the status of
--   an object that a client called for another, and a death notice.
-- - Objects.antt: src/binderd/object.h, local_object.cpp and remote_object.cpp. Parcel.antt:
--   src/binderd/parcel_transaction_data_writer.cpp and parcel_transaction_data_reader.cpp.
-- - ServiceManager.antt: src/binderd/service_manager_service.cpp; its OnTransact is in
--   ServiceManager/Transact.antt, and src/binderd/service_manager_proxy.cpp in
--   ServiceManager/Proxy.antt.
-- - Examples.antt: the theorems on concrete inputs, and a concrete allocator.
--
-- Conventions. Exceptions are the result `err`, and an operation of the server or of a client
-- also returns the state in which it left it, so that what was done before an exception stays
-- done. `undefined` is the behaviour of an access outside the memory of a message, and what a
-- loop gives when its fuel is used up. A session keeps what it handed to its messenger, and
-- Messenger.antt says what the messenger does with it. Sessions are session ids; a session
-- object outlives its entry in the map of open sessions, as the shared pointers of the code let
-- it. A hash map is an association list whose order stands for the order of iteration. Handlers
-- run one after the other, as on one strand.
--
-- Promises of a client are numbers, and the map of those that were set outlives their calls, as
-- the threads that wait for them do. Objects are their addresses.
--
-- Fuel. The loops over MessageParser::Next get one round more than the buffer has bytes: each
-- round but the last consumes at least one byte, so that is enough. The proxy's loop over the
-- services gets the rounds that the caller names; it gives `none` where they are used up, and
-- the theorem on it says how many are enough.
--
-- Not modelled: the socket itself, the client's thread pool, the threads of the io services and
-- all locks, the socket file and the signals of the server, the command line and the daemon,
-- logging, and the libraries under external/. Of `std::wstring_convert` and of the objects that
-- a user of the library writes nothing is known: they are parameters, whose laws stand with the
-- theorems. That a buffer which was read is a view of memory that the next read reuses is not
-- modelled either.
pub mod Common
pub mod Buffer
pub mod Writer
pub mod Reader
pub mod Message
pub mod Parser
pub mod Status
pub mod Transaction
pub mod Pool
pub mod Translator
pub mod Messenger
pub mod Server
pub mod Client
pub mod System
pub mod Objects
pub mod Parcel
pub mod ServiceManager
pub mod Examples
