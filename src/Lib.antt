-- ===== src/Lib.antt =====
-- Verification of the examples of a repository for learning asynchronous network programming in C++:
-- servers and clients on Boost.Asio, gRPC and JsonCpp.
--
-- The program's parts, and the files that model them:
-- example/nqueen: a gRPC server counts the solutions of an n-queens board with some queens set
-- (nqueen_server.cc: Queens/Board, Queens/Server), and a client splits the board by the queen of its
-- first row, sends each task to a server, adds up the answers and compares them with those of a local
-- solver (nqueen_client.cc: Queens/Client, and its `main`: Queens/Main). Queens/Address has the
-- addresses of the servers, Queens/Balance the number of tasks of each, and Queens/Spec says what a
-- solution is.
-- example/logicServer: a TCP server. MsgNode.h and MsgNode.cc, the nodes of a message with its head of
-- two big-endian shorts, are Wire and Wire/Encode; CSession.cc is Logic/Reader (HandleRead, which cuts
-- the stream into messages) and Logic/Sender (Send and HandleWrite, the queue of outgoing messages);
-- LogicSystem.cc, the worker that answers received messages, is Logic/System; AsioServicePool.cc is
-- Logic/Pool; CServer.cc, the table of sessions, is Logic/Server. Logic/System/Wake has the threads
-- around the queue of LogicSystem.cc; Logic/Service has `Stop` of the pools (AsioServicePool.cc,
-- AsioThreadPool.cc) and the signal handler of logicServer.cc, and Logic/Singleton is Singleton.h.
-- jsonClient.cc is Logic/Client. Logic/Client/Answering is the interface of a server to it, which
-- Logic/Exchange fills with this server and Co/Exchange with that of example/BoostCoServer.
-- Logic/Traffic is the whole server, with all its sessions, the worker and the sockets.
--
-- example/BoostCoServer: the same server with a coroutine per session. CSession.cc is Co/Sender and
-- Co/Reader, LogicSystem.cc is Co/System, AsioServicePool.cc is Co/Pool and CServer.cc is Co/Server;
-- Co/Memory has the nodes of MsgNode.h, whose allocations are not cleared, and Co/Pool/Stop the signal
-- handler of boostCouroutineServer.cc. The rest is shared with the models of example/logicServer;
-- Co/Exchange has testClient.cc, whose requests and replies are those of jsonClient.cc, with the server.
--
-- example/webSocket: a chat over websockets. shared_state.cc and websocket_session.cc are Chat, and
-- the lives of the sessions, which the set's pointers do not prolong, in Chat/Life. A broadcast takes
-- its list of sessions under the lock and posts to them outside it, one in each step, so that
-- broadcasts of several threads interleave. The HTTP requests of http_session.cc are Http, with the
-- upgrade to a websocket in Http/Upgrade; listener.cc is Http/Listener and main.cc, which runs it until
-- a signal comes, Http/Main. Http/Whole joins the listener, the HTTP sessions and the websocket
-- sessions.
-- example/beastHttpServer: an HTTP server with a counter. The answers of beastHttpServer.cc are Beast,
-- the life of a connection, with its deadline, is Beast/Connection, and the accept loop with all
-- connections, the counter and `main` is Beast/Main.
-- example/coExample and websocket_server_coro.cc of example/webSocket: echo servers, in Echo. Their
-- clients are Echo/Blocking (coClient.cc, with the listener of coServer.cc) and Echo/Client
-- (websocket_client_coro.cc); Echo/Main has the `main`s of both in example/webSocket.
-- example/grpcExample: a greeting over gRPC, in Hello.
--
-- State is passed explicitly. An asynchronous operation that a handler starts is part of its result,
-- and its completion is a later call of the next handler; threads that share a lock are sequences of
-- steps in the order in which they take it. A write outside an allocation, a division by zero and the
-- front of an empty queue are outcomes of their own. A `short` or an `int` that wraps is its bit
-- pattern.
--
-- Fuel: the recursion over the rows of a board of n rows gets n + 1, and the loop of HandleRead one
-- more than the bytes that it has, since every round takes at least one; so does the loop of the
-- coroutine server. The results are about the values of these runs, not about fuel that happens to be
-- enough.
--
-- Parameters: the byte order of the host (Wire.Endian), the gRPC call, JsonCpp (Logic.System, Beast),
-- the uuids of sessions, the files that the HTTP session opens, and the clock. The clients of the TCP
-- servers copy the first two bytes of an `int`: how the machine stores one is a parameter, too
-- (Logic.Client). So is what `new char[n]` holds (Co.Memory). Where a `main` reads its arguments,
-- `make_address`, `std::atoi` and `std::stoi` are parameters (Http.Main, Echo.Main, Queens.Main).
--
-- Not modelled: generated protobuf and gRPC code; sockets; the making of threads, and the other `main`
-- functions, which construct the parts; printing and timing; and the demonstrations of single libraries
-- (example/jsonExample and example/protoExample), which are fixed calls of these.
pub mod Base
pub mod Queens
pub mod Wire
pub mod Logic
pub mod Co
pub mod Chat
pub mod Http
pub mod Beast
pub mod Echo
pub mod Hello
mod Tests
