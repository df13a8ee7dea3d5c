-- ===== src/Lib.antt =====
-- cppnetool: a network library of one event loop per thread, with a proxy on top of it.
--
-- Parts and how they interact. An `EventLoop` asks its `Poller` which descriptors are ready, and the
-- poller answers with `Channel`s, which dispatch what is ready to the callbacks of their owners: a
-- `TcpConnection`, which reads into one `Buffer` and writes out of another, or the `TimerQueue`,
-- which keeps the timers of the loop. A channel whose interest changes is updated in the poller.
-- A `TcpServer` keeps the connections that its `Acceptor` accepts, a `TcpClient` the one that its
-- `Connector` makes. The `Proxy` gives each connection of its server a `Session`, which passes on what
-- comes in there to a client, and back.
--
-- Files.
--   Prelude      helpers: tests on numbers, lists, slices of lists, `size_t`, maps, and `Result`,
--                in which an operation ends when an assertion fails or the vector is too large
--   Buffer       cppnetool/net/Buffer.h, Buffer.cc: the vector and its two indices. An operation
--                has the name of the function (`ensureWritableBytes` is `ensure_writable_bytes`);
--                Invariant, Append, Consume, ReadFd and Shrink are about one operation each,
--                and Refine about all against a queue of bytes
--   Channel      cppnetool/net/Channel.h, Channel.cc: Events is about the interest masks, Dispatch
--                about `handleEvent`
--   Poller       cppnetool/net/Poller.h, Poller.cc: `pollfds_`, `channels_` and the store of
--                channels; Update (with Added) and Ignored are about `updateChannel`, Remove and Removal about
--                `removeChannel`, Active about `fillActiveChannels`
--   SortedSet    `std::set` of pairs, as TimerQueue uses it
--   Timestamp    cppnetool/base/Timestamp.h, Timestamp.cc: Text is about `toString`
--   TimerQueue   cppnetool/net/Timer.h, TimerId.h, TimerQueue.h, TimerQueue.cc: Insert, Cancel,
--                Expire (with Deactivate) and Reset (with Outcome) are about one step each, Callbacks
--                (with Waiting) about what callbacks do to the queue, Round about `handleRead`
--   TcpConnection  cppnetool/net/TcpConnection.h, TcpConnection.cc: Send and Write are about
--                `send` and `handleWrite`, Stream about any sequence of events, Lifecycle about
--                the end of a connection
--   EventLoop    cppnetool/net/EventLoop.h, EventLoop.cc: the queue of functors. Steps has the
--                interleavings with other threads, Order and Wakeup what they keep, Drain one round;
--                Loop has the polling loop, Timers what goes to the timer queue
--   EventLoopThreadPool  cppnetool/net/EventLoopThreadPool.h, EventLoopThreadPool.cc
--   EventLoopThread  cppnetool/net/EventLoopThread.h, EventLoopThread.cc, with the mutex and the condition
--                of base: Handshake has the states of the two threads, Progress how they come to the end
--   Sockets      cppnetool/net/SocketOps.h, SocketOps.cc, Socket.cc, InetAddress.cc: Accepting is about
--                `accept`, Addresses about addresses as text
--   Connector    cppnetool/net/Connector.h, Connector.cc: Sockets is about one event, Steps about
--                any, Delay about the time between attempts
--   Acceptor     cppnetool/net/Acceptor.h, Acceptor.cc
--   TcpServer    cppnetool/net/TcpServer.h, TcpServer.cc: Keys is about the map, Registry about
--                `newConnection`, Removal about the two ways to remove a connection
--   TcpClient    cppnetool/net/TcpClient.h, TcpClient.cc: Connection is about its one connection,
--                Restart about the connector when this closes
--   LogStream    cppnetool/base/LogStream.h, LogStream.cc: Decimal and Width are about `convert`, Bounds
--                and Whole about the buffer
--   Session      proxy/Session.h, Session.cc: Relay has the events of the two connections, Carries is
--                about one of them, Forward and Writable (with Others) about one event, Run about any
--                sequence, Timeout about the two times, Close about the destructor
--   Proxy        proxy/Proxy.h, Proxy.cc and `getTcpClient` of proxy/ServerManager.cc: Accept is
--                about `onTcpServerConnection_`, Sessions about `processSession_`
--   Logging      cppnetool/base/Logging.h, Logging.cc: Basename and Clock are about the parts of a line,
--                Line about all of it, Output has `pidOutput` and `~Logger`
-- The modules called Examples apply the theorems at concrete inputs.
--
-- Numbers. Bytes, indices and descriptors are natural numbers; `size_t` arithmetic is modulo 2^64
-- and written out, and a vector holds at most 2^63 - 1 bytes. An `int` that can be negative is a
-- `ℤ`; the number of a server's next connection faults where it would leave the range of an `int`,
-- and that of a client's next connection, which is put into its name only, has no bound. Pointers are numbers, and a store maps them to objects. Loops run over lists and need no
-- fuel, except that `convert` is given 20 rounds, one for each digit that 64 bits can need.
--
-- What is not modelled. What a system call returns is an argument of the operation that makes it.
-- The lines of the log that the other parts write are left out, but for the errors of a connection. Every operation runs in the
-- thread of its loop, but for `queue_in_loop` and `run_in_loop`, which tell the two cases apart; in the
-- interleavings `queueInLoop` is two steps, its push and its wakeup. What the callbacks of channels do is
-- an argument of the polling loop, and so is `loopCallback_`. Calls of the system whose result is only
-- logged, or not looked at, are not part of this development, nor are the printing of floating point
-- numbers, the compiler intrinsics of base/Atomic.h and the threads but for their start. The maps of
-- requests and responses of proxy/ServerManager.h are reached from no caller.
pub mod Prelude
pub mod Buffer
pub mod Channel
pub mod Poller
pub mod SortedSet
pub mod Timestamp
pub mod TimerQueue
pub mod TcpConnection
pub mod EventLoop
pub mod Connector
pub mod EventLoopThreadPool
pub mod LogStream
pub mod TcpServer
pub mod TcpClient
pub mod Acceptor
pub mod Session
pub mod Proxy
pub mod Logging
pub mod Sockets
pub mod EventLoopThread
