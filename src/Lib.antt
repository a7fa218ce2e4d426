-- ===== src/Lib.antt =====
-- The socket extension: a SourceMod extension that gives plugins TCP, UDP and Unix sockets over libuv.
--
-- Two threads share the work. The game thread runs the plugins: their natives call the methods of the
-- sockets, and once in a frame it executes the callbacks that wait. The libuv thread runs the event
-- loop and its handlers. They talk through bounded queues with one producer and one consumer each: a
-- queue of jobs from the game thread to the libuv thread, and six queues of events back.
--
-- The parts, and the files that model them:
-- - Spsc: the ring of src/include/lockfree/SPSCQueue.h. `try_enqueue` and `try_dequeue` are composed
--   of the accesses `refresh_head`, `store`, `publish`, `refresh_tail`, `destroy` and `release`. A slot
--   is `none` while its storage is raw. Spsc/Layout says where the items lie, Spsc/Queue relates the
--   ring to a list, and Spsc/Interleaving lets two threads take turns between the accesses. One access
--   after the other is what the acquire and release order of the code lets the threads see.
-- - SocketTypes: src/include/socket/SocketTypes.h and src/impl/socket/SocketUtils.cpp.
-- - EventLoop: src/include/core/EventLoop.h and src/impl/core/EventLoop.cpp. A job is abstract. The
--   drain of the queue recurs on fuel, the capacity of the queue, which a queue's length stays below,
--   and nobody posts to the queue meanwhile. EventLoop/Threads cuts the methods of both threads at every
--   access and lets them take turns, so that jobs are posted while a drain runs, which takes them too;
--   libuv makes the moves that its documentation allows in `uv_run`: `uv_stop` wakes nobody.
-- - SocketBase: src/include/socket/SocketBase.h and src/impl/socket/SocketBase.cpp, for a system other
--   than Windows that has both watermark options.
-- - CallbackManager: src/include/lockfree/QueueTypes.h, src/include/core/CallbackManager.h and the
--   `Enqueue` methods and `HasPendingCallbacks` of src/impl/core/CallbackManager.cpp, with the heap
--   blocks of received data.
-- - Dispatch: the `Execute` methods of src/impl/core/CallbackManager.cpp, as programs over a heap of
--   sockets, which fault where they use what is not there. The host, SourceMod with its plugins, is a parameter that may do anything.
--   Dispatch/Frame is `ProcessPendingCallbacks`. Its loop recurs on fuel, a round more than the limit
--   of the frame, since every round but the last executes an event. Dispatch/Destroyed puts it
--   together with the socket manager, Dispatch/Delivery with the read handlers of the sockets.
--   Dispatch/Safety says who owns the blocks of received data, and Dispatch/Turns has the steps of
--   both threads at the queues.
-- - SocketManager: src/include/core/SocketManager.h and src/impl/core/SocketManager.cpp, the set of
--   sockets and the heap, generic in what a socket is.
-- - Uv: libuv as the sockets see it, and the state that their handlers act on. libuv is a parameter,
--   which answers each call from the calls made before; the calls are a list in the state. Handles
--   and requests are addresses that are given out once.
-- - Tcp: src/include/socket/TcpSocket.h and src/impl/socket/TcpSocket.cpp, Udp: UdpSocket.h and
--   UdpSocket.cpp there, Unix: UnixSocket.h and UnixSocket.cpp there. Each has a function for each
--   method, each handler and each posted job.
-- - Natives: src/natives/socket_natives.cpp, over an interface to the methods of the sockets and one to
--   SourceMod. Buffers are the plugin's memory from their first byte on. Natives/Sockets fills the
--   first interface with the three classes, for a state that is one socket and its loop, and
--   Natives/Sockets/Freed lets the loop run what a socket posted before it was destroyed.
-- - Extension: src/extension.cpp, over what SourceMod answers.
-- - Base: numbers, lists, masks and texts for all of these. Tests: concrete runs.
--
-- Numbers are natural or integer; the one difference of `size_t` that wraps is written out. Texts are
-- lists of character codes. Not modelled: the time that `Run` sleeps, and the memory
-- of a handle in the jobs that close it, which libuv's `OnClose` may have freed by then. libuv and SourceMod are libraries
-- that the sources call; the plugins' headers and scripts are not part of the extension.
pub mod Base
pub mod Spsc
pub mod SocketTypes
pub mod EventLoop
pub mod SocketBase
pub mod CallbackManager
pub mod SocketManager
pub mod Natives
pub mod Uv
pub mod Tcp
pub mod Unix
pub mod Udp
pub mod Dispatch
pub mod Extension
mod Tests
