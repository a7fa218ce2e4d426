-- ===== src/Natives/Sockets/Freed.antt =====
-- A socket that `DestroySocket` of src/impl/core/SocketManager.cpp deletes, and the functions that it
-- posted, some of which hold its bare address.
pub mod Shutting
pub mod Faulting
use sm_ext_socket.Base.{
  ℕ, ◌+◌, ◌≡◌, refl, sym, ap, subst, ◌∙◌, Bool, true, false, ◌&&◌, Option, none, some, List, [],
  ◌∷◌, ◌++◌, append_assoc, arith, if◌then◌else◌,
}
use sm_ext_socket.Base.Int.{ℤ, pos}
use sm_ext_socket.SocketTypes.{GlobalOptions}
use sm_ext_socket.SocketBase.{mark_deleted, destroy_base}
use sm_ext_socket.EventLoop.{EventLoop, post, on_async}
use sm_ext_socket.EventLoop.Drain.{on_async-post, on_async-post-post}
use sm_ext_socket.Uv
use sm_ext_socket.Uv.{UvCall, close, recv_stop, read_stop, Uv, post_job, close_once}
use sm_ext_socket.Tcp
use sm_ext_socket.Tcp.Control
use sm_ext_socket.Tcp.Stream
use sm_ext_socket.Udp
use sm_ext_socket.Udp.Handle
use sm_ext_socket.Udp.Datagrams
use sm_ext_socket.Unix
use sm_ext_socket.Natives.{returned, SourceMod, view_of, socket_send}
use sm_ext_socket.Natives.Texts.{View}
use sm_ext_socket.Natives.Sockets.{
  Socket, tcp_socket, udp_socket, unix_socket, Resolver, bytes_of, methods,
}
use sm_ext_socket.Natives.Sockets.Payloads.{payload, bytes_of-view_of, socket_send-send}
use sm_ext_socket.Natives.Sockets.Sending.{calls_of, events_of, Ready}

-- Whether a posted function captures `this`, which it then reads first.
abbrev pub tcp_captures : Tcp.Job → Bool
tcp_captures (Tcp.close_handles h a) = false
tcp_captures (Tcp.reset_handle h) = false
tcp_captures Tcp.start_listening = true
tcp_captures (Tcp.send_bytes text) = true

abbrev pub udp_captures : Udp.Job → Bool
udp_captures (Udp.close_handle h) = false
udp_captures Udp.start_listening = true
udp_captures (Udp.send_bytes text) = true

abbrev pub unix_captures : Unix.Job → Bool
unix_captures Unix.start_connecting = true
unix_captures (Unix.close_pipe h) = false
unix_captures (Unix.close_acceptor h) = false
unix_captures Unix.start_listening = true
unix_captures (Unix.send_bytes text) = true

-- What a run of the loop comes to. At a fault it has read freed memory.
pub data Drained : Type 0 where
  ran : Socket → Drained
  fault : Drained
  exhausted : Drained

-- A function that runs once its socket is deleted: `none` is a fault.
unfoldable pub run_freed :
    {S J : Type 0}
    → (J → Bool)
    → (J → Uv.World S J → Uv.World S J)
    → J
    → Option (Uv.World S J)
    → Option (Uv.World S J)
run_freed captures run j none = none
run_freed captures run j (some w) = if captures j then none else some (run j w)

abbrev pub drained :
    {S J : Type 0}
    → (Uv.World S J → Socket)
    → Option (EventLoop J × Option (Uv.World S J))
    → Drained
drained put none = exhausted
drained put (some (l, none)) = fault
drained put (some (l, some w)) = ran (put (record w { jobs = l }))

module _ (uv : Uv) (g : GlobalOptions) where
  -- `DestroySocket`: the mark, then the destructor.
  unfoldable pub destroy_object : Socket → Socket
  destroy_object (tcp_socket w) =
      tcp_socket (Tcp.Control.destroy_tcp uv g (record w { base = mark_deleted w.base }))
  destroy_object (udp_socket w) =
      udp_socket (Udp.Datagrams.destroy_udp uv g (record w { base = mark_deleted w.base }))
  destroy_object (unix_socket w) =
      unix_socket (Unix.destroy_unix uv g (record w { base = mark_deleted w.base }))

  -- `OnAsync` once the socket is deleted.
  unfoldable pub run_loop_freed : (somaxconn : ℕ) → Socket → Drained
  run_loop_freed somaxconn (tcp_socket w) =
      drained tcp_socket
        (on_async (run_freed tcp_captures (Tcp.Control.run_job uv g somaxconn)) w.jobs (some w))
  run_loop_freed somaxconn (udp_socket w) =
      drained udp_socket
        (on_async (run_freed udp_captures (Udp.Datagrams.run_job uv g)) w.jobs (some w))
  run_loop_freed somaxconn (unix_socket w) =
      drained unix_socket (on_async (run_freed unix_captures (Unix.run_job uv g)) w.jobs (some w))
