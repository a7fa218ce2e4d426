-- ===== src/Natives/Sockets/Freed/Shutting.antt =====
-- A socket of src/impl/socket that is destroyed with no job waiting.
use sm_ext_socket.Base.{
  ℕ, ◌≡◌, ap, ◌∙◌, Option, none, some, List, [], ◌∷◌, ◌++◌, append_assoc, arith, if◌then◌else◌,
}
use sm_ext_socket.SocketTypes.{GlobalOptions}
use sm_ext_socket.SocketBase.{mark_deleted}
use sm_ext_socket.EventLoop.{post, on_async}
use sm_ext_socket.EventLoop.Drain.{on_async-post}
use sm_ext_socket.Uv.{UvCall, close, recv_stop, read_stop, Uv, post_job, close_once}
use sm_ext_socket.Tcp
use sm_ext_socket.Tcp.Control
use sm_ext_socket.Udp
use sm_ext_socket.Udp.Handle
use sm_ext_socket.Udp.Datagrams
use sm_ext_socket.Unix
use sm_ext_socket.Natives.Sockets.{Socket, tcp_socket, udp_socket, unix_socket}
use sm_ext_socket.Natives.Sockets.Sending.{calls_of, events_of, Ready}
use sm_ext_socket.Natives.Sockets.Freed.{
  tcp_captures, udp_captures, unix_captures, ran, drained, run_freed, destroy_object,
  run_loop_freed,
}

abbrev pub acceptor_of : Socket → Option ℕ
acceptor_of (tcp_socket w) = w.own.acceptor
acceptor_of (udp_socket w) = none
acceptor_of (unix_socket w) = w.own.acceptor

-- The calls that close the handle of a socket of this class.
abbrev pub closing : ℕ → Socket → List UvCall
closing h (tcp_socket w) = close h ∷ []
closing h (udp_socket w) = recv_stop h ∷ close h ∷ []
closing h (unix_socket w) = read_stop h ∷ close h ∷ []

module _ (uv : Uv) (g : GlobalOptions) (somaxconn : ℕ) where
  -- The loop of a socket that is deleted with no job waiting closes its handle, and does no more.
  abbrev pub Shuts : ℕ → Socket → Type 0
  Shuts h s =
      (s2 : Socket) × (run_loop_freed uv g somaxconn (destroy_object uv g s) ≡ ran s2)
      × (calls_of s2
          ≡ (if uv.is_closing (calls_of s) h then calls_of s else calls_of s ++ closing h s))
      × (events_of s2 ≡ events_of s)

  tcp_Shuts :
      (h : ℕ) (w : Tcp.World)
      → Ready uv g h (tcp_socket w)
      → acceptor_of (tcp_socket w) ≡ none
      → Shuts h (tcp_socket w)
  unfolding run_loop_freed run_freed destroy_object Tcp.Control.destroy_tcp Tcp.Control.disconnect
      Tcp.Control.run_job Tcp.Control.run_close close_once post_job
  tcp_Shuts h w (live, at, active, (size, empty, unwrapped)) no_acceptor =
      let w2 : Tcp.World = Tcp.Control.destroy_tcp uv g (record w { base = mark_deleted w.base }) in
      let (l, run) =
        on_async-post (run_freed tcp_captures (Tcp.Control.run_job uv g somaxconn)) w.jobs
          (Tcp.close_handles (some h) none) (some w2) size empty unwrapped in
      let posted : w2.jobs ≡ (post w.jobs (Tcp.close_handles (some h) none)).0 =
        ground (arith, at, no_acceptor) in
      (
        tcp_socket
            (record (Tcp.Control.run_job uv g somaxconn (Tcp.close_handles (some h) none) w2) {
              jobs = l;
            }),
        ap
              (λ jobs. drained tcp_socket (
                on_async (run_freed tcp_captures (Tcp.Control.run_job uv g somaxconn)) jobs
                  (some w2)))
              posted
            ∙ ap (drained tcp_socket) run,
        ground (arith, at, no_acceptor),
        ground (arith, at, no_acceptor),
      )

  udp_Shuts :
      (h : ℕ) (w : Udp.World)
      → Ready uv g h (udp_socket w)
      → acceptor_of (udp_socket w) ≡ none
      → Shuts h (udp_socket w)
  unfolding run_loop_freed run_freed destroy_object Udp.Datagrams.destroy_udp Udp.Handle.disconnect
      Udp.Datagrams.run_job Udp.Handle.run_close post_job
  udp_Shuts h w (live, at, connected, (size, empty, unwrapped)) no_acceptor =
      let w2 : Udp.World =
        Udp.Datagrams.destroy_udp uv g (record w { base = mark_deleted w.base }) in
      let (l, run) =
        on_async-post (run_freed udp_captures (Udp.Datagrams.run_job uv g)) w.jobs
          (Udp.close_handle h) (some w2) size empty unwrapped in
      let posted : w2.jobs ≡ (post w.jobs (Udp.close_handle h)).0 =
        ground (arith, at, no_acceptor) in
      (
        udp_socket (record (Udp.Datagrams.run_job uv g (Udp.close_handle h) w2) { jobs = l }),
        ap
              (λ jobs.
                drained udp_socket
                  (on_async (run_freed udp_captures (Udp.Datagrams.run_job uv g)) jobs (some w2)))
              posted
            ∙ ap (drained udp_socket) run,
        ground (arith, at, no_acceptor, append_assoc w.calls (recv_stop h ∷ []) (close h ∷ [])),
        ground (arith, at, no_acceptor),
      )

  unix_Shuts :
      (h : ℕ) (w : Unix.World)
      → Ready uv g h (unix_socket w)
      → acceptor_of (unix_socket w) ≡ none
      → Shuts h (unix_socket w)
  unfolding run_loop_freed run_freed destroy_object Unix.destroy_unix Unix.disconnect Unix.run_job
      Unix.run_close_pipe post_job
  unix_Shuts h w (live, at, (size, empty, unwrapped)) no_acceptor =
      let w2 : Unix.World = Unix.destroy_unix uv g (record w { base = mark_deleted w.base }) in
      let (l, run) =
        on_async-post (run_freed unix_captures (Unix.run_job uv g)) w.jobs (Unix.close_pipe h)
          (some w2) size empty unwrapped in
      let posted : w2.jobs ≡ (post w.jobs (Unix.close_pipe h)).0 =
        ground (arith, at, no_acceptor) in
      (
        unix_socket (record (Unix.run_job uv g (Unix.close_pipe h) w2) { jobs = l }),
        ap
              (λ jobs.
                drained unix_socket
                  (on_async (run_freed unix_captures (Unix.run_job uv g)) jobs (some w2)))
              posted
            ∙ ap (drained unix_socket) run,
        ground (arith, at, no_acceptor, append_assoc w.calls (read_stop h ∷ []) (close h ∷ [])),
        ground (arith, at, no_acceptor),
      )

  pub any_Shuts : (h : ℕ) (s : Socket) → Ready uv g h s → acceptor_of s ≡ none → Shuts h s
  any_Shuts h (tcp_socket w) ready alone = tcp_Shuts h w ready alone
  any_Shuts h (udp_socket w) ready alone = udp_Shuts h w ready alone
  any_Shuts h (unix_socket w) ready alone = unix_Shuts h w ready alone
