-- ===== src/Natives/Sockets/Freed/Faulting.antt =====
-- A socket of src/impl/socket that is destroyed while a job that holds its address waits.
use sm_ext_socket.Base.{ℕ, ◌+◌, ◌≡◌, ap, ◌∙◌, true, none, some, List, arith}
use sm_ext_socket.Base.Int.{ℤ, pos}
use sm_ext_socket.SocketTypes.{GlobalOptions}
use sm_ext_socket.SocketBase.{mark_deleted}
use sm_ext_socket.EventLoop.{post, on_async}
use sm_ext_socket.EventLoop.Drain.{on_async-post-post}
use sm_ext_socket.Uv.{Uv, post_job}
use sm_ext_socket.Tcp
use sm_ext_socket.Tcp.Control
use sm_ext_socket.Udp
use sm_ext_socket.Udp.Handle
use sm_ext_socket.Udp.Datagrams
use sm_ext_socket.Unix
use sm_ext_socket.Natives.{returned, SourceMod, view_of, socket_send}
use sm_ext_socket.Natives.Texts.{View}
use sm_ext_socket.Natives.Sockets.{
  Socket, tcp_socket, udp_socket, unix_socket, Resolver, bytes_of, methods,
}
use sm_ext_socket.Natives.Sockets.Payloads.{payload, bytes_of-view_of, socket_send-send}
use sm_ext_socket.Natives.Sockets.Sending.{Ready}
use sm_ext_socket.Natives.Sockets.Freed.{
  tcp_captures, udp_captures, unix_captures, fault, drained, run_freed, destroy_object,
  run_loop_freed,
}
use sm_ext_socket.Natives.Sockets.Freed.Shutting.{acceptor_of, Shuts, any_Shuts}

module _ (uv : Uv) (g : GlobalOptions) (resolver : Resolver) (somaxconn : ℕ) where
  -- On an open socket `Send` answers true, and once the socket is deleted the loop faults.
  abbrev Faults : ℕ → View → Socket → Type 0
  Faults p v s =
      let c = methods uv g resolver in
      (c.is_open p s ≡ true)
      × ((s1 : Socket) × (c.send p v s ≡ some (s1, true))
          × (run_loop_freed uv g somaxconn (destroy_object uv g s1) ≡ fault))

  tcp_Faults :
      (p h : ℕ) (v : View) (text : List ℕ) (w : Tcp.World)
      → Ready uv g h (tcp_socket w)
      → acceptor_of (tcp_socket w) ≡ none
      → bytes_of v ≡ some text
      → Faults p v (tcp_socket w)
  unfolding methods run_loop_freed run_freed destroy_object Tcp.Control.is_open Tcp.Stream.send
      Tcp.Control.destroy_tcp Tcp.Control.disconnect post_job
  tcp_Faults p h v text w (live, at, active, (size, empty, unwrapped)) no_acceptor covered =
      let w1 : Tcp.World =
        post_job uv g (Tcp.send_bytes text) (record w { contexts = w.contexts + 1 }) in
      let w2 : Tcp.World =
        Tcp.Control.destroy_tcp uv g (record w1 { base = mark_deleted w1.base }) in
      let (l, run) =
        on_async-post-post (run_freed tcp_captures (Tcp.Control.run_job uv g somaxconn)) w.jobs
          (Tcp.send_bytes text) (Tcp.close_handles (some h) none) (some w2) size empty unwrapped in
      let posted : w2.jobs
          ≡ (post (post w.jobs (Tcp.send_bytes text)).0 (Tcp.close_handles (some h) none)).0 =
        ground (arith, at, no_acceptor) in
      (
        ground (arith, at, active),
        (
          tcp_socket w1,
          ground (arith, covered),
          ap
                (λ jobs. drained tcp_socket (
                  on_async (run_freed tcp_captures (Tcp.Control.run_job uv g somaxconn)) jobs
                    (some w2)))
                posted
              ∙ ap (drained tcp_socket) run,
        ),
      )

  udp_Faults :
      (p h : ℕ) (v : View) (text : List ℕ) (w : Udp.World)
      → Ready uv g h (udp_socket w)
      → acceptor_of (udp_socket w) ≡ none
      → bytes_of v ≡ some text
      → Faults p v (udp_socket w)
  unfolding methods run_loop_freed run_freed destroy_object Udp.Handle.is_open Udp.Datagrams.send
      Udp.Datagrams.send_to Udp.Datagrams.destroy_udp Udp.Handle.disconnect post_job
  udp_Faults p h v text w (live, at, connected, (size, empty, unwrapped)) no_acceptor covered =
      let w1 : Udp.World =
        post_job uv g (Udp.send_bytes text) (record w { contexts = w.contexts + 1 }) in
      let w2 : Udp.World =
        Udp.Datagrams.destroy_udp uv g (record w1 { base = mark_deleted w1.base }) in
      let (l, run) =
        on_async-post-post (run_freed udp_captures (Udp.Datagrams.run_job uv g)) w.jobs
          (Udp.send_bytes text) (Udp.close_handle h) (some w2) size empty unwrapped in
      let posted : w2.jobs ≡ (post (post w.jobs (Udp.send_bytes text)).0 (Udp.close_handle h)).0 =
        ground (arith, at, no_acceptor) in
      (
        ground (arith, at),
        (
          udp_socket w1,
          ground (arith, connected, covered),
          ap
                (λ jobs.
                  drained udp_socket
                    (on_async (run_freed udp_captures (Udp.Datagrams.run_job uv g)) jobs (some w2)))
                posted
              ∙ ap (drained udp_socket) run,
        ),
      )

  unix_Faults :
      (p h : ℕ) (v : View) (text : List ℕ) (w : Unix.World)
      → Ready uv g h (unix_socket w)
      → acceptor_of (unix_socket w) ≡ none
      → bytes_of v ≡ some text
      → Faults p v (unix_socket w)
  unfolding methods run_loop_freed run_freed destroy_object Unix.is_open Unix.send Unix.destroy_unix
      Unix.disconnect post_job
  unix_Faults p h v text w (live, at, (size, empty, unwrapped)) no_acceptor covered =
      let w1 : Unix.World =
        post_job uv g (Unix.send_bytes text) (record w { contexts = w.contexts + 1 }) in
      let w2 : Unix.World = Unix.destroy_unix uv g (record w1 { base = mark_deleted w1.base }) in
      let (l, run) =
        on_async-post-post (run_freed unix_captures (Unix.run_job uv g)) w.jobs
          (Unix.send_bytes text) (Unix.close_pipe h) (some w2) size empty unwrapped in
      let posted : w2.jobs ≡ (post (post w.jobs (Unix.send_bytes text)).0 (Unix.close_pipe h)).0 =
        ground (arith, at, no_acceptor) in
      (
        ground (arith, at),
        (
          unix_socket w1,
          ground (arith, at, covered),
          ap
                (λ jobs.
                  drained unix_socket
                    (on_async (run_freed unix_captures (Unix.run_job uv g)) jobs (some w2)))
                posted
              ∙ ap (drained unix_socket) run,
        ),
      )

  any_Faults :
      (p h : ℕ) (v : View) (text : List ℕ) (s : Socket)
      → Ready uv g h s
      → acceptor_of s ≡ none
      → bytes_of v ≡ some text
      → Faults p v s
  any_Faults p h v text (tcp_socket w) ready alone covered =
      tcp_Faults p h v text w ready alone covered
  any_Faults p h v text (udp_socket w) ready alone covered =
      udp_Faults p h v text w ready alone covered
  any_Faults p h v text (unix_socket w) ready alone covered =
      unix_Faults p h v text w ready alone covered

  -- On a live socket of any class that can send, has no acceptor and no job waiting: destroyed like
  -- that, the loop closes its handle once, unless it is closing already, and makes no event. If a
  -- plugin sends first, it gets true, and the libuv thread, if it runs the job only after the socket is
  -- destroyed, reads freed memory.
  pub socket_send-destroy_object :
      (sourcemod : SourceMod Socket) (handle : ℤ) (p h : ℕ) (memory text : List ℕ) (size : ℤ)
      (s : Socket)
      → sourcemod.read_handle handle s ≡ some p
      → Ready uv g h s
      → acceptor_of s ≡ none
      → payload memory size ≡ some text
      → Shuts uv g somaxconn h s
        × ((s1 : Socket) × (socket_send (methods uv g resolver) sourcemod handle memory size s
              ≡ (returned (pos 1), s1))
            × (run_loop_freed uv g somaxconn (destroy_object uv g s1) ≡ fault))
  socket_send-destroy_object sourcemod handle p h memory text size s good ready alone given =
      let (open_s, (s1, sent, faults)) =
        any_Faults p h (view_of memory size) text s ready alone
          (bytes_of-view_of memory size ∙ given) in
      (
        any_Shuts uv g somaxconn h s ready alone,
        (
          s1,
          socket_send-send (methods uv g resolver) sourcemod handle p memory size s s1 good open_s
              sent,
          faults,
        ),
      )
