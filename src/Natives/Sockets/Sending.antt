-- ===== src/Natives/Sockets/Sending.antt =====
-- From `SocketSend` of src/natives/socket_natives.cpp to the call of libuv, through the classes of
-- src/impl/socket and the event loop.
use sm_ext_socket.Base.{
  ℕ, ◌+◌, ◌≡◌, refl, ◌∙◌, true, false, some, List, [], ◌∷◌, ◌++◌, arith, if◌then◌else◌,
}
use sm_ext_socket.Base.Int.{ℤ, pos, nonzero}
use sm_ext_socket.SocketTypes.{SocketError, GlobalOptions}
use sm_ext_socket.CallbackManager.{CallbackManager, enqueue_error}
use sm_ext_socket.Spsc.Queue.{Represents}
use sm_ext_socket.EventLoop.{EventLoop}
use sm_ext_socket.EventLoop.Drain.{on_async-post}
use sm_ext_socket.Uv.{UvCall, write, udp_send, Uv, post_job}
use sm_ext_socket.Tcp
use sm_ext_socket.Tcp.Control
use sm_ext_socket.Tcp.Stream
use sm_ext_socket.Tcp.Stream.Sending.{run_send_lem}
use sm_ext_socket.Udp
use sm_ext_socket.Udp.Handle
use sm_ext_socket.Udp.Datagrams
use sm_ext_socket.Unix
use sm_ext_socket.Natives.{returned, SourceMod, view_of, socket_send}
use sm_ext_socket.Natives.Texts.{View}
use sm_ext_socket.Natives.Sockets.{
  Socket, tcp_socket, udp_socket, unix_socket, Resolver, bytes_of, methods, run_loop,
}
use sm_ext_socket.Natives.Sockets.Payloads.{payload, bytes_of-view_of, socket_send-send}

-- A loop with no job waiting.
abbrev pub Unoccupied : {J : Type 0} → EventLoop J → Type 0
Unoccupied l = (l.jobs.capacity ≡ 1024) × Represents l.jobs [] × (l.wrappers ≡ 0)

-- The call that hands the data to libuv.
abbrev pub transfer : ℕ → List ℕ → Socket → UvCall
transfer h text (udp_socket w) = udp_send h text w.own.connected_addr
transfer h text _ = write h text

abbrev pub calls_of : Socket → List UvCall
calls_of (tcp_socket w) = w.calls
calls_of (udp_socket w) = w.calls
calls_of (unix_socket w) = w.calls

abbrev pub events_of : Socket → CallbackManager
events_of (tcp_socket w) = w.events
events_of (udp_socket w) = w.events
events_of (unix_socket w) = w.events

abbrev pub self_of : Socket → ℕ
self_of (tcp_socket w) = w.self
self_of (udp_socket w) = w.self
self_of (unix_socket w) = w.self

module _ (uv : Uv) (g : GlobalOptions) where
  -- A live socket that can send on the handle `h`, with no job waiting.
  abbrev pub Ready : ℕ → Socket → Type 0
  Ready h (tcp_socket w) =
      (w.base.deleted ≡ false)
      × (w.own.socket ≡ some h)
      × (uv.is_active w.calls h ≡ true)
      × Unoccupied w.jobs
  Ready h (udp_socket w) =
      (w.base.deleted ≡ false)
      × (w.own.socket ≡ some h)
      × (w.own.is_connected ≡ true)
      × Unoccupied w.jobs
  Ready h (unix_socket w) = (w.base.deleted ≡ false) × (w.own.pipe ≡ some h) × Unoccupied w.jobs

  -- What comes of the call: nothing, or the error that libuv answered with.
  abbrev pub Handed : ℕ → List ℕ → Socket → Socket → Type 0
  Handed h text s s' =
      let call = transfer h text s in
      let code = uv.result (calls_of s) call in
      (calls_of s' ≡ calls_of s ++ call ∷ [])
      × (events_of s' ≡ (
          if nonzero code
          then enqueue_error g (self_of s) SocketError.send_error (uv.strerror code) (events_of s)
          else events_of s))

  module _ (resolver : Resolver) (somaxconn : ℕ) where
    -- On an open socket `Send` answers true, and the loop then hands the data over.
    abbrev Sends : ℕ → ℕ → View → List ℕ → Socket → Type 0
    Sends p h v text s =
        let c = methods uv g resolver in
        (c.is_open p s ≡ true)
        × ((s1 s2 : Socket) × (c.send p v s ≡ some (s1, true))
            × (run_loop uv g somaxconn s1 ≡ some s2)
            × Handed h text s s2)

    tcp_Sends :
        (p h : ℕ) (v : View) (text : List ℕ) (w : Tcp.World)
        → Ready h (tcp_socket w)
        → bytes_of v ≡ some text
        → Sends p h v text (tcp_socket w)
    unfolding methods run_loop Tcp.Control.is_open Tcp.Stream.send Tcp.Stream.run_send
        Tcp.Control.run_job post_job
    tcp_Sends p h v text w (live, at, active, (size, empty, unwrapped)) covered =
        let w1 : Tcp.World =
          post_job uv g (Tcp.send_bytes text) (record w { contexts = w.contexts + 1 }) in
        let (l, run) =
          on_async-post (Tcp.Control.run_job uv g somaxconn) w.jobs (Tcp.send_bytes text) w1 size
            empty unwrapped in
        let handed = run_send_lem uv g w1 h text live at in
        (
          ground (arith, at, active),
          (
            tcp_socket w1,
            tcp_socket (record (Tcp.Stream.run_send uv g text w1) { jobs = l }),
            ground (arith, covered),
            rw (run, run_loop) refl,
            (handed.0, handed.1),
          ),
        )

    udp_Sends :
        (p h : ℕ) (v : View) (text : List ℕ) (w : Udp.World)
        → Ready h (udp_socket w)
        → bytes_of v ≡ some text
        → Sends p h v text (udp_socket w)
    unfolding methods run_loop Udp.Handle.is_open Udp.Datagrams.send Udp.Datagrams.send_to
        Udp.Datagrams.run_send Udp.Datagrams.send_datagram Udp.Datagrams.run_job post_job
    udp_Sends p h v text w (live, at, connected, (size, empty, unwrapped)) covered =
        let w1 : Udp.World =
          post_job uv g (Udp.send_bytes text) (record w { contexts = w.contexts + 1 }) in
        let (l, run) =
          on_async-post (Udp.Datagrams.run_job uv g) w.jobs (Udp.send_bytes text) w1 size empty
            unwrapped in
        (
          ground (arith, at),
          (
            udp_socket w1,
            udp_socket (record (Udp.Datagrams.run_send uv g text w1) { jobs = l }),
            ground (arith, connected, covered),
            rw (run, run_loop) refl,
            (ground (arith, live, at), ground (arith, live, at)),
          ),
        )

    unix_Sends :
        (p h : ℕ) (v : View) (text : List ℕ) (w : Unix.World)
        → Ready h (unix_socket w)
        → bytes_of v ≡ some text
        → Sends p h v text (unix_socket w)
    unfolding methods run_loop Unix.is_open Unix.send Unix.run_send Unix.run_job post_job
    unix_Sends p h v text w (live, at, (size, empty, unwrapped)) covered =
        let w1 : Unix.World =
          post_job uv g (Unix.send_bytes text) (record w { contexts = w.contexts + 1 }) in
        let (l, run) =
          on_async-post (Unix.run_job uv g) w.jobs (Unix.send_bytes text) w1 size empty unwrapped in
        (
          ground (arith, at),
          (
            unix_socket w1,
            unix_socket (record (Unix.run_send uv g text w1) { jobs = l }),
            ground (arith, at, covered),
            rw (run, run_loop) refl,
            (ground (arith, live, at), ground (arith, live, at)),
          ),
        )

    any_Sends :
        (p h : ℕ) (v : View) (text : List ℕ) (s : Socket)
        → Ready h s
        → bytes_of v ≡ some text
        → Sends p h v text s
    any_Sends p h v text (tcp_socket w) ready covered = tcp_Sends p h v text w ready covered
    any_Sends p h v text (udp_socket w) ready covered = udp_Sends p h v text w ready covered
    any_Sends p h v text (unix_socket w) ready covered = unix_Sends p h v text w ready covered

    -- A plugin that sends on a live socket of any class, which can send and has no job waiting, gets
    -- true, and the next run of the loop hands libuv exactly the bytes that the plugin gave, once: those
    -- before the zero byte at size -1, and else as many as it says, where it has them. The one event
    -- that may come of it is the error with which libuv refuses them.
    pub socket_send-run_loop :
        (sourcemod : SourceMod Socket) (handle : ℤ) (p h : ℕ) (memory text : List ℕ) (size : ℤ)
        (s : Socket)
        → sourcemod.read_handle handle s ≡ some p
        → Ready h s
        → payload memory size ≡ some text
        → (s1 s2 : Socket) × (socket_send (methods uv g resolver) sourcemod handle memory size s
            ≡ (returned (pos 1), s1))
          × (run_loop uv g somaxconn s1 ≡ some s2)
          × Handed h text s s2
    socket_send-run_loop sourcemod handle p h memory text size s good ready given =
        let (open_s, (s1, s2, sent, run, handed)) =
          any_Sends p h (view_of memory size) text s ready (bytes_of-view_of memory size ∙ given) in
        (
          s1,
          s2,
          socket_send-send (methods uv g resolver) sourcemod handle p memory size s s1 good open_s
              sent,
          run,
          handed,
        )
