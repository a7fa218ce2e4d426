-- ===== src/Tests/Connections.antt =====
-- Concrete runs of the handlers of src/impl/socket/TcpSocket.cpp.
use sm_ext_socket.Base.{◌≡◌, refl, true, none, some, [], ◌∷◌, ◌++◌, map, arith}
use sm_ext_socket.Base.Int.{pos}
use sm_ext_socket.Base.Text.{codes}
use sm_ext_socket.SocketTypes.{SocketError, linger}
use sm_ext_socket.SocketBase.{get_option, SockOpt, set_linger, sock_opt, pending_calls, new_base}
use sm_ext_socket.CallbackManager.{enqueue_error}
use sm_ext_socket.Spsc.{new}
use sm_ext_socket.Spsc.Queue.{Represents, new-Represents}
use sm_ext_socket.EventLoop.{EventLoop, fresh, on_async}
use sm_ext_socket.Uv.{Uv, close, tcp_init, tcp_bind}
use sm_ext_socket.Tcp.{World, Job, send_bytes, new_tcp}
use sm_ext_socket.Uv.Calls.{closes}
use sm_ext_socket.Tcp.Connecting.{init_socket, on_resolved, on_connect, on_connect_timeout}
use sm_ext_socket.Tcp.Connecting.Timeout.{on_connect-on_connect_timeout}
use sm_ext_socket.Tcp.Stream.{send}
use sm_ext_socket.Tcp.Stream.Lost.{send-disconnect}
use sm_ext_socket.Tcp.Stream.Sending.{send_lem}
use sm_ext_socket.Tcp.Control.{set_option, disconnect, run_job}
use sm_ext_socket.Tcp.Control.Deferred.{on_fd, set_option-init_socket}
use sm_ext_socket.Tcp.Control.Unbound.{asked, on_connect-on_resolved}
use sm_ext_socket.Tests.{globals, uv, address, result, new_world, connecting}

on_connect-on_connect_timeout_example :
    let w = on_connect uv globals uv.ecanceled (on_connect_timeout uv globals 8 connecting) in
    (w.events
      ≡ enqueue_error globals 1 SocketError.connect_error
          (codes "Connection timed out")
          connecting.events)
    × (w.calls ≡ close 7 ∷ close 8 ∷ [])
    × (w.own.socket ≡ none)
    × (w.own.connect_timer ≡ none)
    × (w.contexts ≡ 0)
unfolding new_tcp new_base closes
on_connect-on_connect_timeout_example =
    on_connect-on_connect_timeout uv globals connecting 7 8 refl refl refl refl

-- A socket that is to be bound.
abbrev bound_world : World
bound_world = record new_world { own = record new_world.own { local_addr = some address } }

set_option-init_socket_example :
    let w = init_socket uv globals (set_option uv globals linger (pos 5) bound_world).0 in
    (w.own.socket ≡ some 10)
    × (get_option w.base linger ≡ pos 5)
    × (w.base.pending_options ≡ [])
    × (w.calls
        ≡ (tcp_init 10 ∷ tcp_bind 10 address ∷ [])
          ++ map on_fd (map (λ (call : SockOpt). (110, call)) (set_linger true (pos 5) ∷ [])))
unfolding new_tcp new_base sock_opt pending_calls
set_option-init_socket_example =
    set_option-init_socket uv globals linger (pos 5) bound_world address 110 refl refl refl refl

-- libuv, where a handle that is neither bound nor connected has no descriptor.
abbrev no_fd : Uv
no_fd = record uv { fileno = λ calls h. none }

on_connect-on_resolved_example :
    let w = on_connect no_fd globals (pos 0) (
      on_resolved no_fd globals
        (pos 0)
        (some result)
        (set_option no_fd globals linger (pos 5) new_world).0) in
    (w.base.pending_options ≡ record { option = linger; value = pos 5 } ∷ []) × (asked w.calls ≡ 0)
unfolding new_tcp new_base asked
on_connect-on_resolved_example =
    on_connect-on_resolved no_fd globals linger (pos 5) new_world (pos 0) (pos 0) result refl refl
      refl refl

send_lem_example :
    let (w, answer) = send uv globals (codes "hi") new_world in
    (answer ≡ true) × Represents w.jobs.jobs (send_bytes (codes "hi") ∷ []) × (w.contexts ≡ 1)
unfolding fresh new
send_lem_example =
    send_lem uv globals new_world [] (codes "hi") refl
      (new-Represents 1024 (record { big = omega arith; power = refl })) refl

send-disconnect_example :
    let (w1, sent) = send uv globals (codes "hi") connecting in
    let w2 = (disconnect uv globals w1).0 in
    (sent ≡ true)
    × ((l : EventLoop Job) × (w3 : World) × (on_async (run_job uv globals 128) w2.jobs w2
          ≡ some (l, w3))
        × (w3.calls ≡ close 7 ∷ [])
        × (w3.events ≡ connecting.events)
        × (w3.contexts ≡ 1))
unfolding fresh new new_tcp new_base closes
send-disconnect_example =
    send-disconnect uv globals 128 connecting 7 (codes "hi") refl refl refl refl refl
      (new-Represents 1024 (record { big = omega arith; power = refl })) refl
