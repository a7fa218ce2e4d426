-- ===== src/Dispatch/Destroyed.antt =====
-- `DestroySocket` of src/impl/core/SocketManager.cpp, and the events of src/impl/core/CallbackManager.cpp
-- that still hold the socket's address.
use sm_ext_socket.Base.{◌≡◌, ◌∙◌, some, arith}
use sm_ext_socket.SocketBase.{SocketBase}
use sm_ext_socket.SocketManager.{Lifecycle, SocketManager, destroy_socket}
use sm_ext_socket.SocketManager.Tracking.{Tracked, destroy_socket-Tracked}
use sm_ext_socket.Dispatch.{Game, Host, fault, Queued, socket_of, execute}
use sm_ext_socket.Dispatch.Lifetime.{execute-freed}

-- If the set holds each object on the heap once, destroying a socket that is there succeeds while an
-- event of it waits, of any of the six kinds, and that event makes the game thread read freed memory
-- when it is executed.
pub execute-destroy_socket :
    {E : Type 0} (ops : Lifecycle SocketBase E) (host : Host) (m : SocketManager SocketBase E)
    (s : SocketBase) (e : Queued) (w : Game)
    → Tracked m
    → m.heap (socket_of e) ≡ some s
    → (m' : SocketManager SocketBase E) × (destroy_socket ops (socket_of e) m ≡ some m')
      × (execute host e (record w { sockets = m'.heap }) ≡ fault)
execute-destroy_socket ops host m s e w t there =
    let (m', run, tracked, heap, _) = destroy_socket-Tracked ops (socket_of e) s m t there in
    (
      m',
      run,
      execute-freed host e (record w { sockets = m'.heap }) (ground (arith, t.null, there))
          (heap (socket_of e) ∙ ground arith),
    )
