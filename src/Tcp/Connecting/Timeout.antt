-- ===== src/Tcp/Connecting/Timeout.antt =====
-- A connection attempt of src/impl/socket/TcpSocket.cpp whose timer fires.
use sm_ext_socket.Base.{ℕ, ◌-◌, ◌≡◌, true, false, none, some, [], ◌∷◌, ◌++◌, arith}
use sm_ext_socket.Base.Int.{nonzero, eqb_ℤ-refl}
use sm_ext_socket.Base.Text.{codes}
use sm_ext_socket.SocketTypes.{SocketError, GlobalOptions}
use sm_ext_socket.CallbackManager.{enqueue_error}
use sm_ext_socket.Uv.{close, Uv, close_once}
use sm_ext_socket.Tcp.{World}
use sm_ext_socket.Tcp.Connecting.{on_connect, connected, cancel_connect_timeout, on_connect_timeout}

-- An attempt that times out on a live socket, and whose connect request libuv then reports as
-- cancelled, makes one event, the time-out error. It closes the handle and the timer, each once and
-- nothing else, leaves the socket with neither, and deletes the request.
pub on_connect-on_connect_timeout :
    (uv : Uv) (g : GlobalOptions) (w : World) (h timer : ℕ)
    → w.base.deleted ≡ false
    → w.own.socket ≡ some h
    → uv.is_closing w.calls h ≡ false
    → nonzero uv.ecanceled ≡ true
    → let w' = on_connect uv g uv.ecanceled (on_connect_timeout uv g timer w) in
      (w'.events
        ≡ enqueue_error g w.self SocketError.connect_error (codes "Connection timed out") w.events)
      × (w'.calls ≡ (w.calls ++ close h ∷ []) ++ close timer ∷ [])
      × (w'.own.socket ≡ none)
      × (w'.own.connect_timer ≡ none)
      × (w'.contexts ≡ w.contexts - 1)
unfolding on_connect connected cancel_connect_timeout on_connect_timeout close_once
on_connect-on_connect_timeout uv g w h timer live at open_handle code =
    ground (arith, eqb_ℤ-refl uv.ecanceled)
