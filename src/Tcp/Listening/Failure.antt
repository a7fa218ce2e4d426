-- ===== src/Tcp/Listening/Failure.antt =====
-- What a failed `uv_listen` leaves behind in src/impl/socket/TcpSocket.cpp.
use sm_ext_socket.Base.{ℕ, zero, suc, ◌≡◌, false, some}
use sm_ext_socket.Base.Int.{ℤ}
use sm_ext_socket.SocketTypes.{SocketError, GlobalOptions}
use sm_ext_socket.CallbackManager.{enqueue_error}
use sm_ext_socket.Uv.{Address, Uv}
use sm_ext_socket.Tcp.{World}
use sm_ext_socket.Tcp.Listening.{run_listen}

module _ (uv : Uv) (g : GlobalOptions) (somaxconn : ℕ) (a : Address) where
  -- What a failed listen leaves of the world: the acceptor, and the event that reports it.
  record Stuck (w w' : World) (h : ℕ) (code : ℤ) : Type 0 where
    acceptor : w'.own.acceptor ≡ some h
    live : w'.base.deleted ≡ false
    events : w'.events ≡ enqueue_error g w.self SocketError.listen_error (uv.strerror code) w.events

  -- The job of `Listen`, run so many times.
  pub run_listens : ℕ → World → World
  run_listens zero w = w
  run_listens (suc n) w = run_listens n (run_listen uv g somaxconn a w)
