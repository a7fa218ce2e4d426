-- ===== src/Unix/Listening.antt =====
-- The job of `Listen` of src/impl/socket/UnixSocket.cpp.
use sm_ext_socket.Base.{
  ◌+◌, ◌≡◌, Bool, false, ◌||◌, none, some, [], ◌∷◌, ◌++◌, arith, if◌then◌else◌,
}
use sm_ext_socket.Base.Int.{ℤ, nonzero}
use sm_ext_socket.SocketTypes.{SocketError, GlobalOptions}
use sm_ext_socket.CallbackManager.{enqueue_listen, enqueue_error}
use sm_ext_socket.Uv.{pipe_init, pipe_bind, listen_on, close, Uv}
use sm_ext_socket.Uv.Calls.{closes, closes-append}
use sm_ext_socket.Unix.{World, path_endpoint, give_up, bind_acceptor, run_listen}

module _ (uv : Uv) (g : GlobalOptions) (w : World) where
  -- What libuv answers when the new pipe is bound to the path, and when it listens.
  abbrev pub bound : ℤ
  bound = uv.result (w.calls ++ pipe_init w.next ∷ []) (pipe_bind w.next w.own.path)

  abbrev pub listening : ℤ
  listening =
      uv.result ((w.calls ++ pipe_init w.next ∷ []) ++ pipe_bind w.next w.own.path ∷ [])
        (listen_on w.next 128)

  abbrev pub failed : Bool
  failed = nonzero bound || nonzero listening

  -- The job of `Listen` on a live socket with no acceptor makes one event: that it listens at its path,
  -- or the error of the first call that failed. The socket keeps the new acceptor if both calls
  -- succeeded; else it has none again, and the handle is closed once.
  pub run_listen_lem :
      w.base.deleted ≡ false
      → w.own.acceptor ≡ none
      → let w' = run_listen uv g w in
        (w'.own.acceptor ≡ (if failed then none else some w.next))
        × (w'.events ≡ (
            if nonzero bound
            then enqueue_error g w.self SocketError.bind_error (uv.strerror bound) w.events
            else if nonzero listening
            then enqueue_error g w.self SocketError.listen_error (uv.strerror listening) w.events
            else enqueue_listen g w.self (path_endpoint w.own.path) w.events))
        × (closes w.next w'.calls ≡ closes w.next w.calls + (if failed then 1 else 0))
  unfolding run_listen bind_acceptor give_up closes
  run_listen_lem live at = (
    ground arith,
    ground arith,
    ground (
      arith,
      closes-append w.next w.calls (pipe_init w.next ∷ []),
      closes-append w.next (w.calls ++ pipe_init w.next ∷ []) (pipe_bind w.next w.own.path ∷ []),
      closes-append w.next ((w.calls ++ pipe_init w.next ∷ []) ++ pipe_bind w.next w.own.path ∷ [])
          (listen_on w.next 128 ∷ []),
      closes-append w.next ((w.calls ++ pipe_init w.next ∷ []) ++ pipe_bind w.next w.own.path ∷ [])
          (close w.next ∷ []),
      closes-append w.next
          (((w.calls ++ pipe_init w.next ∷ []) ++ pipe_bind w.next w.own.path ∷ [])
            ++ listen_on w.next 128 ∷ [])
          (close w.next ∷ []),
    ),
  )
