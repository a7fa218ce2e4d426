-- ===== src/Tcp/Stream.antt =====
-- src/impl/socket/TcpSocket.cpp: reading and writing.
pub mod Sending
pub mod Lost
use sm_ext_socket.Base.{
  ℕ, ◌+◌, ◌-◌, Bool, true, false, not, ◌&&◌, ◌||◌, none, some, List, [], ◌∷◌, ◌++◌, if◌then◌else◌,
}
use sm_ext_socket.Base.Int.{ℤ, nonzero, eqb_ℤ}
use sm_ext_socket.SocketTypes.{SocketError, RemoteEndpoint, no_endpoint, GlobalOptions}
use sm_ext_socket.CallbackManager.{enqueue_receive, enqueue_disconnect}
use sm_ext_socket.Uv.{write, Uv, do_call, code_of, delete_context, report, post_job}
use sm_ext_socket.Tcp.{send_bytes, World}

-- What `OnRead` is called with: the bytes read, at least one, or none, or an error code.
pub data Read : Type 0 where
  bytes : List ℕ → Read
  again : Read
  failure : ℤ → Read

module _ (uv : Uv) (g : GlobalOptions) where
  -- `available` is whether the copy of the data finds memory.
  unfoldable pub on_read : (available : Bool) → Read → World → World
  on_read available r w = if w.base.deleted then w else (elim r [
    | bytes data_read ↦
        let endpoint : RemoteEndpoint = elim w.own.remote_endpoint [
          | none ↦ no_endpoint
          | some e ↦ e
        ] in
        record w { events = enqueue_receive g available w.self data_read endpoint w.events }
    | again ↦ w
    | failure code ↦
        if eqb_ℤ code uv.eof || eqb_ℤ code uv.econnreset || eqb_ℤ code uv.econnaborted
        then record w { events = enqueue_disconnect g w.self w.events }
        else if eqb_ℤ code uv.ecanceled
        then w
        else report uv g SocketError.recv_error (uv.strerror code) w
  ])

  -- `Send` copies the data into a request, posts its work and answers true.
  unfoldable pub send : List ℕ → World → World × Bool
  send data_sent w =
      (post_job uv g (send_bytes data_sent) (record w { contexts = w.contexts + 1 }), true)

  -- The job of `Send`. The request is deleted unless libuv has it.
  unfoldable pub run_send : List ℕ → World → World
  run_send data_sent w = if w.base.deleted then delete_context uv g w else (elim w.own.socket [
    | none ↦ delete_context uv g w
    | some h ↦
        let result = code_of uv g (write h data_sent) w in
        let w1 = do_call uv g (write h data_sent) w in
        if nonzero result
        then delete_context uv g (report uv g SocketError.send_error (uv.strerror result) w1)
        else w1
  ])

  unfoldable pub on_write : ℤ → World → World
  on_write status w =
      if not w.base.deleted && nonzero status && not (eqb_ℤ status uv.ecanceled)
      then delete_context uv g (report uv g SocketError.send_error (uv.strerror status) w)
      else delete_context uv g w
