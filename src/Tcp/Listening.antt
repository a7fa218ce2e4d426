-- ===== src/Tcp/Listening.antt =====
-- src/impl/socket/TcpSocket.cpp: `Bind`, `Listen`, `OnConnection`, `CreateFromAccepted` and the local
-- endpoint.
pub mod Failure
use sm_ext_socket.Base.{ℕ, ◌+◌, Bool, true, false, Option, none, some, ◌++◌, [], ◌∷◌, if◌then◌else◌}
use sm_ext_socket.Base.Int.{ℤ, pos, nonzero, eqb_ℤ, ltb_ℤ}
use sm_ext_socket.SocketTypes.{SocketError, RemoteEndpoint, no_endpoint, GlobalOptions}
use sm_ext_socket.CallbackManager.{enqueue_listen, enqueue_incoming}
use sm_ext_socket.Uv.{
  Address, tcp_init, tcp_bind, listen_on, accept, close, read_start, free_addrinfo, Uv, AddrInfo,
  do_call, code_of, set_own, endpoint_of, report, apply_options, post_job, new_context,
  delete_context, free_info,
}
use sm_ext_socket.Tcp.{TcpSocket, new_tcp, start_listening, World}

module _ (uv : Uv) (g : GlobalOptions) where
  -- `Bind` waiting for the resolver, which gives an address or fails; its result is freed.
  unfoldable pub bind : Option Address → World → World × Bool
  bind resolved w = elim w.own.local_addr [
    | some a ↦ (w, false)
    | none ↦ elim resolved [
      | none ↦ (w, false)
      | some a ↦ (set_own uv g (record w.own { local_addr = some a }) w, true)
    ]
  ]

  -- `Bind` that does not wait, up to what `uv_getaddrinfo` returns at once: `started` is 0 if it will
  -- call back.
  unfoldable pub bind_async : (started : ℤ) → World → World × Bool
  bind_async started w = elim w.own.local_addr [
    | some a ↦ (w, false)
    | none ↦
        if nonzero started
        then (delete_context uv g (new_context uv g w), false)
        else (new_context uv g w, true)
  ]

  -- The callback of `Bind`.
  unfoldable pub on_bind_resolved : ℤ → Option AddrInfo → World → World
  on_bind_resolved status info w =
      if w.base.deleted
      then delete_context uv g (free_info uv g info w)
      else if nonzero status
      then delete_context uv g (report uv g SocketError.bind_error (uv.strerror status) w)
      else (elim info [
        | none ↦ delete_context uv g (report uv g SocketError.bind_error (uv.strerror status) w)
        | some i ↦ delete_context uv g (
            do_call uv g (free_addrinfo i.place)
              (set_own uv g (record w.own { local_addr = some i.address }) w))
      ])

  -- `Listen` posts its work if the socket is bound.
  unfoldable pub listen : World → World × Bool
  listen w = elim w.own.local_addr [
    | none ↦ (w, false)
    | some a ↦ (post_job uv g start_listening w, true)
  ]

  unfoldable pub get_local_endpoint : World → RemoteEndpoint
  get_local_endpoint w = elim w.own.socket [
    | some h ↦ endpoint_of uv (uv.sock_name w.calls h)
    | none ↦ elim w.own.acceptor [
      | some h ↦ endpoint_of uv (uv.sock_name w.calls h)
      | none ↦ no_endpoint
    ]
  ]

  -- The acceptor is bound: options, then `uv_listen` with the system's largest backlog.
  unfoldable pub listen_with : (somaxconn h : ℕ) → World → World
  listen_with somaxconn h w =
      let w1 = apply_options uv g h w in
      let result = code_of uv g (listen_on h somaxconn) w1 in
      let w2 = do_call uv g (listen_on h somaxconn) w1 in
      if nonzero result
      then report uv g SocketError.listen_error (uv.strerror result) w2
      else record w2 { events = enqueue_listen g w2.self (get_local_endpoint w2) w2.events }

  -- The new acceptor `h` is the socket's.
  unfoldable pub bind_acceptor : (somaxconn h : ℕ) → Address → World → World
  bind_acceptor somaxconn h a w =
      let result = code_of uv g (tcp_bind h a) w in
      let w1 = do_call uv g (tcp_bind h a) w in
      if nonzero result
      then (let w2 = report uv g SocketError.bind_error (uv.strerror result) w1 in
          do_call uv g (close h) (set_own uv g (record w2.own { acceptor = none }) w2))
      else listen_with somaxconn h w1

  -- The job of `Listen`, at the address that the socket is bound to.
  unfoldable pub run_listen : (somaxconn : ℕ) → Address → World → World
  run_listen somaxconn a w =
      if w.base.deleted
      then w
      else (let h = w.next in
          let w1 = do_call uv g (tcp_init h) (record w { next = w.next + 1 }) in
          elim w1.own.acceptor [
            | some old ↦ do_call uv g (close h) w1
            | none ↦
                bind_acceptor somaxconn h a (set_own uv g (record w1.own { acceptor = some h }) w1)
          ])

  -- `CreateFromAccepted` makes the socket for an accepted client.
  unfoldable pub create_from_accepted : (client : ℕ) → World → TcpSocket
  create_from_accepted client w =
      let t = record new_tcp { socket = some client } in
      elim (uv.peer_name w.calls client) [
        | none ↦ t
        | some a ↦ record t { remote_endpoint = some (endpoint_of uv (some a)) }
      ]

  -- `OnConnection`: the socket made for the client, with its address, if there is one.
  unfoldable pub on_connection : (server : ℕ) → ℤ → World → World × Option (ℕ × TcpSocket)
  on_connection server status w =
      if w.base.deleted
      then (w, none)
      else if ltb_ℤ status (pos 0)
      then (
        (if eqb_ℤ status uv.ecanceled
            then w
            else report uv g SocketError.listen_error (uv.strerror status) w),
        none,
      )
      else (let client = w.next in
          let w1 = do_call uv g (tcp_init client) (record w { next = w.next + 1 }) in
          let result = code_of uv g (accept server client) w1 in
          let w2 = do_call uv g (accept server client) w1 in
          if nonzero result
          then (do_call uv g (close client) w2, none)
          else (let n = w2.next in
              let t = create_from_accepted client w2 in
              let endpoint : RemoteEndpoint = elim t.remote_endpoint [
                | none ↦ no_endpoint
                | some e ↦ e
              ] in
              (
                do_call uv g (read_start client) (record w2 {
                  next = w2.next + 1;
                  events = enqueue_incoming g w2.self n endpoint w2.events;
                }),
                some (n, t),
              )))
