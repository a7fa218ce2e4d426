-- ===== src/Tcp/Connecting.antt =====
-- src/impl/socket/TcpSocket.cpp: `InitSocket`, `Connect`, `OnResolved`, `OnConnect`, and the timeout.
pub mod Outcome
pub mod Timeout
use sm_ext_socket.Base.{
  ℕ, ◌+◌, ◌-◌, Bool, true, false, Option, none, some, List, [], ◌∷◌, ◌++◌, ltb, if◌then◌else◌,
}
use sm_ext_socket.Base.Int.{ℤ, pos, negsuc, pos_part, nonzero, eqb_ℤ, ltb_ℤ}
use sm_ext_socket.Base.Text.{codes}
use sm_ext_socket.SocketTypes.{
  SocketError, RemoteEndpoint, no_endpoint, GlobalOptions, Sockaddr, inet, inet6, other_family,
  connect_timeout,
}
use sm_ext_socket.SocketBase.{get_option}
use sm_ext_socket.CallbackManager.{enqueue_connect}
use sm_ext_socket.Uv.{
  free_info, Address, UvCall, tcp_init, timer_init, timer_stop, timer_start, close, read_start,
  free_addrinfo, tcp_bind, tcp_connect, Uv, AddrInfo, do_call, code_of, set_own, delete_context,
  endpoint_of, report, apply_options, close_once,
}
use sm_ext_socket.Tcp.{TcpSocket, World}

module _ (uv : Uv) (g : GlobalOptions) where
  -- `InitSocket` makes a handle. If the socket has one already, the new one is closed.
  unfoldable pub init_socket : World → World
  init_socket w =
      let h = w.next in
      let w1 = do_call uv g (tcp_init h) (record w { next = w.next + 1 }) in
      elim w1.own.socket [
        | some old ↦ do_call uv g (close h) w1
        | none ↦
            let w2 = set_own uv g (record w1.own { socket = some h }) w1 in
            apply_options uv g h
              (elim w2.own.local_addr [ none ↦ w2 | some a ↦ do_call uv g (tcp_bind h a) w2 ])
      ]

  -- `Connect`, up to what `uv_getaddrinfo` returns at once: `started` is 0 if it will call back.
  unfoldable pub connect : (started : ℤ) → World → World × Bool
  connect started w =
      let w1 = record w { contexts = w.contexts + 1 } in
      if nonzero started then (delete_context uv g w1, false) else (w1, true)

  abbrev is_inet : Address → Bool
  is_inet (inet a p) = true
  is_inet (inet6 a p) = true
  is_inet other_family = false

  -- The last part of `OnResolved`: the request is under way, and the timer may be started.
  unfoldable pub start_timer : World → World
  start_timer w =
      let limit = get_option w.base connect_timeout in
      if ltb_ℤ (pos 0) limit
      then (let t = w.next in
          do_call uv g (timer_start t (pos_part limit)) (
            do_call uv g (timer_init t)
              (record w { next = w.next + 1; own = record w.own { connect_timer = some t } })))
      else w

  -- `OnResolved` once the socket has its handle, or has lost it to the game thread.
  unfoldable pub connect_to : AddrInfo → Option ℕ → World → World
  connect_to info none w =
      do_call uv g (free_addrinfo info.place)
        (delete_context uv g (report uv g SocketError.connect_error (codes "Socket was closed") w))
  connect_to info (some h) w =
      let result = code_of uv g (tcp_connect h info.address) w in
      let w1 =
        do_call uv g (free_addrinfo info.place) (do_call uv g (tcp_connect h info.address) w) in
      if nonzero result
      then delete_context uv g (report uv g SocketError.connect_error (uv.strerror result) w1)
      else start_timer w1

  unfoldable pub ensure_socket : World → World
  ensure_socket w = elim w.own.socket [ none ↦ init_socket w | some h ↦ w ]

  unfoldable pub note_endpoint : AddrInfo → World → World
  note_endpoint info w =
      if is_inet info.address
      then set_own uv g
          (record w.own { remote_endpoint = some (endpoint_of uv (some info.address)) }) w
      else w

  -- The address is there: the handle, the remote endpoint, and the connection.
  unfoldable pub resolved_to : AddrInfo → World → World
  resolved_to info w =
      let w1 = note_endpoint info (ensure_socket w) in connect_to info w1.own.socket w1

  unfoldable pub on_resolved : ℤ → Option AddrInfo → World → World
  on_resolved status info w =
      if w.base.deleted
      then free_info uv g info (delete_context uv g w)
      else if nonzero status
      then free_info uv g info
          (delete_context uv g (report uv g SocketError.connect_error (uv.strerror status) w))
      else (elim info [
        | none ↦ delete_context uv g (report uv g SocketError.connect_error (uv.strerror status) w)
        | some i ↦ resolved_to i w
      ])

  unfoldable pub cancel_connect_timeout : World → World
  cancel_connect_timeout w = elim w.own.connect_timer [
    | none ↦ w
    | some t ↦
        set_own uv g (record w.own { connect_timer = none })
          (do_call uv g (close t) (do_call uv g (timer_stop t) w))
  ]

  unfoldable pub start_receiving : World → World
  start_receiving w = elim w.own.socket [ none ↦ w | some h ↦ do_call uv g (read_start h) w ]

  -- The endpoint as `GetRemoteEndpoint` has it.
  abbrev pub known_endpoint : World → RemoteEndpoint
  known_endpoint w = elim w.own.remote_endpoint [ none ↦ no_endpoint | some e ↦ e ]

  unfoldable pub connected : ℤ → World → World
  unfolding start_receiving
  connected status w =
      if nonzero status
      then (if eqb_ℤ status uv.ecanceled
          then w
          else report uv g SocketError.connect_error (uv.strerror status) w)
      else start_receiving
          (record w { events = enqueue_connect g w.self (known_endpoint w) w.events })

  unfoldable pub on_connect : ℤ → World → World
  unfolding cancel_connect_timeout
  on_connect status w =
      let w1 = cancel_connect_timeout w in
      if w1.base.deleted then delete_context uv g w1 else delete_context uv g (connected status w1)

  -- The timer fired.
  unfoldable pub on_connect_timeout : ℕ → World → World
  on_connect_timeout timer w =
      let w1 = set_own uv g (record w.own { socket = none }) w in
      let w2 : World = elim w.own.socket [ none ↦ w1 | some h ↦ close_once uv g h w1 ] in
      let w3 =
        if w2.base.deleted
        then w2
        else report uv g SocketError.connect_error (codes "Connection timed out") w2 in
      set_own uv g (record w3.own { connect_timer = none }) (do_call uv g (close timer) w3)
