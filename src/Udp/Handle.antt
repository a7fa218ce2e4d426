-- ===== src/Udp/Handle.antt =====
-- The handle of a socket of src/impl/socket/UdpSocket.cpp: making, binding, connecting, listening and
-- closing it.
use sm_ext_socket.Base.{ℕ, ◌+◌, Bool, true, false, Option, none, some, if◌then◌else◌}
use sm_ext_socket.Base.Int.{ℤ, nonzero}
use sm_ext_socket.SocketTypes.{
  SocketError, RemoteEndpoint, no_endpoint, GlobalOptions, inet, inet6, other_family,
}
use sm_ext_socket.CallbackManager.{enqueue_connect, enqueue_listen}
use sm_ext_socket.Uv.{
  Address, udp_init, udp_bind, close, recv_start, recv_stop, free_addrinfo, Uv, AddrInfo, do_call,
  code_of, set_own, new_context, delete_context, report, post_job, apply_options, free_info,
  endpoint_of,
}
use sm_ext_socket.Udp.{close_handle, start_listening, World}

abbrev pub is_inet6 : Address → Bool
is_inet6 (inet a p) = false
is_inet6 (inet6 a p) = true
is_inet6 other_family = false

-- The address to bind to: the socket's own, or any of the family.
abbrev pub bind_address : Option Address → (six : Bool) → Address
bind_address (some a) six = a
bind_address none true = inet6 0 0
bind_address none false = inet 0 0

module _ (uv : Uv) (g : GlobalOptions) where
  -- The handle `h` is the socket's: it is bound, which may fail, and gets the options that waited.
  unfoldable pub bind_handle : (six : Bool) → ℕ → World → World
  bind_handle six h w =
      let a = bind_address w.own.local_addr six in
      let result = code_of uv g (udp_bind h a) w in
      let w1 = do_call uv g (udp_bind h a) w in
      apply_options uv g h
        (if nonzero result then report uv g SocketError.bind_error (uv.strerror result) w1 else w1)

  -- `InitSocket` makes a handle. If the socket has one already, the new one is closed.
  unfoldable pub init_socket : (six : Bool) → World → World
  init_socket six w =
      let h = w.next in
      let w1 = do_call uv g (udp_init h) (record w { next = w.next + 1 }) in
      elim w1.own.socket [
        | some old ↦ do_call uv g (close h) w1
        | none ↦ bind_handle six h (set_own uv g (record w1.own { socket = some h }) w1)
      ]

  unfoldable pub ensure_socket : (six : Bool) → World → World
  ensure_socket six w = elim w.own.socket [ none ↦ init_socket six w | some h ↦ w ]

  unfoldable pub is_open : World → Bool
  is_open w = elim w.own.socket [ none ↦ false | some h ↦ true ]

  -- `Bind` waiting for the resolver, which gives an address or fails; its result is freed.
  unfoldable pub bind : Option Address → World → World × Bool
  bind resolved w = elim w.own.local_addr [
    | some a ↦ (w, false)
    | none ↦ elim resolved [
      | none ↦ (w, false)
      | some a ↦ (set_own uv g (record w.own { local_addr = some a }) w, true)
    ]
  ]

  -- `Bind` that does not wait, up to what `uv_getaddrinfo` returns at once: `started` is 0 if it will
  -- call back.
  unfoldable pub bind_async : (started : ℤ) → World → World × Bool
  bind_async started w = elim w.own.local_addr [
    | some a ↦ (w, false)
    | none ↦
        if nonzero started
        then (delete_context uv g (new_context uv g w), false)
        else (new_context uv g w, true)
  ]

  -- The callback of `Bind`.
  unfoldable pub on_bind_resolved : ℤ → Option AddrInfo → World → World
  on_bind_resolved status info w =
      if w.base.deleted
      then delete_context uv g (free_info uv g info w)
      else if nonzero status
      then delete_context uv g (report uv g SocketError.bind_error (uv.strerror status) w)
      else (elim info [
        | none ↦ delete_context uv g (report uv g SocketError.bind_error (uv.strerror status) w)
        | some i ↦ delete_context uv g (
            do_call uv g (free_addrinfo i.place)
              (set_own uv g (record w.own { local_addr = some i.address }) w))
      ])

  -- `Connect`, up to what `uv_getaddrinfo` returns at once: `started` is 0 if it will call back.
  unfoldable pub connect : (started : ℤ) → World → World × Bool
  connect started w =
      if nonzero started
      then (delete_context uv g (new_context uv g w), false)
      else (new_context uv g w, true)

  unfoldable pub start_receiving : World → World
  start_receiving w = elim w.own.socket [ none ↦ w | some h ↦ do_call uv g (recv_start h) w ]

  -- The address is there: the socket is connected to it, on the libuv thread and in name only.
  unfoldable pub connected_to : AddrInfo → World → World
  connected_to i w =
      let w1 = ensure_socket (is_inet6 i.address) w in
      let w2 =
        do_call uv g (free_addrinfo i.place)
          (set_own uv g (record w1.own { connected_addr = i.address; is_connected = true }) w1) in
      start_receiving (record w2 { events = enqueue_connect g w2.self no_endpoint w2.events })

  -- The resolver's callback of `Connect`.
  unfoldable pub on_resolved : ℤ → Option AddrInfo → World → World
  on_resolved status info w =
      if w.base.deleted
      then delete_context uv g (free_info uv g info w)
      else if nonzero status
      then delete_context uv g (report uv g SocketError.connect_error (uv.strerror status) w)
      else (elim info [
        | none ↦ delete_context uv g (report uv g SocketError.connect_error (uv.strerror status) w)
        | some i ↦ delete_context uv g (connected_to i w)
      ])

  -- `Disconnect` takes the handle off the socket and posts its closing. `CloseReset` is the same.
  unfoldable pub disconnect : World → World × Bool
  disconnect w =
      let w1 = set_own uv g (record w.own { socket = none; is_connected = false }) w in
      (elim w.own.socket [ none ↦ w1 | some h ↦ post_job uv g (close_handle h) w1 ], true)

  unfoldable pub run_close : ℕ → World → World
  run_close h w =
      if uv.is_closing w.calls h then w else do_call uv g (close h) (do_call uv g (recv_stop h) w)

  unfoldable pub get_local_endpoint : World → RemoteEndpoint
  get_local_endpoint w = elim w.own.socket [
    | none ↦ no_endpoint
    | some h ↦ endpoint_of uv (uv.sock_name w.calls h)
  ]

  unfoldable pub listen : World → World × Bool
  listen w = elim w.own.local_addr [
    | none ↦ (w, false)
    | some a ↦ (post_job uv g start_listening w, true)
  ]

  -- The job of `Listen`.
  unfoldable pub run_listen : World → World
  run_listen w =
      let w1 = start_receiving (ensure_socket false w) in
      if w.base.deleted
      then w
      else record w1 { events = enqueue_listen g w1.self (get_local_endpoint w1) w1.events }
