-- ===== src/Udp/Datagrams.antt =====
-- Sending and receiving in src/impl/socket/UdpSocket.cpp, the options, and the posted jobs.
use sm_ext_socket.Base.{
  ℕ, Bool, true, false, not, ◌&&◌, Option, none, some, List, ltb, if◌then◌else◌,
}
use sm_ext_socket.Base.Int.{ℤ, pos, nonzero, eqb_ℤ}
use sm_ext_socket.SocketTypes.{SocketError, SocketOption, GlobalOptions, auto_free_handle}
use sm_ext_socket.SocketBase.{store_option, destroy_base}
use sm_ext_socket.CallbackManager.{enqueue_disconnect, enqueue_receive}
use sm_ext_socket.Uv.{
  Address, udp_send, free_addrinfo, Uv, AddrInfo, do_call, code_of, new_context, delete_context,
  report, post_job, set_handle_option, free_info, endpoint_of, Buffer, HandleHeap, udp_handle,
  on_close_of,
}
use sm_ext_socket.Udp.{Job, close_handle, start_listening, send_bytes, World}
use sm_ext_socket.Udp.Handle.{is_inet6, disconnect, run_close, run_listen, ensure_socket}

-- What `OnRecv` is called with: a datagram of at least one byte and where it is from, no bytes, or an
-- error code.
pub data Received : Type 0 where
  datagram : List ℕ → Option Address → Received
  again : Received
  failure : ℤ → Received

module _ (uv : Uv) (g : GlobalOptions) where
  -- `SendTo`. With a host and a port it asks the resolver; `started` is 0 if that will call back. With
  -- neither it posts a job, if the socket is connected.
  unfoldable pub send_to : (started : ℤ) → List ℕ → Option (List ℕ) → ℕ → World → World × Bool
  send_to started data_sent hostname port w =
      let to_connected : World × Bool =
        if w.own.is_connected
        then (post_job uv g (send_bytes data_sent) (new_context uv g w), true)
        else (w, false) in
      elim hostname [
        | none ↦ to_connected
        | some name ↦
            if ltb 0 port
            then (if nonzero started
                then (delete_context uv g (new_context uv g w), false)
                else (new_context uv g w, true))
            else to_connected
      ]

  unfoldable pub send : List ℕ → World → World × Bool
  unfolding send_to
  send data_sent w = if w.own.is_connected then send_to (pos 0) data_sent none 0 w else (w, false)

  -- `uv_udp_send` on the handle. The request is deleted if libuv refuses it.
  unfoldable pub send_datagram : ℕ → List ℕ → Address → World → World
  send_datagram h data_sent a w =
      let result = code_of uv g (udp_send h data_sent a) w in
      let w1 = do_call uv g (udp_send h data_sent a) w in
      if nonzero result
      then delete_context uv g (report uv g SocketError.send_error (uv.strerror result) w1)
      else w1

  -- The end of the resolver's callback of `SendTo`, at the handle that the socket has by then.
  unfoldable pub send_resolved_on : List ℕ → AddrInfo → Option ℕ → World → World
  send_resolved_on data_sent i none w = do_call uv g (free_addrinfo i.place) (delete_context uv g w)
  send_resolved_on data_sent i (some h) w =
      let result = code_of uv g (udp_send h data_sent i.address) w in
      let w1 =
        do_call uv g (free_addrinfo i.place) (do_call uv g (udp_send h data_sent i.address) w) in
      if nonzero result
      then delete_context uv g (report uv g SocketError.send_error (uv.strerror result) w1)
      else w1

  unfoldable pub send_resolved : List ℕ → AddrInfo → World → World
  send_resolved data_sent i w =
      let w1 = ensure_socket uv g (is_inet6 i.address) w in
      send_resolved_on data_sent i w1.own.socket w1

  -- The resolver's callback of `SendTo`.
  unfoldable pub on_send_resolved : List ℕ → ℤ → Option AddrInfo → World → World
  on_send_resolved data_sent status info w =
      if w.base.deleted
      then free_info uv g info (delete_context uv g w)
      else if nonzero status
      then free_info uv g info
          (delete_context uv g (report uv g SocketError.no_host (uv.strerror status) w))
      else (elim info [
        | none ↦ delete_context uv g (report uv g SocketError.no_host (uv.strerror status) w)
        | some i ↦ send_resolved data_sent i w
      ])

  -- The job of `SendTo` without a host: the address is the one connected to when it runs.
  unfoldable pub run_send : List ℕ → World → World
  run_send data_sent w = if w.base.deleted then delete_context uv g w else (elim w.own.socket [
    | none ↦ delete_context uv g w
    | some h ↦ send_datagram h data_sent w.own.connected_addr w
  ])

  unfoldable pub on_send : ℤ → World → World
  on_send status w =
      if not w.base.deleted && nonzero status && not (eqb_ℤ status uv.ecanceled)
      then delete_context uv g (report uv g SocketError.send_error (uv.strerror status) w)
      else delete_context uv g w

  -- `available` is whether the copy of the data finds memory.
  unfoldable pub on_recv : (available : Bool) → Received → World → World
  on_recv available r w = if w.base.deleted then w else (elim r [
    | datagram data_read sender ↦ record w {
      events = enqueue_receive g available w.self data_read (endpoint_of uv sender) w.events;
    }
    | again ↦ w
    | failure code ↦
        if eqb_ℤ code uv.eof
        then record w { events = enqueue_disconnect g w.self w.events }
        else if eqb_ℤ code uv.ecanceled
        then w
        else report uv g SocketError.recv_error (uv.strerror code) w
  ])

  unfoldable pub set_option : SocketOption → ℤ → World → World × Bool
  set_option option value w =
      let w1 = record w { base = store_option w.base option value } in
      if eqb_ℤ option auto_free_handle
      then (w1, true)
      else set_handle_option uv g w.own.socket option value w1

  unfoldable pub run_job : Job → World → World
  run_job (close_handle h) w = run_close uv g h w
  run_job start_listening w = run_listen uv g w
  run_job (send_bytes data_sent) w = run_send data_sent w

  abbrev pub on_alloc_buffer : World → Buffer
  on_alloc_buffer w = record { owner = w.self; size = 65536 }

  -- The destructor, with that of the base class.
  unfoldable pub destroy_udp : World → World
  destroy_udp w = let w1 = (disconnect uv g w).0 in record w1 { base = destroy_base w1.base }

abbrev pub on_close : ℕ → HandleHeap → HandleHeap
on_close = on_close_of udp_handle
