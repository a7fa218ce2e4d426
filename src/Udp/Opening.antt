-- ===== src/Udp/Opening.antt =====
-- Making the handle of src/impl/socket/UdpSocket.cpp, and what `Connect` and `Listen` tell the plugin.
use sm_ext_socket.Base.{
  ℕ, ◌+◌, ◌-◌, ◌≡◌, ap, ◌∙◌, Bool, true, false, none, some, [], ◌∷◌, ◌++◌, arith,
}
use sm_ext_socket.Base.Int.{ℤ, nonzero}
use sm_ext_socket.SocketTypes.{SocketError, GlobalOptions, no_endpoint}
use sm_ext_socket.CallbackManager.{enqueue_listen, enqueue_error, enqueue_connect}
use sm_ext_socket.Uv.{Address, udp_init, udp_bind, free_addrinfo, Uv, AddrInfo, apply_options}
use sm_ext_socket.Uv.Calls.{
  frees, frees-append, frees-apply_options, contexts-apply_options, taken, taken_in, taken_in-snoc,
  taken_in-apply_options,
}
use sm_ext_socket.Udp.{World}
use sm_ext_socket.Udp.Handle.{
  is_inet6, bind_handle, init_socket, ensure_socket, start_receiving, connected_to, on_resolved,
  get_local_endpoint, run_listen,
}

module _ (uv : Uv) (g : GlobalOptions) where
  -- If the new handle of a live socket cannot be bound to the address that the socket listens at, the
  -- job of `Listen` reports the error, keeps the handle, and then reports that the socket listens.
  pub run_listen-bind_failed :
      (w : World) (a : Address) (code : ℤ)
      → w.base.deleted ≡ false
      → w.own.socket ≡ none
      → w.own.local_addr ≡ some a
      → uv.result (w.calls ++ udp_init w.next ∷ []) (udp_bind w.next a) ≡ code
      → nonzero code ≡ true
      → let w' = run_listen uv g w in
        (w'.own.socket ≡ some w.next)
        × (w'.events
            ≡ enqueue_listen g w.self
                (get_local_endpoint uv g w')
                (enqueue_error g w.self SocketError.bind_error (uv.strerror code) w.events))
  unfolding run_listen ensure_socket init_socket bind_handle start_receiving get_local_endpoint
      apply_options
  run_listen-bind_failed w a code live closed bound result failed = ground arith

  pub ensure_socket_keeps :
      (p : ℕ) (six : Bool) (w : World)
      → (frees p (ensure_socket uv g six w).calls ≡ frees p w.calls)
        × ((ensure_socket uv g six w).contexts ≡ w.contexts)
        × (taken_in uv [] (ensure_socket uv g six w).calls ≡ taken_in uv [] w.calls)
  unfolding ensure_socket init_socket bind_handle frees taken
  ensure_socket_keeps p six w = grind (
    arith, frees-append, taken_in-snoc, frees-apply_options, contexts-apply_options,
    taken_in-apply_options,
  )

  start_receiving_keeps :
      (p : ℕ) (w : World)
      → (frees p (start_receiving uv g w).calls ≡ frees p w.calls)
        × ((start_receiving uv g w).contexts ≡ w.contexts)
        × ((start_receiving uv g w).own ≡ w.own)
        × ((start_receiving uv g w).events ≡ w.events)
  unfolding start_receiving frees
  start_receiving_keeps p w = grind (arith, frees-append)

  -- What the callback of `Connect` has done on a socket that stood as `v` with its handle.
  abbrev Opened : AddrInfo → (w v w' : World) → Type 0
  Opened i w v w' =
      (frees i.place w'.calls ≡ frees i.place w.calls + 1)
      × (w'.contexts ≡ w.contexts)
      × (w'.own.connected_addr ≡ i.address)
      × (w'.own.is_connected ≡ true)
      × (w'.events ≡ enqueue_connect g v.self no_endpoint v.events)

  connected_to-Opened :
      (i : AddrInfo) (w : World)
      → Opened i w (ensure_socket uv g (is_inet6 i.address) w) (connected_to uv g i w)
  unfolding connected_to frees
  connected_to-Opened i w =
      let v = ensure_socket uv g (is_inet6 i.address) w in
      let (same, kept, _) = ensure_socket_keeps i.place (is_inet6 i.address) w in
      let (freed, contexts, own, events) = start_receiving_keeps i.place (record v {
        own = record v.own { connected_addr = i.address; is_connected = true };
        calls = v.calls ++ free_addrinfo i.place ∷ [];
        events = enqueue_connect g v.self no_endpoint v.events;
      }) in
      (
        ground (arith, frees-append i.place v.calls (free_addrinfo i.place ∷ [])),
        contexts ∙ kept,
        ap (λ o. o.connected_addr) own,
        ap (λ o. o.is_connected) own,
        events,
      )

  -- When the resolver succeeds for `Connect` on a live socket, its result is freed once and its request
  -- deleted, the socket counts as connected to the resolved address, and the plugin is told that it is
  -- connected, with an empty address.
  pub on_resolved_lem :
      (status : ℤ) (i : AddrInfo) (w : World)
      → w.base.deleted ≡ false
      → nonzero status ≡ false
      → let w' = on_resolved uv g status (some i) w in
        let opened = ensure_socket uv g (is_inet6 i.address) w in
        (frees i.place w'.calls ≡ frees i.place w.calls + 1)
        × (w'.contexts ≡ w.contexts - 1)
        × (w'.own.connected_addr ≡ i.address)
        × (w'.own.is_connected ≡ true)
        × (w'.events ≡ enqueue_connect g opened.self no_endpoint opened.events)
  unfolding on_resolved
  on_resolved_lem status i w live good =
      let (freed, kept, address, connected, events) = connected_to-Opened i w in
      simp (live, good, on_resolved) (freed, ap (λ n. n - 1) kept, address, connected, events)
