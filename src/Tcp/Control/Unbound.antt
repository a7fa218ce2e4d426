-- ===== src/Tcp/Control/Unbound.antt =====
-- Options of the system, set on a socket of src/impl/socket/TcpSocket.cpp that connects without a local address.
use sm_ext_socket.Base.{
  ℕ, ◌+◌, ◌≡◌, refl, ◌∙◌, ap, false, Option, none, some, List, [], ◌∷◌, ◌++◌, append-nil, arith,
  ◌||◌,
}
use sm_ext_socket.Base.Int.{ℤ, eqb_ℤ}
use sm_ext_socket.SocketTypes.{SocketOption, GlobalOptions, connect_timeout, auto_free_handle}
use sm_ext_socket.SocketBase.{store_option, queue_option, apply_pending_options}
use sm_ext_socket.SocketBase.Pending.{pending-store_option}
use sm_ext_socket.Uv.{
  UvCall, tcp_init, free_addrinfo, set_sock_opt, Uv, AddrInfo, apply_options, set_handle_option,
}
use sm_ext_socket.Tcp.{World}
use sm_ext_socket.Tcp.Connecting.{
  init_socket, ensure_socket, note_endpoint, start_timer, connect_to, resolved_to, on_resolved,
  cancel_connect_timeout, start_receiving, connected, on_connect,
}
use sm_ext_socket.Tcp.Control.{set_option}

-- How many options the system is asked for in these calls.
unfoldable pub asked : List UvCall → ℕ
asked [] = 0
asked (set_sock_opt h o ∷ cs) = 1 + asked cs
asked (_ ∷ cs) = asked cs

asked-append : (cs ds : List UvCall) → asked (cs ++ ds) ≡ asked cs + asked ds
unfolding asked
asked-append [] ds = omega arith
asked-append (set_sock_opt h o ∷ cs) ds = omega (arith, asked-append cs ds)
asked-append (_ ∷ cs) ds = omega (arith, asked-append cs ds)

module _ (uv : Uv) (g : GlobalOptions) where
  -- The same options wait, and the system was asked for no other.
  abbrev pub Deferring : World → World → Type 0
  Deferring w w' =
      (w'.base.pending_options ≡ w.base.pending_options) × (asked w'.calls ≡ asked w.calls)

  Deferring-trans : (u v w : World) → Deferring u v → Deferring v w → Deferring u w
  Deferring-trans u v w (p, a) (p', a') = (p' ∙ p, a' ∙ a)

  init_socket-Deferring :
      (w : World)
      → w.own.socket ≡ none
      → w.own.local_addr ≡ none
      → uv.fileno (w.calls ++ tcp_init w.next ∷ []) w.next ≡ none
      → Deferring w (init_socket uv g w)
  unfolding init_socket apply_options apply_pending_options asked
  init_socket-Deferring w closed unbound no_fd = ground (
    arith,
    closed,
    unbound,
    no_fd,
    asked-append w.calls (tcp_init w.next ∷ []),
    append-nil (w.calls ++ tcp_init w.next ∷ []),
  )

  start_timer-Deferring : (w : World) → Deferring w (start_timer uv g w)
  unfolding start_timer asked
  start_timer-Deferring w = grind (arith, asked-append)

  connect_to-Deferring :
      (i : AddrInfo) (o : Option ℕ) (w : World) → Deferring w (connect_to uv g i o w)
  unfolding connect_to asked
  connect_to-Deferring i none w = grind (arith, asked-append)
  connect_to-Deferring i (some h) w = grind (arith, asked-append, start_timer-Deferring)

  note_endpoint-Deferring : (i : AddrInfo) (w : World) → Deferring w (note_endpoint uv g i w)
  unfolding note_endpoint
  note_endpoint-Deferring i w = ground arith

  on_connect-Deferring : (status : ℤ) (w : World) → Deferring w (on_connect uv g status w)
  unfolding on_connect connected cancel_connect_timeout start_receiving asked
  on_connect-Deferring status w = grind (arith, asked-append)

  resolved_to-Deferring :
      (i : AddrInfo) (w : World)
      → w.own.socket ≡ none
      → Deferring w (init_socket uv g w)
      → Deferring w (resolved_to uv g i w)
  unfolding resolved_to ensure_socket
  resolved_to-Deferring i w closed made =
      let v = init_socket uv g w in
      let n = note_endpoint uv g i v in
      rw (closed, resolved_to, ensure_socket)
        (Deferring-trans w v (connect_to uv g i n.own.socket n) made (
          Deferring-trans v n (connect_to uv g i n.own.socket n) (note_endpoint-Deferring i v)
            (connect_to-Deferring i n.own.socket n)))

  on_resolved-Deferring :
      (status : ℤ) (i : AddrInfo) (w : World)
      → w.own.socket ≡ none
      → Deferring w (init_socket uv g w)
      → Deferring w (on_resolved uv g status (some i) w)
  unfolding on_resolved asked
  on_resolved-Deferring status i w closed made = ground (
    arith,
    resolved_to-Deferring i w closed made,
    asked-append w.calls (free_addrinfo i.place ∷ []),
  )

  set_option_keeps :
      (o : SocketOption) (v : ℤ) (w : World)
      → (eqb_ℤ o connect_timeout || eqb_ℤ o auto_free_handle) ≡ false
      → w.own.socket ≡ none
      → let w' = (set_option uv g o v w).0 in
        (w'.base.pending_options ≡ w.base.pending_options ++ record { option = o; value = v } ∷ [])
        × (w'.calls ≡ w.calls)
        × (w'.own ≡ w.own)
        × (w'.next ≡ w.next)
  unfolding set_option set_handle_option queue_option
  set_option_keeps o v w system closed =
      simp (system, closed)
        (
          ap (λ ps. ps ++ record { option = o; value = v } ∷ [])
              (pending-store_option (store_option w.base o v) o v
                ∙ pending-store_option w.base o v),
          refl,
          refl,
          refl,
        )

  -- An option of the system, set on a socket that has neither a handle nor a local address, before it
  -- connects, where libuv gives a new handle no descriptor: whatever the resolver and then the connection
  -- answer, the system is asked for no option. The option goes on waiting behind the others.
  pub on_connect-on_resolved :
      (o : SocketOption) (v : ℤ) (w : World) (resolved answered : ℤ) (i : AddrInfo)
      → (eqb_ℤ o connect_timeout || eqb_ℤ o auto_free_handle) ≡ false
      → w.own.socket ≡ none
      → w.own.local_addr ≡ none
      → uv.fileno (w.calls ++ tcp_init w.next ∷ []) w.next ≡ none
      → let w' =
          on_connect uv g answered (on_resolved uv g resolved (some i) (set_option uv g o v w).0) in
        (w'.base.pending_options ≡ w.base.pending_options ++ record { option = o; value = v } ∷ [])
        × (asked w'.calls ≡ asked w.calls)
  on_connect-on_resolved o v w resolved answered i system closed unbound no_fd =
      let x = (set_option uv g o v w).0 in
      let y = on_resolved uv g resolved (some i) x in
      let (pending, calls, own, next) = set_option_keeps o v w system closed in
      let closed_x : x.own.socket ≡ none = ap (λ t. t.socket) own ∙ closed in
      let made =
        init_socket-Deferring x closed_x (ap (λ t. t.local_addr) own ∙ unbound)
          (rw (calls, next) no_fd) in
      let (p, a) =
        Deferring-trans x y (on_connect uv g answered y)
          (on_resolved-Deferring resolved i x closed_x made) (on_connect-Deferring answered y) in
      (p ∙ pending, a ∙ ap asked calls)
