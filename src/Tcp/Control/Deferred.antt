-- ===== src/Tcp/Control/Deferred.antt =====
-- Options set on a socket of src/impl/socket/TcpSocket.cpp that has no handle yet.
use sm_ext_socket.Base.{
  ℕ, ◌≡◌, refl, ◌∙◌, ap, false, none, some, [], ◌∷◌, ◌++◌, map, arith, if◌then◌else◌, ◌||◌,
}
use sm_ext_socket.Base.Int.{ℤ, eqb_ℤ, eqb_ℤ-refl}
use sm_ext_socket.SocketTypes.{SocketOption, GlobalOptions, connect_timeout, auto_free_handle}
use sm_ext_socket.SocketBase.{SockOpt, get_option, pending_calls, store_option}
use sm_ext_socket.SocketBase.Options.{has_cell, get_option-store_option}
use sm_ext_socket.SocketBase.Pending.{call_of, pending-store_option, apply-queue_option}
use sm_ext_socket.Uv.{
  set_handle_option, Address, UvCall, tcp_init, tcp_bind, set_sock_opt, Uv, apply_options,
}
use sm_ext_socket.Tcp.{World}
use sm_ext_socket.Tcp.Connecting.{init_socket}
use sm_ext_socket.Tcp.Control.{set_option}

-- The call on a descriptor.
abbrev pub on_fd : ℕ × SockOpt → UvCall
on_fd c = set_sock_opt c.0 c.1

module _ (uv : Uv) (g : GlobalOptions) (o : SocketOption) (v : ℤ) (w : World) where
  -- An option of the system, set on a bound socket that has no handle, reads back at once. When the
  -- handle is made and bound, and so has a descriptor, the system is asked for the options that
  -- waited, in their order and this one last, on that descriptor, and none waits any more.
  pub set_option-init_socket :
      (a : Address) (fd : ℕ)
      → (eqb_ℤ o connect_timeout || eqb_ℤ o auto_free_handle) ≡ false
      → w.own.socket ≡ none
      → w.own.local_addr ≡ some a
      → let opened = (w.calls ++ tcp_init w.next ∷ []) ++ tcp_bind w.next a ∷ [] in
        uv.fileno opened w.next ≡ some fd
        → let w' = init_socket uv g (set_option uv g o v w).0 in
          (w'.own.socket ≡ some w.next)
          × (get_option w'.base o ≡ (if has_cell o then v else get_option w.base o))
          × (w'.base.pending_options ≡ [])
          × (w'.calls
              ≡ ((w.calls ++ tcp_init w.next ∷ []) ++ tcp_bind w.next a ∷ [])
                ++ map on_fd (
                    map (λ call. (fd, call)) (pending_calls w.base.pending_options ++ call_of o v)))
  unfolding set_option set_handle_option init_socket apply_options
  set_option-init_socket a fd system closed bound fileno =
      let opened = (w.calls ++ tcp_init w.next ∷ []) ++ tcp_bind w.next a ∷ [] in
      let b = store_option w.base o v in
      let (reads, empty, calls) = apply-queue_option b o v (uv.fileno opened) w.next fd fileno in
      simp (system, closed, bound)
        (
          refl,
          reads ∙ ground (arith, get_option-store_option w.base o o v, eqb_ℤ-refl o),
          empty,
          ap (λ cs. opened ++ map on_fd cs)
              (calls
                ∙ ap (λ ps. map (λ call. (fd, call)) (pending_calls ps ++ call_of o v))
                    (pending-store_option w.base o v)),
        )
