-- ===== src/Tcp/Connecting/Outcome.antt =====
-- Who frees what when the resolver answers: `OnResolved` of src/impl/socket/TcpSocket.cpp.
use sm_ext_socket.Base.{ℕ, ◌+◌, ◌-◌, ◌≡◌, ◌⊎◌, false, List, [], ◌∷◌, ◌++◌}
use sm_ext_socket.Base.Int.{nonzero}
use sm_ext_socket.SocketTypes.{GlobalOptions}
use sm_ext_socket.Uv.{Address, UvCall, tcp_connect, Uv}
use sm_ext_socket.Uv.Calls.{taken_in}
use sm_ext_socket.Tcp.{World}

module _ (uv : Uv) (g : GlobalOptions) (p : ℕ) where
  -- libuv accepted a connect request to this address, after which come no other calls but these.
  pub record Asked (a : Address) (w : World) : Type 0 where
    pub before : List UvCall
    pub handle : ℕ
    pub after : List UvCall
    pub made : w.calls ≡ before ++ tcp_connect handle a ∷ after
    pub accepted : nonzero (uv.result before (tcp_connect handle a)) ≡ false

  -- The request is deleted, and libuv took none; or libuv took one, to this address, and it is kept.
  abbrev pub Handed : Address → World → World → Type 0
  Handed a w w' =
      ((w'.contexts ≡ w.contexts - 1) × (taken_in uv [] w'.calls ≡ taken_in uv [] w.calls))
      ⊎ (Asked a w'
          × (w'.contexts ≡ w.contexts)
          × (taken_in uv [] w'.calls ≡ taken_in uv [] w.calls + 1))
