-- ===== src/Udp/Sending.antt =====
-- `SendTo` of src/impl/socket/UdpSocket.cpp: who frees what when the resolver answers.
use sm_ext_socket.Base.{ℕ, ◌+◌, ◌-◌, ◌≡◌, ◌⊎◌, false, List, [], ◌∷◌, ◌++◌}
use sm_ext_socket.Base.Int.{nonzero}
use sm_ext_socket.SocketTypes.{GlobalOptions}
use sm_ext_socket.Uv.{UvCall, udp_send, free_addrinfo, Uv, AddrInfo}
use sm_ext_socket.Uv.Calls.{frees, taken_in}
use sm_ext_socket.Udp.{World}

module _ (uv : Uv) (g : GlobalOptions) (data_sent : List ℕ) where
  -- libuv took the datagram for the address, as the last call but the freeing of the resolver's result.
  pub record Taken (i : AddrInfo) (w : World) : Type 0 where
    pub before : List UvCall
    pub handle : ℕ
    pub last : w.calls ≡ before ++ udp_send handle data_sent i.address ∷ free_addrinfo i.place ∷ []
    pub accepted : nonzero (uv.result before (udp_send handle data_sent i.address)) ≡ false

  -- The result is freed once. The request is deleted, and libuv took none; or libuv took one, and it is
  -- kept.
  abbrev pub Settled : AddrInfo → World → World → Type 0
  Settled i w w' =
      (frees i.place w'.calls ≡ frees i.place w.calls + 1)
      × (((w'.contexts ≡ w.contexts - 1) × (taken_in uv [] w'.calls ≡ taken_in uv [] w.calls))
          ⊎ (Taken i w'
              × (w'.contexts ≡ w.contexts)
              × (taken_in uv [] w'.calls ≡ taken_in uv [] w.calls + 1)))
