-- ===== src/Natives/Ports.antt =====
-- The ports of src/natives/socket_natives.cpp.
use sm_ext_socket.Base.{ℕ, ◌+◌, ◌≡◌, refl, some, List, arith, add-mod_right}
use sm_ext_socket.Base.Int.{ℤ, pos}
use sm_ext_socket.Base.Text.{codes}
use sm_ext_socket.Natives.{
  Class, SourceMod, thrown, with_socket, to_uint16, invalid_port, socket_bind, socket_connect,
  socket_send_to,
}

module _ {W : Type 0} (c : Class W) (sourcemod : SourceMod W) where
  -- On a good handle, `Bind` and `Connect` throw at a port of 65536 or more, and change nothing.
  -- `SendTo` takes such a port for the one that is 65536 less.
  pub socket_send_to-socket_connect :
      (handle : ℤ) (p n : ℕ) (memory hostname : List ℕ) (size : ℤ) (w : W)
      → sourcemod.read_handle handle w ≡ some p
      → let port = pos (n + 65536) in
        (socket_bind c sourcemod handle hostname port w
          ≡ (thrown (codes "Invalid port specified"), w))
        × (socket_connect c sourcemod handle hostname port w
            ≡ (thrown (codes "Invalid port specified"), w))
        × (socket_send_to c sourcemod handle memory size hostname port w
            ≡ socket_send_to c sourcemod handle memory size hostname (pos n) w)
  unfolding socket_bind socket_connect socket_send_to with_socket to_uint16 invalid_port
  socket_send_to-socket_connect handle p n memory hostname size w good =
      (ground (arith, good), ground (arith, good), rw (add-mod_right n 65536) refl)
