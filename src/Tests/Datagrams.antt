-- ===== src/Tests/Datagrams.antt =====
-- Concrete runs of the handlers of src/impl/socket/UdpSocket.cpp.
use sm_ext_socket.Base.{◌≡◌, refl, some, []}
use sm_ext_socket.Base.Int.{ℤ, pos, negsuc}
use sm_ext_socket.Base.Text.{codes}
use sm_ext_socket.SocketTypes.{SocketType, SocketError}
use sm_ext_socket.SocketBase.{new_base}
use sm_ext_socket.CallbackManager.{enqueue_error, enqueue_listen, new_manager}
use sm_ext_socket.EventLoop.{fresh}
use sm_ext_socket.Uv.{Uv, UvCall, udp_bind}
use sm_ext_socket.Udp.{World, new_udp}
use sm_ext_socket.Udp.Handle.{get_local_endpoint, run_listen}
use sm_ext_socket.Udp.Opening.{run_listen-bind_failed}
use sm_ext_socket.Tests.{globals, uv, address, result}

abbrev new_world : World
new_world = record {
  self = 1;
  base = new_base SocketType.udp;
  own = new_udp;
  events = new_manager;
  jobs = fresh;
  calls = [];
  contexts = 1;
  next = 10;
}

-- The address is taken.
abbrev refuse_bind : UvCall → ℤ
refuse_bind (udp_bind h a) = negsuc 97
refuse_bind _ = pos 0

abbrev busy : Uv
busy = record uv { result = λ calls call. refuse_bind call }

abbrev bound_world : World
bound_world = record new_world { own = record new_udp { local_addr = some address } }

run_listen-bind_failed_example :
    let w = run_listen busy globals bound_world in
    (w.own.socket ≡ some 10)
    × (w.events
        ≡ enqueue_listen globals 1 (get_local_endpoint busy globals w) (
            enqueue_error globals 1 SocketError.bind_error
              (codes "address already in use")
              new_manager))
unfolding new_udp new_base
run_listen-bind_failed_example =
    run_listen-bind_failed busy globals bound_world address (negsuc 97) refl refl refl refl refl
