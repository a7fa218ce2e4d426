-- ===== src/Tests/Managers.antt =====
-- Concrete runs of src/impl/core/SocketManager.cpp.
use sm_ext_socket.Base.{◌∷◌}
use sm_ext_socket.Base.Int.{pos}
use sm_ext_socket.Extension.{Extension, on_unload}
use sm_ext_socket.Extension.Unloading.{on_unload-clear}
use sm_ext_socket.Base.{
  ℕ, ◌+◌, ◌≡◌, refl, Bool, true, false, none, some, [], ◌==◌, arith, if◌then◌else◌,
}
use sm_ext_socket.SocketManager.{
  SocketManager, Lifecycle, new_manager, create_socket, destroy_socket,
}
use sm_ext_socket.SocketManager.Tracking.{Tracked, create_socket-Tracked, destroy_socket-Tracked}
use sm_ext_socket.SocketBase.{SocketBase}
use sm_ext_socket.Dispatch.{fault, disconnected, socket_of, execute}
use sm_ext_socket.Dispatch.Destroyed.{execute-destroy_socket}
use sm_ext_socket.Tests.Events.{served}
use sm_ext_socket.Tests.Frames.{host, game}

-- A socket is its deletion mark, and the environment counts the destructors that ran.
abbrev ops : Lifecycle Bool ℕ
ops = record {
  mark_deleted = λ x. true;
  dispose = λ x n. n + 1;
  start_loop = λ n. n;
  stop_loop = λ n. n;
}

abbrev empty_set : SocketManager Bool ℕ
empty_set = new_manager ops 0

empty_set-Tracked : Tracked empty_set
unfolding new_manager
empty_set-Tracked = record {
  same = λ p. refl;
  unused = λ p h. refl;
  null = refl;
  begun = omega arith;
}

abbrev one_socket : SocketManager Bool ℕ
one_socket = (create_socket ops false empty_set).1

one_socket-Tracked : Tracked one_socket
one_socket-Tracked = create_socket-Tracked ops false empty_set empty_set-Tracked

destroy_socket-Tracked_example :
    (m' : SocketManager Bool ℕ) × (destroy_socket ops 1 one_socket ≡ some m')
    × Tracked m'
    × ((q : ℕ) → m'.heap q ≡ (if 1 == q then none else one_socket.heap q))
    × (m'.env ≡ 1)
unfolding create_socket new_manager
destroy_socket-Tracked_example =
    destroy_socket-Tracked ops 1 false one_socket one_socket-Tracked refl

-- Sockets that only the dispatch reads.
abbrev bases : Lifecycle SocketBase ℕ
bases = record {
  mark_deleted = λ s. record s { deleted = true };
  dispose = λ s n. n + 1;
  start_loop = λ n. n;
  stop_loop = λ n. n;
}

abbrev no_bases : SocketManager SocketBase ℕ
no_bases = new_manager bases 0

no_bases-Tracked : Tracked no_bases
unfolding new_manager
no_bases-Tracked = record {
  same = λ p. refl;
  unused = λ p h. refl;
  null = refl;
  begun = omega arith;
}

abbrev one_base : SocketManager SocketBase ℕ
one_base = (create_socket bases served no_bases).1

execute-destroy_socket_example :
    (m' : SocketManager SocketBase ℕ) × (destroy_socket bases 1 one_base ≡ some m')
    × (execute host (disconnected (record { socket = 1 })) (record game { sockets = m'.heap })
        ≡ fault)
unfolding create_socket new_manager socket_of
execute-destroy_socket_example =
    execute-destroy_socket bases host one_base served (disconnected (record { socket = 1 })) game
      (create_socket-Tracked bases served no_bases no_bases-Tracked) refl

-- One socket with a handle, in a loaded extension.
abbrev loaded : Extension Bool ℕ
loaded = record {
  manager = one_socket;
  handle_type = pos 7;
  hooked = true;
  natives = true;
  objects = 1 ∷ [];
}

on_unload-clear_example :
    (e' : Extension Bool ℕ) × (on_unload ops loaded ≡ some e')
    × (e'.hooked ≡ false)
    × (e'.objects ≡ [])
    × (e'.manager.sockets ≡ [])
    × ((p : ℕ) → e'.manager.heap p ≡ none)
unfolding create_socket new_manager
on_unload-clear_example = on_unload-clear ops loaded one_socket-Tracked (tt, tt) ((false, refl), tt)
