-- ===== src/Tests/Events.antt =====
-- Concrete queues of events, and hosts that answer them.
use sm_ext_socket.Base.{
  ℕ, ◌≡◌, refl, inl, true, false, Option, none, some, List, [], ◌∷◌, ◌==◌, arith, if◌then◌else◌,
}
use sm_ext_socket.Base.Int.{pos}
use sm_ext_socket.Base.Text.{codes}
use sm_ext_socket.SocketTypes.{SocketType, SocketError, no_endpoint}
use sm_ext_socket.SocketBase.{SocketBase, new_base}
use sm_ext_socket.CallbackManager.{
  DataEvent, DisconnectEvent, has_pending_callbacks, Memory, new_manager, data_queue_full,
  enqueue_receive,
}
use sm_ext_socket.CallbackManager.Contents.{Waiting, Holds, new_manager-Holds, logged}
use sm_ext_socket.CallbackManager.Pending.{has_pending_callbacks-Holds}
use sm_ext_socket.CallbackManager.Enqueue.{Settled, failed, enqueue, enqueue-Settled}
use sm_ext_socket.CallbackManager.Buffers.{Owned}
use sm_ext_socket.CallbackManager.Buffers.Receive.{enqueue_receive-Owned, data_event}
use sm_ext_socket.Dispatch.{Game, Host, fault, execute_disconnect}
use sm_ext_socket.Dispatch.Lifetime.{execute_disconnect-delete}
use sm_ext_socket.Tests.{globals}

abbrev pub no_events : Waiting
no_events = record {
  connects = [];
  disconnects = [];
  listens = [];
  incomings = [];
  receives = [];
  errors = [];
}

enqueue-Settled_example :
    Settled
      (enqueue globals (failed 1 SocketError.no_host (codes "gone")) new_manager)
      (record no_events {
        errors =
            record { socket = 1; error_type = SocketError.no_host; error_msg = codes "gone" } ∷ [];
      })
      []
      new_manager.memory
unfolding new_manager
enqueue-Settled_example =
    enqueue-Settled globals (failed 1 SocketError.no_host (codes "gone")) new_manager no_events
      new_manager-Holds

pub no_blocks : Owned new_manager.memory no_events.receives
unfolding new_manager
no_blocks = record { blocks = tt; rising = omega arith; no_leak = λ p. inl refl }

abbrev pub hello : List ℕ
hello = codes "hello"

abbrev pub hello_event : DataEvent
hello_event = data_event 1 hello no_endpoint new_manager.memory

enqueue_receive-Owned_example :
    let m = enqueue_receive globals true 1 hello no_endpoint new_manager in
    Owned m.memory (hello_event ∷ [])
    × Holds m (record no_events { receives = hello_event ∷ [] })
    × (m.log ≡ logged globals new_manager.log true data_queue_full)
enqueue_receive-Owned_example =
    enqueue_receive-Owned globals 1 hello no_endpoint new_manager no_events new_manager-Holds
      no_blocks

-- A heap with one block, of the byte 65.
abbrev heap : Memory
heap = record { next = 2; blocks = λ p. if 1 == p then some (65 ∷ 0 ∷ []) else none }

abbrev letter : DataEvent
letter = record { socket = 1; block = 1; length = 1; sender = no_endpoint }

heap-Owned : Owned heap (letter ∷ [])
heap-Owned = record {
  blocks = ((65 ∷ [], record { there = refl; counted = refl }), tt);
  rising = (omega arith, omega arith);
  no_leak = λ p. ground arith;
}

-- A socket that a plugin's function 5 serves.
abbrev pub served : SocketBase
served = record (new_base SocketType.tcp) {
  callbacks = λ e. record { function = some 5; cookie = pos 0 };
  sm_handle = pos 3;
}

abbrev game_of : Option SocketBase → Game
game_of s = record {
  sockets = λ p. if p == 1 then s else none;
  events = record new_manager { memory = heap };
  options = globals;
}

-- Plugins that delete the socket.
abbrev host : Host
host = record {
  execute = λ i w. record w { sockets = λ p. none };
  create_handle = λ p w. (pos 4, w);
  free_handle = λ h w. w;
}

abbrev lost : DisconnectEvent
lost = record { socket = 1 }

execute_disconnect-delete_example : execute_disconnect host lost (game_of (some served)) ≡ fault
unfolding new_base
execute_disconnect-delete_example =
    execute_disconnect-delete host lost (game_of (some served)) served 5 refl refl refl refl
      (λ i w. refl)

has_pending_callbacks-Holds_example : has_pending_callbacks new_manager ≡ false
has_pending_callbacks-Holds_example =
    has_pending_callbacks-Holds new_manager no_events new_manager-Holds
