-- ===== src/CallbackManager/Contents.antt =====
-- The six queues of src/impl/core/CallbackManager.cpp as six bounded lists.
use sm_ext_socket.Base.{ℕ, ◌≡◌, refl, Bool, not, List, [], ◌∷◌, ◌++◌, arith, if◌then◌else◌}
use sm_ext_socket.Base.Int.{nonzero}
use sm_ext_socket.SocketTypes.{GlobalOptions, get_global, debug_mode}
use sm_ext_socket.Spsc.{Spsc, IsCapacity, new}
use sm_ext_socket.Spsc.Queue.{Represents, new-Represents}
use sm_ext_socket.CallbackManager.{
  ConnectEvent, DataEvent, ErrorEvent, DisconnectEvent, ListenEvent, IncomingEvent, Message,
  CallbackManager, new_manager,
}

-- The events that wait, oldest first, by kind.
pub record Waiting : Type 0 where
  pub connects : List ConnectEvent
  pub disconnects : List DisconnectEvent
  pub listens : List ListenEvent
  pub incomings : List IncomingEvent
  pub receives : List DataEvent
  pub errors : List ErrorEvent

abbrev pub Queue : {A : Type 0} → ℕ → Spsc A → List A → Type 0
Queue c q xs = (q.capacity ≡ c) × Represents q xs

-- The six queues, of the capacities that the class declares, hold these events.
pub record Holds (m : CallbackManager) (w : Waiting) : Type 0 where
  pub connect_queue : Queue 256 m.connect_queue w.connects
  pub disconnect_queue : Queue 256 m.disconnect_queue w.disconnects
  pub listen_queue : Queue 64 m.listen_queue w.listens
  pub incoming_queue : Queue 256 m.incoming_queue w.incomings
  pub data_queue : Queue 1024 m.data_queue w.receives
  pub error_queue : Queue 256 m.error_queue w.errors

new-Queue : {A : Type 0} (c : ℕ) → IsCapacity c → Queue {A = A} c (new c) []
unfolding new
new-Queue c valid = (refl, new-Represents c valid)

-- A new manager holds no event, in queues of the declared capacities.
pub new_manager-Holds : Holds new_manager (record {
  connects = [];
  disconnects = [];
  listens = [];
  incomings = [];
  receives = [];
  errors = [];
})
unfolding new_manager
new_manager-Holds = record {
  connect_queue = new-Queue 256 (record { big = omega arith; power = refl });
  disconnect_queue = new-Queue 256 (record { big = omega arith; power = refl });
  listen_queue = new-Queue 64 (record { big = omega arith; power = refl });
  incoming_queue = new-Queue 256 (record { big = omega arith; power = refl });
  data_queue = new-Queue 1024 (record { big = omega arith; power = refl });
  error_queue = new-Queue 256 (record { big = omega arith; power = refl });
}

-- The log after an event: a message more if the event was dropped in debug mode.
abbrev pub logged : GlobalOptions → List Message → Bool → Message → List Message
logged g log queued message =
    if not queued
    then (if nonzero (get_global g debug_mode) then log ++ message ∷ [] else log)
    else log
