-- ===== src/CallbackManager/Pending.antt =====
-- `HasPendingCallbacks` of src/impl/core/CallbackManager.cpp.
use sm_ext_socket.Base.{◌≡◌, ◌==◌, Bool, not, ◌||◌, List, length}
use sm_ext_socket.CallbackManager.{CallbackManager, has_pending_callbacks}
use sm_ext_socket.CallbackManager.Contents.{Waiting, Holds}
use sm_ext_socket.Spsc.Observers.{empty-nil}

abbrev pub any : {A : Type 0} → List A → Bool
any xs = not (length xs == 0)

-- `HasPendingCallbacks` answers true exactly when an event of some kind waits.
pub has_pending_callbacks-Holds :
    (m : CallbackManager) (w : Waiting)
    → Holds m w
    → has_pending_callbacks m ≡ (
        any w.connects
        || any w.disconnects
        || any w.listens
        || any w.incomings
        || any w.receives
        || any w.errors)
unfolding has_pending_callbacks
has_pending_callbacks-Holds m w h = rw (
  has_pending_callbacks,
  empty-nil m.connect_queue w.connects h.connect_queue.1,
  empty-nil m.disconnect_queue w.disconnects h.disconnect_queue.1,
  empty-nil m.listen_queue w.listens h.listen_queue.1,
  empty-nil m.incoming_queue w.incomings h.incoming_queue.1,
  empty-nil m.data_queue w.receives h.data_queue.1,
  empty-nil m.error_queue w.errors h.error_queue.1,
)
