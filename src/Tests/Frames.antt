-- ===== src/Tests/Frames.antt =====
-- Concrete frames of src/impl/core/CallbackManager.cpp.
use sm_ext_socket.Base.{
  ℕ, ◌≡◌, ◌⊎◌, ◌≤◌, none, some, [], ◌∷◌, ◌++◌, ◌==◌, length, refl, if◌then◌else◌,
}
use sm_ext_socket.Base.Int.{pos, pos_part, eqb_ℤ}
use sm_ext_socket.Base.Text.{codes}
use sm_ext_socket.SocketTypes.{SocketError, no_endpoint, get_global, callbacks_per_frame}
use sm_ext_socket.CallbackManager.{new_manager, CallbackManager}
use sm_ext_socket.CallbackManager.Contents.{Waiting, Holds, new_manager-Holds}
use sm_ext_socket.CallbackManager.Enqueue.{
  Event, connected, disconnected, failed, enqueue, enqueue-Settled,
}
use sm_ext_socket.Dispatch.{Game, Host, returned, fault, bad_block}
use sm_ext_socket.Dispatch.Frame.{Progress, process_pending_callbacks}
use sm_ext_socket.Dispatch.Frame.Arrivals.{Quiet}
use sm_ext_socket.Dispatch.Frame.Merge.{rounds, merged}
use sm_ext_socket.Dispatch.Frame.Order.{process_pending_callbacks-merged}
use sm_ext_socket.Dispatch.Frame.Budget.{process_pending_callbacks-Ensures}
use sm_ext_socket.Tests.{globals}
use sm_ext_socket.Tests.Events.{no_events, served}

-- Plugins that only look at what they get.
abbrev pub host : Host
host = record { execute = λ i w. w; create_handle = λ p w. (pos 4, w); free_handle = λ h w. w }

host-Quiet : Quiet host
host-Quiet = record {
  execute = λ i w x h. h;
  create_handle = λ p w x h. h;
  free_handle = λ h w x k. k;
}

-- One error waits, for a socket that a plugin serves.
abbrev one_error : Waiting
one_error = record no_events {
  errors = record { socket = 1; error_type = SocketError.no_host; error_msg = codes "gone" } ∷ [];
}

abbrev waiting : CallbackManager
waiting = enqueue globals (failed 1 SocketError.no_host (codes "gone")) new_manager

waiting-Holds : Holds waiting one_error
waiting-Holds =
    (enqueue-Settled globals (failed 1 SocketError.no_host (codes "gone")) new_manager no_events
      new_manager-Holds).holds

abbrev pub game : Game
game = record {
  sockets = λ p. if p == 1 then some served else none;
  events = waiting;
  options = globals;
}

process_pending_callbacks-Ensures_example :
    (process_pending_callbacks host game ≡ fault)
    ⊎ (process_pending_callbacks host game ≡ bad_block)
    ⊎ ((p : Progress) × (w' : Game) × (process_pending_callbacks host game ≡ returned p w')
        × ((p.processed ≡ length p.trace)
            × (p.processed ≤ pos_part (get_global globals callbacks_per_frame))))
process_pending_callbacks-Ensures_example = process_pending_callbacks-Ensures host game

two_rounds : rounds {A = ℕ} 2 ((1 ∷ 2 ∷ []) ∷ [] ∷ (10 ∷ []) ∷ []) ≡ 1 ∷ 10 ∷ 2 ∷ []
unfolding rounds
two_rounds = refl

-- Two errors, a connection and a disconnect wait, in this order, and three may be executed.
abbrev gone : Event
gone = failed 1 SocketError.no_host (codes "gone")

abbrev crowd : Waiting
crowd = record one_error {
  connects = record { socket = 1; remote_endpoint = no_endpoint } ∷ [];
  disconnects = record { socket = 1 } ∷ [];
  errors = one_error.errors ++ one_error.errors;
}

abbrev crowded : CallbackManager
crowded =
    enqueue globals (disconnected 1)
      (enqueue globals (connected 1 no_endpoint) (enqueue globals gone waiting))

crowded-Holds : Holds crowded crowd
crowded-Holds =
    let two = enqueue-Settled globals gone waiting one_error waiting-Holds in
    let three = enqueue-Settled globals (connected 1 no_endpoint) _ _ two.holds in
    (enqueue-Settled globals (disconnected 1) _ _ three.holds).holds

abbrev busy_game : Game
busy_game = record game {
  events = crowded;
  options = record { options = λ o. if eqb_ℤ o callbacks_per_frame then some (pos 3) else none };
}

process_pending_callbacks-merged_example :
    (process_pending_callbacks host busy_game ≡ fault)
    ⊎ (process_pending_callbacks host busy_game ≡ bad_block)
    ⊎ ((p : Progress) × (w' : Game) × (process_pending_callbacks host busy_game ≡ returned p w')
        × (p.trace ≡ merged (pos_part (get_global busy_game.options callbacks_per_frame)) crowd))
process_pending_callbacks-merged_example =
    process_pending_callbacks-merged host host-Quiet busy_game crowd crowded-Holds
