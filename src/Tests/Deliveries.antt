-- ===== src/Tests/Deliveries.antt =====
-- Concrete data on its way from libuv to a plugin.
use sm_ext_socket.Base.{Option, List, true, ◌≡◌, ◌⊎◌, ◌≤◌, refl, none, some, [], ◌∷◌, arith}
use sm_ext_socket.Base.Int.{pos, pos_part}
use sm_ext_socket.SocketTypes.{SocketError, no_endpoint, get_global, callbacks_per_frame}
use sm_ext_socket.CallbackManager.Contents.{Holds, new_manager-Holds}
use sm_ext_socket.CallbackManager.Buffers.{Owned}
use sm_ext_socket.Dispatch.{Game, Host, returned, fault, received, execute, free_block}
use sm_ext_socket.Dispatch.Safety.{Safe, Gentle}
use sm_ext_socket.Dispatch.Delivery.{receive_call, arrive, arrived, execute-arrive}
use sm_ext_socket.Dispatch.Frame.{Progress, process_pending_callbacks}
use sm_ext_socket.Dispatch.Turns.{
  Arrival, event, bytes, arrive_all, with_arrivals, put, start, arrives, makes, Reach, new, next,
}
use sm_ext_socket.Dispatch.Turns.Frames.{with_arrivals-Gentle, process_pending_callbacks-Reach}
use sm_ext_socket.CallbackManager.Enqueue.{Event}
use sm_ext_socket.SocketBase.{SocketBase, new_base}
use sm_ext_socket.Tcp.{new_tcp}
use sm_ext_socket.Natives.Sockets.{tcp_socket}
use sm_ext_socket.Natives.Sockets.Sending.{events_of}
use sm_ext_socket.Tests.{globals, uv, connecting}
use sm_ext_socket.Tests.Events.{no_events, served, hello, no_blocks}

-- Plugins that do nothing.
abbrev host : Host
host = record { execute = λ i w. w; create_handle = λ p w. (pos 4, w); free_handle = λ h w. w }

host-Gentle : Gentle host
host-Gentle = record {
  execute = λ i hand w safe. safe;
  create_handle = λ p hand w safe. safe;
  free_handle = λ h w safe. safe;
}

-- While a callback runs the libuv thread reports an error of the socket at 1, if it is there.
abbrev reported : Option SocketBase → List Arrival
reported none = []
reported (some b) = event (Event.failed 1 SocketError.send_error hello) ∷ []

abbrev busy : Host
busy = with_arrivals host (λ w. reported (w.sockets 1))

busy-Gentle : Gentle busy
busy-Gentle = with_arrivals-Gentle host (λ w. reported (w.sockets 1)) host-Gentle

-- A socket is made, and bytes and a disconnect arrive for it.
abbrev made : Game
made = record (start globals) { sockets = put 1 served (start globals).sockets }

abbrev game : Game
game = arrive_all (bytes true 1 hello no_endpoint ∷ event (Event.disconnected 1) ∷ []) made

game-Reach : Reach busy game
game-Reach =
    next
      (next (next (new globals) (makes 1 served refl))
        (arrives (bytes true 1 hello no_endpoint) refl))
      (arrives (event (Event.disconnected 1)) refl)

process_pending_callbacks-Reach_example :
    Safe [] game
    × ((process_pending_callbacks busy game ≡ fault)
        ⊎ ((p : Progress) × (w' : Game) × (process_pending_callbacks busy game ≡ returned p w')
            × (p.processed ≤ pos_part (get_global globals callbacks_per_frame))
            × Safe [] w'))
process_pending_callbacks-Reach_example =
    process_pending_callbacks-Reach busy busy-Gentle game game-Reach

execute-arrive_example :
    let s = tcp_socket connecting in
    let e = arrived uv globals none hello s in
    let m = events_of (arrive uv globals none hello s) in
    let w : Game = record made { events = m } in
    Holds m (record no_events { receives = e ∷ [] })
    × Owned m.memory (e ∷ [])
    × (execute host (received e) w
        ≡ free_block host e.block (host.execute (receive_call served 5 hello no_endpoint) w))
unfolding new_base new_tcp
execute-arrive_example =
    let s = tcp_socket connecting in
    execute-arrive uv globals host none hello s no_events
      (record made { events = events_of (arrive uv globals none hello s) }) served 5 refl
      new_manager-Holds no_blocks (omega arith) refl (λ null. ground (arith, null)) refl refl refl
