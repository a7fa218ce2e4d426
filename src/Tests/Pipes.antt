-- ===== src/Tests/Pipes.antt =====
-- Concrete runs of the handlers of src/impl/socket/UnixSocket.cpp.
use sm_ext_socket.Base.{◌≡◌, refl, true, none, some, [], ◌∷◌, arith}
use sm_ext_socket.Base.Text.{codes}
use sm_ext_socket.SocketTypes.{SocketType, SocketError}
use sm_ext_socket.SocketBase.{new_base}
use sm_ext_socket.CallbackManager.{enqueue_error, new_manager}
use sm_ext_socket.Spsc.{new}
use sm_ext_socket.Spsc.Queue.{new-Represents}
use sm_ext_socket.EventLoop.{EventLoop, fresh, on_async}
use sm_ext_socket.Uv.{pipe_init, pipe_connect}
use sm_ext_socket.Uv.Calls.{closes}
use sm_ext_socket.Unix.{World, Job, new_unix, connect, run_connect, disconnect, run_listen, run_job}
use sm_ext_socket.Unix.Listening.{run_listen_lem}
use sm_ext_socket.Unix.Paths.{run_connect-connect}
use sm_ext_socket.Unix.Closing.{disconnect-on_async}
use sm_ext_socket.Tests.{globals, uv}

abbrev new_world : World
new_world = record {
  self = 1;
  base = new_base SocketType.unix;
  own = new_unix;
  events = new_manager;
  jobs = fresh;
  calls = [];
  contexts = 0;
  next = 10;
}

-- It has a pipe and an acceptor.
abbrev open_world : World
open_world = record new_world {
  own = record { pipe = some 7; acceptor = some 8; path = codes "/tmp/a" };
}

-- `uv_listen` fails.
run_listen_lem_example :
    let w = run_listen uv globals new_world in
    (w.own.acceptor ≡ none)
    × (w.events
        ≡ enqueue_error globals 1 SocketError.listen_error
            (codes "address already in use")
            new_manager)
    × (closes 10 w.calls ≡ 1)
unfolding new_unix new_base closes
run_listen_lem_example = run_listen_lem uv globals new_world refl refl

run_connect-connect_example :
    let (w1, answer1) = connect uv globals (codes "/tmp/a") new_world in
    let (w2, answer2) = connect uv globals (codes "/tmp/b") w1 in
    let w3 = run_connect uv globals (run_connect uv globals w2) in
    (answer1 ≡ true)
    × (answer2 ≡ true)
    × (w3.own.pipe ≡ some 10)
    × (w3.calls
        ≡ pipe_init 10 ∷ pipe_connect 10 (codes "/tmp/b") ∷ pipe_connect 10 (codes "/tmp/b") ∷ [])
    × (w3.contexts ≡ 2)
unfolding new_unix new_base
run_connect-connect_example =
    run_connect-connect uv globals new_world (codes "/tmp/a") (codes "/tmp/b") refl refl

disconnect-on_async_example :
    let w1 = (disconnect uv globals open_world).0 in
    (w1.own.pipe ≡ none)
    × (w1.own.acceptor ≡ none)
    × ((l : EventLoop Job) × (w2 : World) × (on_async (run_job uv globals) w1.jobs w1
          ≡ some (l, w2))
        × (closes 7 w2.calls ≡ 1)
        × (closes 8 w2.calls ≡ 1))
unfolding closes fresh new
disconnect-on_async_example =
    disconnect-on_async uv globals (λ calls h. refl) open_world 7 8 refl refl
      (λ e. absurd (omega (arith, e))) refl refl refl
      (new-Represents 1024 (record { big = omega arith; power = refl })) refl
