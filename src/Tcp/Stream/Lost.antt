-- ===== src/Tcp/Stream/Lost.antt =====
-- `Send` and then `Disconnect`, of src/impl/socket/TcpSocket.cpp, in one go of the game thread.
use sm_ext_socket.Base.{
  ℕ, ◌-◌, ◌+◌, ◌≡◌, refl, sym, subst, true, false, none, some, List, [], ◌∷◌, ◌++◌, arith,
}
use sm_ext_socket.SocketTypes.{GlobalOptions}
use sm_ext_socket.Spsc.Queue.{Represents}
use sm_ext_socket.EventLoop.{EventLoop, on_async}
use sm_ext_socket.EventLoop.Drain.{on_async-post-post}
use sm_ext_socket.Uv.{close, Uv, post_job, close_once}
use sm_ext_socket.Tcp.{World, Job, send_bytes, close_handles}
use sm_ext_socket.Tcp.Stream.{send, run_send}
use sm_ext_socket.Tcp.Control.{disconnect, run_close, run_job}

-- Data sent on a live, connected socket that has no acceptor, while no job waits, is lost if the socket
-- is disconnected before the libuv thread runs the job of `Send`: `Send` answered true, but that
-- thread only closes the handle, which was not closing. Nothing is written, no event is made, and the
-- request that held the data is deleted.
pub send-disconnect :
    (uv : Uv) (g : GlobalOptions) (somaxconn : ℕ) (w : World) (h : ℕ) (text : List ℕ)
    → w.base.deleted ≡ false
    → w.own.socket ≡ some h
    → w.own.acceptor ≡ none
    → uv.is_closing w.calls h ≡ false
    → w.jobs.jobs.capacity ≡ 1024
    → Represents w.jobs.jobs []
    → w.jobs.wrappers ≡ 0
    → let (w1, sent) = send uv g text w in
      let w2 = (disconnect uv g w1).0 in
      (sent ≡ true)
      × ((l : EventLoop Job) × (w3 : World) × (on_async (run_job uv g somaxconn) w2.jobs w2
            ≡ some (l, w3))
          × (w3.calls ≡ w.calls ++ close h ∷ [])
          × (w3.events ≡ w.events)
          × (w3.contexts ≡ w.contexts + 1 - 1))
unfolding send disconnect post_job run_job run_send run_close close_once
send-disconnect uv g somaxconn w h text live at no_acceptor open_h size empty unwrapped =
    let w0 : World = record w {
      own = record w.own { socket = none; acceptor = none };
      contexts = w.contexts + 1;
    } in
    let w2 : World =
      post_job uv g (close_handles (some h) none) (post_job uv g (send_bytes text) w0) in
    let (l, run) =
      on_async-post-post (run_job uv g somaxconn) w.jobs (send_bytes text)
        (close_handles (some h) none) w2 size empty unwrapped in
    let shut : (disconnect uv g (send uv g text w).0).0 ≡ w2 = ground arith in
    (
      refl,
      subst
          (λ v.
            (l : EventLoop Job) × (w3 : World) × (on_async (run_job uv g somaxconn) v.jobs v
              ≡ some (l, w3))
            × (w3.calls ≡ w.calls ++ close h ∷ [])
            × (w3.events ≡ w.events)
            × (w3.contexts ≡ w.contexts + 1 - 1))
          (sym shut) (l, _, run, ground arith, ground arith, ground arith),
    )
