-- ===== src/Unix/Closing.antt =====
-- Closing a socket of src/impl/socket/UnixSocket.cpp from the game thread, and the jobs of that.
use sm_ext_socket.Base.{
  ℕ, ◌+◌, ◌≡◌, ◌≢◌, refl, none, some, [], ◌∷◌, ◌++◌, arith, ◌==◌, if◌then◌else◌,
}
use sm_ext_socket.SocketTypes.{GlobalOptions}
use sm_ext_socket.Spsc.Queue.{Represents}
use sm_ext_socket.EventLoop.{EventLoop, on_async}
use sm_ext_socket.EventLoop.Drain.{on_async-post-post}
use sm_ext_socket.Uv.{close, read_stop, Uv, post_job, close_once}
use sm_ext_socket.Uv.Calls.{closes, closes-append, KnowsClosing, closes-close_once}
use sm_ext_socket.Unix.{World, Job, close_pipe, close_acceptor, disconnect, run_close_pipe, run_job}

module _ (uv : Uv) (g : GlobalOptions) (closing : KnowsClosing uv) where
  closes-run_close_pipe :
      (h k : ℕ) (w : World)
      → closes h (run_close_pipe uv g k w).calls
        ≡ closes h w.calls + (if k == h then (if closes k w.calls == 0 then 1 else 0) else 0)
  unfolding run_close_pipe closes
  closes-run_close_pipe h k w = ground (
    arith,
    closing w.calls k,
    closes-append h w.calls (read_stop k ∷ []),
    closes-append h (w.calls ++ read_stop k ∷ []) (close k ∷ []),
  )

  run_both :
      (w : World) (h a : ℕ)
      → h ≢ a
      → closes h w.calls ≡ 0
      → closes a w.calls ≡ 0
      → let w' = close_once uv g a (run_close_pipe uv g h w) in
        (closes h w'.calls ≡ 1) × (closes a w'.calls ≡ 1)
  run_both w h a other open_h open_a =
      let middle = run_close_pipe uv g h w in
      (
        ground (
          arith,
          closes-close_once uv g closing h a middle,
          closes-run_close_pipe h h w,
          closes-run_close_pipe a h w,
        ),
        ground (arith, closes-close_once uv g closing a a middle, closes-run_close_pipe a h w),
      )

  -- If libuv says that a handle is closing exactly when it was closed before: `Disconnect` on a socket
  -- with a pipe and an acceptor, neither closed so far, while no job waits. The socket has neither
  -- any more at once, and when the libuv thread has run its jobs, both handles are closed, each once.
  pub disconnect-on_async :
      (w : World) (h a : ℕ)
      → w.own.pipe ≡ some h
      → w.own.acceptor ≡ some a
      → h ≢ a
      → closes h w.calls ≡ 0
      → closes a w.calls ≡ 0
      → w.jobs.jobs.capacity ≡ 1024
      → Represents w.jobs.jobs []
      → w.jobs.wrappers ≡ 0
      → let w1 = (disconnect uv g w).0 in
        (w1.own.pipe ≡ none)
        × (w1.own.acceptor ≡ none)
        × ((l : EventLoop Job) × (w2 : World) × (on_async (run_job uv g) w1.jobs w1 ≡ some (l, w2))
            × (closes h w2.calls ≡ 1)
            × (closes a w2.calls ≡ 1))
  unfolding disconnect post_job run_job
  disconnect-on_async w h a pipe acceptor other open_h open_a size empty unwrapped =
      let w0 : World = record w { own = record w.own { pipe = none; acceptor = none } } in
      let w1 : World = post_job uv g (close_acceptor a) (post_job uv g (close_pipe h) w0) in
      let (l, run) =
        on_async-post-post (run_job uv g) w.jobs (close_pipe h) (close_acceptor a) w1 size empty
          unwrapped in
      let (once_h, once_a) = run_both w1 h a other open_h open_a in
      simp (pipe, acceptor) (refl, refl, (l, _, run, once_h, once_a))
