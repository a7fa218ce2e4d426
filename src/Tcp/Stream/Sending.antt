-- ===== src/Tcp/Stream/Sending.antt =====
-- What `Send` of src/impl/socket/TcpSocket.cpp answers, and what becomes of the data.
use sm_ext_socket.Base.{
  ℕ, ◌+◌, ◌-◌, ◌≡◌, refl, true, false, some, List, [], ◌∷◌, ◌++◌, arith, length, ltb, subst, ap,
  ◌∙◌, if◌then◌else◌,
}
use sm_ext_socket.Base.Int.{nonzero}
use sm_ext_socket.SocketTypes.{SocketError, GlobalOptions}
use sm_ext_socket.CallbackManager.{enqueue_error}
use sm_ext_socket.Spsc.Queue.{push, Represents}
use sm_ext_socket.EventLoop.Drain.{post-Posted}
use sm_ext_socket.Uv.{Uv, post_job, write}
use sm_ext_socket.Tcp.{Job, send_bytes, World}
use sm_ext_socket.Tcp.Stream.{send, run_send}

module _ (uv : Uv) (g : GlobalOptions) where
  -- `Send` answers true whether or not its job is queued. With fewer than 1023 jobs waiting the job is
  -- put behind them; else it is dropped and the jobs stay as they were. The request that holds the
  -- data is there in both cases.
  pub send_lem :
      (w : World) (js : List Job) (text : List ℕ)
      → w.jobs.jobs.capacity ≡ 1024
      → Represents w.jobs.jobs js
      → w.jobs.wrappers ≡ length js
      → let (w', answer) = send uv g text w in
        (answer ≡ true)
        × Represents w'.jobs.jobs (if ltb (length js) 1023 then js ++ send_bytes text ∷ [] else js)
        × (w'.contexts ≡ w.contexts + 1)
  unfolding send post_job
  send_lem w js text size v owned =
      let p = post-Posted w.jobs js (send_bytes text) v owned in
      (refl, subst (Represents _) (queue ∙ split) p.queued, refl)
    where
      queue :
          (push w.jobs.jobs.capacity js (send_bytes text)).0 ≡ (push 1024 js (send_bytes text)).0
      queue = ap (λ c. (push c js (send_bytes text)).0) size

      split :
          (push 1024 js (send_bytes text)).0
          ≡ (if ltb (length js) 1023 then js ++ send_bytes text ∷ [] else js)
      split = ground arith

  -- The job of `Send` on a live, connected socket hands exactly the data to libuv, once. If libuv
  -- refuses it, one error is reported and the request deleted.
  pub run_send_lem :
      (w : World) (h : ℕ) (text : List ℕ)
      → w.base.deleted ≡ false
      → w.own.socket ≡ some h
      → let w' = run_send uv g text w in
        let code = uv.result w.calls (write h text) in
        (w'.calls ≡ w.calls ++ write h text ∷ [])
        × (w'.events ≡ (
            if nonzero code
            then enqueue_error g w.self SocketError.send_error (uv.strerror code) w.events
            else w.events))
        × (w'.contexts ≡ (if nonzero code then w.contexts - 1 else w.contexts))
  unfolding run_send
  run_send_lem w h text live at = ground arith
