-- ===== src/EventLoop/Threads/Accesses.antt =====
-- The jobs of src/impl/core/EventLoop.cpp at each access of its two threads.
use sm_ext_socket.Base.{
  ℕ, ◌+◌, ◌-◌, ◌≡◌, inl, inr, refl, sym, ap, ◌∙◌, Bool, true, false, List, [], ◌∷◌, ◌++◌,
  append_assoc, arith, length, length-append, ltb, Bool-cases,
}
use sm_ext_socket.Spsc.{Spsc, try_enqueue}
use sm_ext_socket.Spsc.Queue.{Represents, pop, try_enqueue-Enqueued, try_dequeue-Dequeued}
use sm_ext_socket.EventLoop.Threads.{
  Caller, idle, start_running, start_stopping, start_thread, stop_stopping, stop_async_send,
  stop_uv_stop, stop_join, stop_running, post_enqueue, post_async_send, UvThread, absent, check,
  polling, blocked, draining, recheck, asleep, ended, Life, enqueue_job, join, caller_step,
  drain_found, drain_job, uv_step, UvStep, run, call_async, block, other_event, return,
}
use sm_ext_socket.EventLoop.Threads.Invariant.{AfterStep, AfterStep-eq, FlagsAt}

abbrev pub is_draining : UvThread → Bool
is_draining draining = true
is_draining _ = false

-- The game thread has queued a job, and is about to wake the loop for it.
abbrev pub is_waking : {J : Type 0} → Caller J → Bool
is_waking post_async_send = true
is_waking _ = false

-- The wrappers that `Post` holds before it has queued them.
abbrev pub in_hand : {J : Type 0} → Caller J → ℕ
in_hand (post_enqueue j) = 1
in_hand _ = 0

module _ {J : Type 0} where
  -- The jobs `js` wait.
  pub record Jobs (js : List J) (l : Life J) : Type 0 where
    pub held : Represents l.loop.jobs js
    pub in_order : l.executed ++ js ≡ l.posted
    pub owned : l.loop.wrappers ≡ length js + in_hand l.caller
    pub awake : l.pending ≡ false → is_draining l.uv ≡ false → is_waking l.caller ≡ false → js ≡ []

  abbrev pub Kept : Life J → Type 0
  Kept l = (js : List J) × Jobs js l

  -- A move that leaves the jobs alone, and wakes nobody up less.
  pub moved-Kept :
      (js : List J) (l l' : Life J)
      → Jobs js l
      → l'.loop.jobs ≡ l.loop.jobs
      → l'.executed ≡ l.executed
      → l'.posted ≡ l.posted
      → l'.loop.wrappers ≡ length js + in_hand l'.caller
      → (l'.pending ≡ false → is_draining l'.uv ≡ false → is_waking l'.caller ≡ false → js ≡ [])
      → Kept l'
  moved-Kept js l l' v ej ee ep owned awake = (
    js,
    record { held = rw ej v.held; in_order = rw (ee, ep) v.in_order; owned = owned; awake = awake },
  )

  enqueue_job-Kept :
      (j : J) (js : List J) (l : Life J)
      → Jobs js l
      → l.caller ≡ post_enqueue j
      → Kept (enqueue_job j l)
  unfolding enqueue_job
  enqueue_job-Kept j js l v at =
      let e = try_enqueue-Enqueued l.loop.jobs js j v.held in
      elim (Bool-cases (ltb (length js) (l.loop.jobs.capacity - 1))) [
        | inl room ↦
            let ok : (try_enqueue l.loop.jobs j).1 ≡ true = e.answer ∙ rw room in
            rw (ok, enqueue_job)
              (
                js ++ j ∷ [],
                record {
                  held = rw room at (e.holds);
                  in_order =
                      sym (append_assoc l.executed js (j ∷ []))
                      ∙ ap (λ es. es ++ j ∷ []) v.in_order;
                  owned = ground (arith, v.owned, at, length-append js (j ∷ []));
                  awake = λ p d w. cc w;
                },
              )
        | inr full ↦
            let dropped : (try_enqueue l.loop.jobs j).1 ≡ false = e.answer ∙ rw full in
            rw (dropped, enqueue_job)
              (
                js,
                record {
                  held = rw full at (e.holds);
                  in_order = v.in_order;
                  owned = ground (arith, v.owned, at);
                  awake = λ p d w. v.awake p d (ground (arith, at));
                },
              )
      ]

  join-Kept :
      (u : UvThread) (js : List J) (l : Life J)
      → l.uv ≡ u
      → l.caller ≡ stop_join
      → Jobs js l
      → AfterStep Kept (join u l)
  unfolding join
  join-Kept ended js l here at v =
      moved-Kept js l _ v refl refl refl (ground (arith, v.owned, at))
        (ground (arith, v.awake, at, here))
  join-Kept absent js l here at v = tt
  join-Kept _ js l here at v = tt

  pub caller_step-Kept :
      (c : Caller J) (js : List J) (l : Life J)
      → l.caller ≡ c
      → FlagsAt c l
      → Jobs js l
      → AfterStep Kept (caller_step c l)
  unfolding caller_step
  caller_step-Kept idle js l at h v = tt
  caller_step-Kept start_running js l at h v =
      moved-Kept js l _ v refl refl refl (ground (arith, v.owned, at)) (ground (arith, v.awake, at))
  caller_step-Kept start_stopping js l at h v =
      moved-Kept js l _ v refl refl refl (ground (arith, v.owned, at)) (ground (arith, v.awake, at))
  caller_step-Kept start_thread js l at h v =
      moved-Kept js l _ v refl refl refl (ground (arith, v.owned, at)) (ground (arith, v.awake, at))
  caller_step-Kept stop_stopping js l at h v =
      moved-Kept js l _ v refl refl refl (ground (arith, v.owned, at)) (ground (arith, v.awake, at))
  caller_step-Kept stop_async_send js l at h v =
      moved-Kept js l _ v refl refl refl (ground (arith, v.owned, at)) (λ p d w. cc p)
  caller_step-Kept stop_uv_stop js l at h v =
      moved-Kept js l _ v refl refl refl (ground (arith, v.owned, at)) (ground (arith, v.awake, at))
  caller_step-Kept stop_join js l at h v = join-Kept l.uv js l refl at v
  caller_step-Kept stop_running js l at h v =
      moved-Kept js l _ v refl refl refl (ground (arith, v.owned, at)) (ground (arith, v.awake, at))
  caller_step-Kept (post_enqueue j) js l at h v = enqueue_job-Kept j js l v at
  caller_step-Kept post_async_send js l at h v =
      moved-Kept js l _ v refl refl refl (ground (arith, v.owned, at)) (λ p d w. cc p)

  drain_found-Kept :
      (js : List J) (l : Life J) (q : Spsc J)
      → Jobs js l
      → l.uv ≡ draining
      → Represents q (pop js).1
      → AfterStep Kept (drain_found (pop js).0 q l)
  unfolding drain_found
  drain_found-Kept [] l q v at holds =
      ([], record { held = holds; in_order = v.in_order; owned = v.owned; awake = λ p d w. refl })
  drain_found-Kept (j ∷ js) l q v at holds = (
    js,
    record {
      held = holds;
      in_order = append_assoc l.executed (j ∷ []) js ∙ v.in_order;
      owned = ground (arith, v.owned);
      awake = λ p d w. ground (arith, at);
    },
  )

  uv_step-Kept :
      (u : UvThread) (js : List J) (l : Life J)
      → l.uv ≡ u
      → Jobs js l
      → AfterStep Kept (uv_step u l)
  unfolding uv_step drain_job
  uv_step-Kept absent js l at v = tt
  uv_step-Kept check js l at v =
      moved-Kept js l _ v refl refl refl v.owned (ground (arith, v.awake, at))
  uv_step-Kept polling js l at v = tt
  uv_step-Kept blocked js l at v = tt
  uv_step-Kept draining js l at v =
      let d = try_dequeue-Dequeued l.loop.jobs js v.held in
      rw d.answer (drain_found-Kept js l _ v at d.holds)
  uv_step-Kept recheck js l at v =
      moved-Kept js l _ v refl refl refl v.owned (ground (arith, v.awake, at))
  uv_step-Kept asleep js l at v =
      moved-Kept js l _ v refl refl refl v.owned (ground (arith, v.awake, at))
  uv_step-Kept ended js l at v = tt

  pub UvStep-Kept : (js : List J) (l l' : Life J) → Jobs js l → UvStep l l' → Kept l'
  UvStep-Kept js l l' v (run e) =
      AfterStep-eq Kept (uv_step l.uv l) l' (uv_step-Kept l.uv js l refl v) e
  UvStep-Kept js l l' v (call_async at pending) =
      moved-Kept js l _ v refl refl refl v.owned (λ p d w. cc d)
  UvStep-Kept js l l' v (block at flag) =
      moved-Kept js l _ v refl refl refl v.owned (ground (arith, v.awake, at))
  UvStep-Kept js l l' v (other_event at) =
      moved-Kept js l _ v refl refl refl v.owned (ground (arith, v.awake, at))
  UvStep-Kept js l l' v (return at flag) =
      moved-Kept js l _ v refl refl refl v.owned (ground (arith, v.awake, at))
