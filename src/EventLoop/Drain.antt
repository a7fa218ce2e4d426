-- ===== src/EventLoop/Drain.antt =====
-- What `Post` and `OnAsync` of src/impl/core/EventLoop.cpp do to the list of the jobs that are queued.
use sm_ext_socket.Base.{
  ap, subst, ℕ, zero, suc, ◌+◌, ◌-◌, ◌<◌, ◌≡◌, refl, ◌∙◌, Bool, true, false, some, List, [], ◌∷◌,
  arith, length, length-append, ltb, if◌then◌else◌, Bool-cases, inl, inr,
}
use sm_ext_socket.Spsc.{try_enqueue, try_dequeue}
use sm_ext_socket.Spsc.Queue.{
  push, Represents, try_enqueue-Enqueued, try_dequeue-Dequeued, Represents-few,
}
use sm_ext_socket.EventLoop.{EventLoop, post, drain, on_async}

module _ {ℓ} {J : Type ℓ} where
  -- A result of `Post` on a loop with these jobs queued, one wrapper for each.
  pub record Posted (l : EventLoop J) (js : List J) (j : J) (r : EventLoop J × Bool) : Type ℓ where
    pub answer : r.1 ≡ ltb (length js) (l.jobs.capacity - 1)
    pub queued : Represents r.0.jobs (push l.jobs.capacity js j).0
    pub owned : r.0.wrappers ≡ length (push l.jobs.capacity js j).0
    pub woken : r.0.wakeups ≡ (if r.1 then l.wakeups + 1 else l.wakeups)
    pub same_capacity : r.0.jobs.capacity ≡ l.jobs.capacity

  -- `Post` queues its job behind the others, wakes the loop and answers true if fewer than
  -- `Capacity - 1` jobs are queued; else it answers false, leaves the jobs as they were, wakes
  -- nothing and deletes its wrapper.
  pub post-Posted :
      (l : EventLoop J) (js : List J) (j : J)
      → Represents l.jobs js
      → l.wrappers ≡ length js
      → Posted l js j (post l j)
  unfolding post
  post-Posted l js j v w =
      let e = try_enqueue-Enqueued l.jobs js j v in
      elim (Bool-cases (ltb (length js) (l.jobs.capacity - 1))) [
        | inl room ↦
            let ok : (try_enqueue l.jobs j).1 ≡ true = e.answer ∙ rw room in
            record {
              answer = rw (ok, room, post);
              queued = rw (ok, post) e.holds;
              owned = rw (ok, room, post) (omega (arith, length-append js (j ∷ [])));
              woken = rw (ok, post);
              same_capacity = rw (ok, post) e.same_capacity;
            }
        | inr full ↦
            let dropped : (try_enqueue l.jobs j).1 ≡ false = e.answer ∙ rw full in
            record {
              answer = rw (dropped, full, post);
              queued = rw (dropped, post) e.holds;
              owned = rw (dropped, full, post) (omega arith);
              woken = rw (dropped, post);
              same_capacity = rw (dropped, post) e.same_capacity;
            }
      ]

  -- The jobs one after the other.
  abbrev pub run_jobs {κ} : {S : Type κ} → (J → S → S) → List J → S → S
  run_jobs callback [] s = s
  run_jobs callback (j ∷ js) s = run_jobs callback js (callback j s)

  module _ {κ} {S : Type κ} (callback : J → S → S) where
    drain_all :
        (fuel : ℕ) (js : List J) (l : EventLoop J) (s : S)
        → length js < fuel
        → Represents l.jobs js
        → (l' : EventLoop J) × (drain callback fuel l s ≡ some (l', run_jobs callback js s))
          × Represents l'.jobs []
          × (l'.wrappers ≡ l.wrappers - length js)
    unfolding drain
    drain_all zero js l s h v = absurd (omega arith)
    drain_all (suc fuel) [] l s h v =
        let d = try_dequeue-Dequeued l.jobs [] v in
        (
          record l { jobs = (try_dequeue l.jobs).1 },
          rw (d.answer, drain) refl,
          d.holds,
          omega arith,
        )
    drain_all (suc fuel) (j ∷ js) l s h v =
        let d = try_dequeue-Dequeued l.jobs (j ∷ js) v in
        let next : EventLoop J = record l {
          jobs = (try_dequeue l.jobs).1;
          wrappers = l.wrappers - 1;
        } in
        let (l', e, r, w) = drain_all fuel js next (callback j s) (omega arith) d.holds in
        (l', rw (d.answer, drain) e, r, omega arith)

    -- `OnAsync` runs every job that is queued, each once and in the order of their posts, and ends
    -- with no job queued and, if each queued job had its wrapper, with no wrapper left.
    pub on_async_lem :
        (js : List J) (l : EventLoop J) (s : S)
        → Represents l.jobs js
        → l.wrappers ≡ length js
        → (l' : EventLoop J) × (on_async callback l s ≡ some (l', run_jobs callback js s))
          × Represents l'.jobs []
          × (l'.wrappers ≡ 0)
    unfolding on_async
    on_async_lem js l s v w =
        let (l', e, r, n) = drain_all l.jobs.capacity js l s (Represents-few l.jobs js v) v in
        (l', e, r, omega arith)

    -- A job posted to a loop with none waiting is run by the next drain.
    pub on_async-post :
        (l : EventLoop J) (j : J) (s : S)
        → l.jobs.capacity ≡ 1024
        → Represents l.jobs []
        → l.wrappers ≡ 0
        → (l' : EventLoop J) × (on_async callback (post l j).0 s ≡ some (l', callback j s))
    on_async-post l j s size empty unwrapped =
        let first = post-Posted l [] j empty unwrapped in
        let one : Represents (post l j).0.jobs (j ∷ []) =
          subst (λ c. Represents (post l j).0.jobs (push c [] j).0) size first.queued in
        let owned : (post l j).0.wrappers ≡ 1 =
          first.owned ∙ ap (λ c. length (push c [] j).0) size in
        let (l', run, _, _) = on_async_lem (j ∷ []) (post l j).0 s one owned in (l', run)

    -- Two jobs posted to a loop with none waiting are run by the next drain.
    pub on_async-post-post :
        (l : EventLoop J) (i j : J) (s : S)
        → l.jobs.capacity ≡ 1024
        → Represents l.jobs []
        → l.wrappers ≡ 0
        → (l' : EventLoop J) × (on_async callback (post (post l i).0 j).0 s
            ≡ some (l', callback j (callback i s)))
    on_async-post-post l i j s size empty unwrapped =
        let first = post-Posted l [] i empty unwrapped in
        let one : Represents (post l i).0.jobs (i ∷ []) =
          subst (λ c. Represents (post l i).0.jobs (push c [] i).0) size first.queued in
        let owned : (post l i).0.wrappers ≡ 1 =
          first.owned ∙ ap (λ c. length (push c [] i).0) size in
        let size' : (post l i).0.jobs.capacity ≡ 1024 = first.same_capacity ∙ size in
        let second = post-Posted (post l i).0 (i ∷ []) j one owned in
        let two : Represents (post (post l i).0 j).0.jobs (i ∷ j ∷ []) =
          subst (λ c. Represents (post (post l i).0 j).0.jobs (push c (i ∷ []) j).0) size'
            second.queued in
        let owned' : (post (post l i).0 j).0.wrappers ≡ 2 =
          second.owned ∙ ap (λ c. length (push c (i ∷ []) j).0) size' in
        let (l', run, _, _) = on_async_lem (i ∷ j ∷ []) (post (post l i).0 j).0 s two owned' in
        (l', run)
