-- ===== src/EventLoop/Threads/Joining.antt =====
-- Whether `Stop` of src/impl/core/EventLoop.cpp comes back from its `join` of the libuv thread.
use sm_ext_socket.Base.{
  ℕ, zero, suc, ◌+◌, ◌-◌, ◌≤◌, ◌<◌, ◌≡◌, refl, sym, ap, subst, ◌∙◌, true, false, some, List, [],
  ◌∷◌, arith, length, length-append,
}
use sm_ext_socket.Spsc.{Spsc, Taken, nothing, item, raw}
use sm_ext_socket.Spsc.Queue.{try_dequeue-Dequeued, pop}
use sm_ext_socket.EventLoop.Threads.{
  Caller, stop_join, stop_uv_stop, caller_step, join, Step, starts, stops, posts, goes_on, moves,
  UvThread, absent, check, polling, blocked, draining, recheck, asleep, ended, Life, drain_found,
  drain_job, uv_step, UvStep, run, call_async, block, other_event, return, Reach,
}
use sm_ext_socket.EventLoop.Threads.Invariant.{
  is_in_run, AfterStep, AfterStep-eq, Phased, FlagsAt, UvStep-Phased, Reach-Phased,
}
use sm_ext_socket.EventLoop.Threads.Accesses.{Jobs, Kept, UvStep-Kept}
use sm_ext_socket.EventLoop.Threads.Wakeups.{Reach-Kept}

-- A bound on the moves of the thread once it is to stop.
abbrev left : UvThread → (waiting : ℕ) → ℕ
left absent n = 0
left ended n = 0
left check n = 1
left asleep n = 2
left recheck n = 2
left polling n = 3
left draining n = 4 + n
left blocked n = 5 + n

module _ {J : Type 0} where
  -- Whichever way libuv takes, the libuv thread gets to its end, and can move until then.
  pub data Ends : Life J → Type 0 where
    over : {l : Life J} → l.uv ≡ ended → Ends l
    later : {l : Life J} (l' : Life J) → UvStep l l' → ((m : Life J) → UvStep l m → Ends m) → Ends l

  abbrev weight : Life J → ℕ
  weight l = left l.uv (length l.posted - length l.executed)

  Kept-few : (l : Life J) → Kept l → length l.executed ≤ length l.posted
  Kept-few l (js, v) = omega (arith, ap length v.in_order, length-append l.executed js)

  drain_found-lighter :
      (found : Taken J) (q : Spsc J) (l : Life J)
      → l.uv ≡ draining
      → AfterStep (λ m. Kept m → weight m < weight l) (drain_found found q l)
  unfolding drain_found
  drain_found-lighter nothing q l at = λ k. ground (arith, at)
  drain_found-lighter raw q l at = tt
  drain_found-lighter (item j) q l at =
      λ k. ground (arith, at, Kept-few _ k, length-append l.executed (j ∷ []))

  uv_step-lighter :
      (u : UvThread) (l : Life J)
      → l.uv ≡ u
      → l.loop.stopping ≡ true
      → AfterStep (λ m. Kept m → weight m < weight l) (uv_step u l)
  unfolding uv_step drain_job
  uv_step-lighter absent l at stopping = tt
  uv_step-lighter check l at stopping = λ k. ground (arith, at)
  uv_step-lighter polling l at stopping = tt
  uv_step-lighter blocked l at stopping = tt
  uv_step-lighter draining l at stopping = drain_found-lighter _ _ l at
  uv_step-lighter recheck l at stopping = λ k. ground (arith, at)
  uv_step-lighter asleep l at stopping = λ k. ground (arith, at)
  uv_step-lighter ended l at stopping = tt

  UvStep-lighter :
      (l m : Life J)
      → l.loop.stopping ≡ true
      → (is_in_run l.uv ≡ true → l.stop_flag ≡ true)
      → Kept m
      → UvStep l m
      → weight m < weight l
  UvStep-lighter l m stopping flagged k (run e) =
      AfterStep-eq (λ m. Kept m → weight m < weight l) (uv_step l.uv l) m
        (uv_step-lighter l.uv l refl stopping) e k
  UvStep-lighter l m stopping flagged k (call_async at pending) = ground (arith, at, pending)
  UvStep-lighter l m stopping flagged k (block at flag) = absurd (ground (arith, at, flagged))
  UvStep-lighter l m stopping flagged k (other_event at) = ground (arith, at)
  UvStep-lighter l m stopping flagged k (return at flag) = ground (arith, at)

  drain_found-caller :
      (found : Taken J) (q : Spsc J) (l : Life J)
      → AfterStep (λ m. m.caller ≡ l.caller) (drain_found found q l)
  unfolding drain_found
  drain_found-caller nothing q l = refl
  drain_found-caller raw q l = tt
  drain_found-caller (item j) q l = refl

  uv_step-caller : (u : UvThread) (l : Life J) → AfterStep (λ m. m.caller ≡ l.caller) (uv_step u l)
  unfolding uv_step drain_job
  uv_step-caller absent l = tt
  uv_step-caller check l = refl
  uv_step-caller polling l = tt
  uv_step-caller blocked l = tt
  uv_step-caller draining l = drain_found-caller _ _ l
  uv_step-caller recheck l = refl
  uv_step-caller asleep l = refl
  uv_step-caller ended l = tt

  UvStep-caller : (l m : Life J) → UvStep l m → m.caller ≡ l.caller
  UvStep-caller l m (run e) =
      AfterStep-eq (λ m. m.caller ≡ l.caller) (uv_step l.uv l) m (uv_step-caller l.uv l) e
  UvStep-caller l m (call_async at pending) = refl
  UvStep-caller l m (block at flag) = refl
  UvStep-caller l m (other_event at) = refl
  UvStep-caller l m (return at flag) = refl

  drain_found-moves :
      (js : List J) (q : Spsc J) (l : Life J) → (m : Life J) × (drain_found (pop js).0 q l ≡ some m)
  unfolding drain_found
  drain_found-moves [] q l = (_, refl)
  drain_found-moves (j ∷ js) q l = (_, refl)

  drain_job-moves : (js : List J) (l : Life J) → Jobs js l → (m : Life J) × (drain_job l ≡ some m)
  unfolding drain_job
  drain_job-moves js l v =
      rw (try_dequeue-Dequeued l.loop.jobs js v.held).answer (drain_found-moves js _ l)

  run-at : (u : UvThread) (l m : Life J) → l.uv ≡ u → uv_step u l ≡ some m → UvStep l m
  run-at u l m at e = run (subst (λ u. uv_step u l ≡ some m) (sym at) e)

  -- The thread does not wait for the system, or `OnAsync` is about to be called.
  abbrev pub Woken : Life J → Type 0
  Woken l = l.uv ≡ blocked → l.pending ≡ true

  drain_found-Woken :
      (found : Taken J) (q : Spsc J) (l : Life J)
      → l.uv ≡ draining
      → AfterStep Woken (drain_found found q l)
  unfolding drain_found
  drain_found-Woken nothing q l at = ground arith
  drain_found-Woken raw q l at = tt
  drain_found-Woken (item j) q l at = λ e. ground (arith, at, e)

  uv_step-Woken : (u : UvThread) (l : Life J) → l.uv ≡ u → AfterStep Woken (uv_step u l)
  unfolding uv_step drain_job
  uv_step-Woken absent l at = tt
  uv_step-Woken check l at = λ e. ground (arith, e)
  uv_step-Woken polling l at = tt
  uv_step-Woken blocked l at = tt
  uv_step-Woken draining l at = drain_found-Woken _ _ l at
  uv_step-Woken recheck l at = λ e. ground (arith, e)
  uv_step-Woken asleep l at = λ e. ground (arith, e)
  uv_step-Woken ended l at = tt

  UvStep-Woken :
      (l m : Life J) → (is_in_run l.uv ≡ true → l.stop_flag ≡ true) → UvStep l m → Woken m
  UvStep-Woken l m flagged (run e) =
      AfterStep-eq Woken (uv_step l.uv l) m (uv_step-Woken l.uv l refl) e
  UvStep-Woken l m flagged (call_async at pending) = λ e. ground (arith, e)
  UvStep-Woken l m flagged (block at flag) = absurd (ground (arith, at, flagged))
  UvStep-Woken l m flagged (other_event at) = λ e. ground (arith, e)
  UvStep-Woken l m flagged (return at flag) = λ e. ground (arith, e)

  -- While the game thread joins, the libuv thread has ended or can move.
  stop_join-moves :
      (u : UvThread) (js : List J) (l : Life J)
      → l.uv ≡ u
      → FlagsAt stop_join l
      → Woken l
      → Jobs js l
      → ((m : Life J) → UvStep l m → Ends m)
      → Ends l
  unfolding uv_step
  stop_join-moves absent js l at h woken v rest = absurd (ground (arith, at))
  stop_join-moves ended js l at h woken v rest = over at
  stop_join-moves check js l at h woken v rest = later _ (run-at check l _ at refl) rest
  stop_join-moves asleep js l at h woken v rest = later _ (run-at asleep l _ at refl) rest
  stop_join-moves recheck js l at h woken v rest = later _ (run-at recheck l _ at refl) rest
  stop_join-moves polling js l at h woken v rest =
      later _ (return at (h.4 (ground (arith, at)))) rest
  stop_join-moves blocked js l at h woken v rest = later _ (call_async at (woken at)) rest
  stop_join-moves draining js l at h woken v rest =
      let (m, e) = drain_job-moves js l v in later m (run-at draining l m at e) rest

  weighed-Ends :
      (n : ℕ) (l : Life J)
      → weight l < n
      → Phased l
      → Kept l
      → Woken l
      → l.caller ≡ stop_join
      → Ends l
  weighed-Ends zero l small p k woken at = absurd (omega (arith, small))
  weighed-Ends (suc n) l small p (js, v) woken at =
      let h : FlagsAt stop_join l = subst (λ c. FlagsAt c l) at p.flags in
      stop_join-moves l.uv js l refl h woken v (λ m step.
        let k = UvStep-Kept js l m v step in
        weighed-Ends n m (omega (arith, UvStep-lighter l m h.1 h.4 k step, small))
          (UvStep-Phased l m p step) k (UvStep-Woken l m h.4 step) (UvStep-caller l m step ∙ at))

  -- While `Stop` waits in `join`: if the libuv thread does not wait for the system, or libuv has yet to
  -- call `OnAsync`, that thread gets to its end by itself, whichever way libuv takes, so that `Stop`
  -- comes back.
  pub Reach-Ends :
      (l : Life J) → Reach l → l.caller ≡ stop_join → (l.uv ≡ blocked → l.pending ≡ true) → Ends l
  Reach-Ends l r at woken =
      weighed-Ends (suc (weight l)) l (omega arith) (Reach-Phased l r) (Reach-Kept l r) woken at

  join-blocked : (u : UvThread) (l m : Life J) → u ≡ blocked → join u l ≡ some m → ⊥
  unfolding join
  join-blocked blocked l m here e = ground (arith, e)
  join-blocked ended l m here e = ground (arith, here)
  join-blocked _ l m here e = ground (arith, here, e)

  uv_step-blocked : (u : UvThread) (l m : Life J) → u ≡ blocked → uv_step u l ≡ some m → ⊥
  unfolding uv_step
  uv_step-blocked u l m here e = ground (arith, here, e)

  caller_step-joining :
      (c : Caller J) (l m : Life J) → c ≡ stop_join → l.uv ≡ blocked → caller_step c l ≡ some m → ⊥
  unfolding caller_step
  caller_step-joining stop_join l m at here e = join-blocked l.uv l m here e
  caller_step-joining _ l m at here e = ground (arith, at)

  UvStep-waiting :
      (l m : Life J)
      → l.uv ≡ blocked
      → l.pending ≡ false
      → UvStep l m
      → m ≡ record l { uv = polling }
  UvStep-waiting l m here taken (run e) = absurd (uv_step-blocked l.uv l m here e)
  UvStep-waiting l m here taken (call_async at pending) = absurd (ground (arith, taken, pending))
  UvStep-waiting l m here taken (block at flag) = absurd (ground (arith, here, at))
  UvStep-waiting l m here taken (other_event at) = refl
  UvStep-waiting l m here taken (return at flag) = absurd (ground (arith, here, at))

  Step-waiting :
      (l m : Life J)
      → l.caller ≡ stop_join
      → l.uv ≡ blocked
      → l.pending ≡ false
      → Step l m
      → m ≡ record l { uv = polling }
  Step-waiting l m at here taken (starts e) = absurd (ground (arith, at, e))
  Step-waiting l m at here taken (stops e) = absurd (ground (arith, at, e))
  Step-waiting l m at here taken (posts j e) = absurd (ground (arith, at, e))
  Step-waiting l m at here taken (goes_on e) = absurd (caller_step-joining l.caller l m at here e)
  Step-waiting l m at here taken (moves u) = UvStep-waiting l m here taken u

  -- If the loop has taken the wake-up of `Stop` and waits for the system again when `Stop` calls
  -- `uv_stop`, `Stop` waits in `join` and no thread moves any more, unless an event of another handle
  -- wakes the loop.
  pub caller_step-stuck :
      (l : Life J)
      → l.caller ≡ stop_uv_stop
      → l.uv ≡ blocked
      → l.pending ≡ false
      → (l' : Life J) × (caller_step l.caller l ≡ some l')
        × (l'.caller ≡ stop_join)
        × ((m : Life J) → Step l' m → m ≡ record l' { uv = polling })
  unfolding caller_step
  caller_step-stuck l at here taken =
      rw at (_, refl, refl, λ m step. Step-waiting _ m refl here taken step)
