-- ===== src/EventLoop/Threads/Invariant.antt =====
-- What the two threads of src/impl/core/EventLoop.cpp keep, in any order of their accesses.
use sm_ext_socket.Base.{◌≡◌, refl, subst, ◌∙◌, Bool, true, false, Option, none, some, arith}
use sm_ext_socket.Spsc.{Spsc, Taken, nothing, item, raw}
use sm_ext_socket.EventLoop.{fresh}
use sm_ext_socket.EventLoop.Threads.{
  Caller, idle, start_running, start_stopping, start_thread, stop_stopping, stop_async_send,
  stop_uv_stop, stop_join, stop_running, post_enqueue, post_async_send, UvThread, absent, check,
  polling, blocked, draining, recheck, asleep, ended, Life, new_life, call_start, call_stop,
  call_post, enqueue_job, join, caller_step, drain_found, drain_job, uv_step, UvStep, run,
  call_async, block, other_event, return, Step, starts, stops, posts, goes_on, moves, Reach, new,
  next,
}

abbrev pub is_alive : UvThread → Bool
is_alive absent = false
is_alive _ = true

abbrev pub is_ended : UvThread → Bool
is_ended ended = true
is_ended _ = false

-- The libuv thread is in `uv_run`.
abbrev pub is_in_run : UvThread → Bool
is_in_run polling = true
is_in_run blocked = true
is_in_run draining = true
is_in_run _ = false

-- A property of the state after a step, if there is one.
abbrev pub AfterStep {ℓ} : {A : Type 0} → (A → Type ℓ) → Option A → Type ℓ
AfterStep P none = Unit
AfterStep P (some a) = P a

pub AfterStep-eq {ℓ} :
    {A : Type 0} (P : A → Type ℓ) (r : Option A) (a : A) → AfterStep P r → r ≡ some a → P a
AfterStep-eq P r a h e = subst (AfterStep P) e h

-- What the flags say while the game thread stands at an access: `running`, `stopping`, `started`, the
-- flag of `uv_stop`, and where the libuv thread is.
abbrev pub Settled : (running stopping started : Bool) → UvThread → Type 0
Settled running stopping started uv =
    (started ≡ running) × (is_alive uv ≡ running) × (running ≡ true → stopping ≡ false)

abbrev pub Flags :
    {J : Type 0} → Caller J → (running stopping started flag : Bool) → UvThread → Type 0
Flags idle running stopping started flag uv = Settled running stopping started uv
Flags (post_enqueue j) running stopping started flag uv = Settled running stopping started uv
Flags post_async_send running stopping started flag uv = Settled running stopping started uv
Flags start_running running stopping started flag uv =
    (running ≡ false) × (started ≡ false) × (is_alive uv ≡ false)
Flags start_stopping running stopping started flag uv =
    (running ≡ true) × (started ≡ false) × (is_alive uv ≡ false)
Flags start_thread running stopping started flag uv =
    (running ≡ true) × (stopping ≡ false) × (started ≡ false) × (is_alive uv ≡ false)
Flags stop_stopping running stopping started flag uv =
    (running ≡ true) × (stopping ≡ false) × (started ≡ true) × (is_alive uv ≡ true)
Flags stop_async_send running stopping started flag uv =
    (running ≡ true) × (stopping ≡ true) × (started ≡ true) × (is_alive uv ≡ true)
Flags stop_uv_stop running stopping started flag uv =
    (running ≡ true) × (stopping ≡ true) × (started ≡ true) × (is_alive uv ≡ true)
Flags stop_join running stopping started flag uv =
    (running ≡ true)
    × (stopping ≡ true)
    × (started ≡ true)
    × (is_alive uv ≡ true)
    × (is_in_run uv ≡ true → flag ≡ true)
Flags stop_running running stopping started flag uv =
    (running ≡ true) × (started ≡ false) × (is_alive uv ≡ false)

module _ {J : Type 0} where
  abbrev pub FlagsAt : Caller J → Life J → Type 0
  FlagsAt c l = Flags c l.loop.running l.loop.stopping l.loop.started l.stop_flag l.uv

  -- A thread that is over has seen `m_stopping`.
  pub record Phased (l : Life J) : Type 0 where
    pub flags : FlagsAt l.caller l
    pub over : is_ended l.uv ≡ true → l.loop.stopping ≡ true

  enqueue_job-Phased :
      (j : J) (l : Life J)
      → FlagsAt (post_enqueue j) l
      → (is_ended l.uv ≡ true → l.loop.stopping ≡ true)
      → Phased (enqueue_job j l)
  unfolding enqueue_job
  enqueue_job-Phased j l h over = ground arith

  join-Phased : (u : UvThread) (l : Life J) → FlagsAt stop_join l → AfterStep Phased (join u l)
  unfolding join
  join-Phased ended l h = ground arith
  join-Phased absent l h = tt
  join-Phased _ l h = tt

  caller_step-Phased :
      (c : Caller J) (l : Life J)
      → FlagsAt c l
      → (is_ended l.uv ≡ true → l.loop.stopping ≡ true)
      → AfterStep Phased (caller_step c l)
  unfolding caller_step
  caller_step-Phased idle l h over = tt
  caller_step-Phased start_running l h over = ground arith
  caller_step-Phased start_stopping l h over = ground arith
  caller_step-Phased start_thread l h over = ground arith
  caller_step-Phased stop_stopping l h over = ground arith
  caller_step-Phased stop_async_send l h over = ground arith
  caller_step-Phased stop_uv_stop l h over = ground arith
  caller_step-Phased stop_join l h over = join-Phased l.uv l h
  caller_step-Phased stop_running l h over = ground arith
  caller_step-Phased (post_enqueue j) l h over = enqueue_job-Phased j l h over
  caller_step-Phased post_async_send l h over = ground arith

  -- A move of the libuv thread keeps the flags if it does not end the thread, and does not get into
  -- `uv_run` while the loop is to stop.
  Flags-move :
      (c : Caller J) (running stopping started flag flag' : Bool) (uv uv' : UvThread)
      → is_alive uv ≡ true
      → is_alive uv' ≡ true
      → (stopping ≡ true → is_in_run uv' ≡ true → (is_in_run uv ≡ true) × (flag' ≡ flag))
      → Flags c running stopping started flag uv
      → Flags c running stopping started flag' uv'
  Flags-move idle r s t f f' u u' a a' keep h = ground arith
  Flags-move start_running r s t f f' u u' a a' keep h = ground arith
  Flags-move start_stopping r s t f f' u u' a a' keep h = ground arith
  Flags-move start_thread r s t f f' u u' a a' keep h = ground arith
  Flags-move stop_stopping r s t f f' u u' a a' keep h = ground arith
  Flags-move stop_async_send r s t f f' u u' a a' keep h = ground arith
  Flags-move stop_uv_stop r s t f f' u u' a a' keep h = ground arith
  Flags-move stop_join r s t f f' u u' a a' keep (h0, h1, h2, h3, h4) =
      (h0, h1, h2, a', λ i. ground (arith, keep h1 i, h4))
  Flags-move stop_running r s t f f' u u' a a' keep h = ground arith
  Flags-move (post_enqueue j) r s t f f' u u' a a' keep h = ground arith
  Flags-move post_async_send r s t f f' u u' a a' keep h = ground arith

  moved-Phased :
      (l l' : Life J)
      → Phased l
      → is_alive l.uv ≡ true
      → is_alive l'.uv ≡ true
      → l'.caller ≡ l.caller
      → l'.loop.running ≡ l.loop.running
      → l'.loop.stopping ≡ l.loop.stopping
      → l'.loop.started ≡ l.loop.started
      → (l.loop.stopping ≡ true
          → is_in_run l'.uv ≡ true
          → (is_in_run l.uv ≡ true) × (l'.stop_flag ≡ l.stop_flag))
      → (is_ended l'.uv ≡ true → l.loop.stopping ≡ true)
      → Phased l'
  moved-Phased l l' v a a' ec er es et keep over = record {
    flags =
        rw (ec, er, es, et)
          (Flags-move l.caller l.loop.running l.loop.stopping l.loop.started l.stop_flag
            l'.stop_flag l.uv l'.uv a a' keep v.flags);
    over = λ e. es ∙ over e;
  }

  drain_found-Phased :
      (found : Taken J) (q : Spsc J) (l : Life J)
      → Phased l
      → l.uv ≡ draining
      → AfterStep Phased (drain_found found q l)
  unfolding drain_found
  drain_found-Phased nothing q l v at =
      moved-Phased l _ v (ground (arith, at)) refl refl refl refl refl (ground (arith, at))
        (ground arith)
  drain_found-Phased raw q l v at = tt
  drain_found-Phased (item j) q l v at =
      moved-Phased l _ v (ground (arith, at)) (ground (arith, at)) refl refl refl refl
        (ground (arith, at)) v.over

  uv_step-Phased :
      (u : UvThread) (l : Life J) → Phased l → l.uv ≡ u → AfterStep Phased (uv_step u l)
  unfolding uv_step drain_job
  uv_step-Phased absent l v at = tt
  uv_step-Phased check l v at =
      moved-Phased l _ v (ground (arith, at)) (ground arith) refl refl refl refl (ground arith)
        (ground arith)
  uv_step-Phased polling l v at = tt
  uv_step-Phased blocked l v at = tt
  uv_step-Phased draining l v at = drain_found-Phased _ _ l v at
  uv_step-Phased recheck l v at =
      moved-Phased l _ v (ground (arith, at)) (ground arith) refl refl refl refl (ground arith)
        (ground arith)
  uv_step-Phased asleep l v at =
      moved-Phased l _ v (ground (arith, at)) refl refl refl refl refl (ground arith) (ground arith)
  uv_step-Phased ended l v at = tt

  pub UvStep-Phased : (l l' : Life J) → Phased l → UvStep l l' → Phased l'
  UvStep-Phased l l' v (run e) =
      AfterStep-eq Phased (uv_step l.uv l) l' (uv_step-Phased l.uv l v refl) e
  UvStep-Phased l l' v (call_async at pending) =
      moved-Phased l _ v (ground (arith, at)) refl refl refl refl refl (ground (arith, at))
        (ground arith)
  UvStep-Phased l l' v (block at flag) =
      moved-Phased l _ v (ground (arith, at)) refl refl refl refl refl (ground (arith, at))
        (ground arith)
  UvStep-Phased l l' v (other_event at) =
      moved-Phased l _ v (ground (arith, at)) refl refl refl refl refl (ground (arith, at))
        (ground arith)
  UvStep-Phased l l' v (return at flag) =
      moved-Phased l _ v (ground (arith, at)) refl refl refl refl refl (ground (arith, at))
        (ground arith)

  call_start-Phased : (l : Life J) → FlagsAt idle l → Phased l → Phased (call_start l)
  unfolding call_start
  call_start-Phased l h v = ground arith

  call_stop-Phased : (l : Life J) → FlagsAt idle l → Phased l → Phased (call_stop l)
  unfolding call_stop
  call_stop-Phased l h v = ground arith

  call_post-Phased : (j : J) (l : Life J) → FlagsAt idle l → Phased l → Phased (call_post j l)
  unfolding call_post
  call_post-Phased j l h v = ground arith

  Step-Phased : (l l' : Life J) → Phased l → Step l l' → Phased l'
  Step-Phased l l' v (starts at) = call_start-Phased l (subst (λ c. FlagsAt c l) at v.flags) v
  Step-Phased l l' v (stops at) = call_stop-Phased l (subst (λ c. FlagsAt c l) at v.flags) v
  Step-Phased l l' v (posts j at) = call_post-Phased j l (subst (λ c. FlagsAt c l) at v.flags) v
  Step-Phased l l' v (goes_on e) =
      AfterStep-eq Phased (caller_step l.caller l) l' (caller_step-Phased l.caller l v.flags v.over)
        e
  Step-Phased l l' v (moves m) = UvStep-Phased l l' v m

  pub Reach-Phased : (l : Life J) → Reach l → Phased l
  unfolding new_life fresh
  Reach-Phased l new = ground arith
  Reach-Phased l (next r step) = Step-Phased _ l (Reach-Phased _ r) step
