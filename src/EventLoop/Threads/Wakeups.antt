-- ===== src/EventLoop/Threads/Wakeups.antt =====
-- The jobs of src/impl/core/EventLoop.cpp under every order of its two threads.
use sm_ext_socket.Base.{
  ◌+◌, ◌≡◌, ◌≢◌, ◌⊎◌, inl, inr, refl, Bool, true, false, List, [], ◌++◌, arith, length,
  if◌then◌else◌, Bool-cases,
}
use sm_ext_socket.Spsc.Queue.{Represents, new-Represents}
use sm_ext_socket.EventLoop.{fresh}
use sm_ext_socket.EventLoop.Threads.{
  idle, Life, new_life, call_start, call_stop, call_post, caller_step, Step, starts, stops, posts,
  goes_on, moves, Reach, new, next,
}
use sm_ext_socket.EventLoop.Threads.Invariant.{AfterStep-eq, Phased, Reach-Phased}
use sm_ext_socket.EventLoop.Threads.Accesses.{
  is_draining, is_waking, in_hand, Jobs, Kept, moved-Kept, caller_step-Kept, UvStep-Kept,
}

module _ {J : Type 0} where
  if-Kept : (b : Bool) (l l' : Life J) → Kept l → Kept l' → Kept (if b then l else l')
  if-Kept true l l' h h' = h
  if-Kept false l l' h h' = h'

  call_start-Kept : (js : List J) (l : Life J) → l.caller ≡ idle → Jobs js l → Kept (call_start l)
  unfolding call_start
  call_start-Kept js l at v =
      if-Kept l.loop.running l _ (js, v)
        (moved-Kept js l _ v refl refl refl (ground (arith, v.owned, at))
          (ground (arith, v.awake, at)))

  call_stop-Kept : (js : List J) (l : Life J) → l.caller ≡ idle → Jobs js l → Kept (call_stop l)
  unfolding call_stop
  call_stop-Kept js l at v =
      if-Kept l.loop.running _ l
        (moved-Kept js l _ v refl refl refl (ground (arith, v.owned, at))
          (ground (arith, v.awake, at)))
        (js, v)

  call_post-Kept :
      (j : J) (js : List J) (l : Life J) → l.caller ≡ idle → Jobs js l → Kept (call_post j l)
  unfolding call_post
  call_post-Kept j js l at v =
      moved-Kept js l _ v refl refl refl (ground (arith, v.owned, at)) (ground (arith, v.awake, at))

  Step-Kept : (l l' : Life J) → Phased l → Kept l → Step l l' → Kept l'
  Step-Kept l l' p (js, v) (starts at) = call_start-Kept js l at v
  Step-Kept l l' p (js, v) (stops at) = call_stop-Kept js l at v
  Step-Kept l l' p (js, v) (posts j at) = call_post-Kept j js l at v
  Step-Kept l l' p (js, v) (goes_on e) =
      AfterStep-eq Kept (caller_step l.caller l) l' (caller_step-Kept l.caller js l refl p.flags v)
        e
  Step-Kept l l' p (js, v) (moves m) = UvStep-Kept js l l' v m

  pub Reach-Kept : (l : Life J) → Reach l → Kept l
  unfolding new_life fresh
  Reach-Kept l new = (
    [],
    record {
      held = new-Represents 1024 (record { big = omega arith; power = refl });
      in_order = refl;
      owned = refl;
      awake = λ p d w. refl;
    },
  )
  Reach-Kept l (next r step) = Step-Kept _ l (Reach-Phased _ r) (Reach-Kept _ r) step

  -- However the two threads take turns: the jobs that ran are the first of those that `Post` queued, in
  -- order and each once, and the others are in the queue, with a wrapper each and one for a call of
  -- `Post` under way. While some wait, `OnAsync` runs, libuv has yet to call it, or a call of `Post`
  -- is about to make libuv do so.
  pub Reach-Jobs :
      (l : Life J)
      → Reach l
      → (js : List J) × Represents l.loop.jobs js
        × (l.executed ++ js ≡ l.posted)
        × (l.loop.wrappers ≡ length js + in_hand l.caller)
        × (js ≢ [] → (is_draining l.uv ≡ true) ⊎ (l.pending ≡ true) ⊎ (is_waking l.caller ≡ true))
  Reach-Jobs l r =
      let (js, v) = Reach-Kept l r in
      (
        js,
        v.held,
        v.in_order,
        v.owned,
        λ waits. elim (Bool-cases (is_draining l.uv)) [
          | inl running ↦ inl running
          | inr d ↦ elim (Bool-cases l.pending) [
            | inl called ↦ inr (inl called)
            | inr p ↦ elim (Bool-cases (is_waking l.caller)) [
              | inl waking ↦ inr (inr waking)
              | inr w ↦ absurd (waits (v.awake p d w))
            ]
          ]
        ],
      )
