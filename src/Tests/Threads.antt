-- ===== src/Tests/Threads.antt =====
-- Concrete turns of the two threads of src/impl/core/EventLoop.cpp.
use sm_ext_socket.Base.{
  ℕ, ◌+◌, ◌≡◌, ◌≢◌, ◌⊎◌, refl, true, false, zero, suc, none, some, arith, List, [], ◌++◌, length,
}
use sm_ext_socket.Spsc.Queue.{Represents, new-Represents, try_dequeue-Dequeued}
use sm_ext_socket.Spsc.{try_dequeue}
use sm_ext_socket.EventLoop.{fresh}
use sm_ext_socket.EventLoop.Threads.{
  blocked, polling, stop_join, Step, moves, run, block, call_async, uv_step, drain_job, drain_found,
  Life, new_life, call_start, call_stop, call_post, caller_step, enqueue_job, Reach, new, next,
  starts, stops, posts, goes_on,
}
use sm_ext_socket.EventLoop.Threads.Accesses.{in_hand, is_draining, is_waking}
use sm_ext_socket.EventLoop.Threads.Wakeups.{Reach-Jobs}
use sm_ext_socket.EventLoop.Threads.Joining.{Ends, Reach-Ends, caller_step-stuck}

abbrev quiet : Life ℕ
quiet = new_life

-- A job is queued, and the loop not yet woken.
abbrev queued : Life ℕ
queued = enqueue_job 5 (call_post 5 quiet)

queued-Reach : Reach queued
unfolding new_life call_post caller_step
queued-Reach = next (next new (posts 5 refl)) (goes_on refl)

Reach-Jobs_example :
    (js : List ℕ) × Represents queued.loop.jobs js
    × (queued.executed ++ js ≡ queued.posted)
    × (queued.loop.wrappers ≡ length js + in_hand queued.caller)
    × (js ≢ []
        → (is_draining queued.uv ≡ true)
          ⊎ (queued.pending ≡ true)
          ⊎ (is_waking queued.caller ≡ true))
Reach-Jobs_example = Reach-Jobs queued queued-Reach

-- The next turns of the game thread.
turns : ℕ → Life ℕ → Life ℕ
turns zero l = l
turns (suc n) l = elim (caller_step l.caller l) [ none ↦ l | some m ↦ turns n m ]

-- The thread has just begun when the loop is stopped.
abbrev joining : Life ℕ
joining = turns 3 (call_stop (turns 3 (call_start quiet)))

started-Reach : Reach (turns 3 (call_start quiet))
unfolding new_life call_start caller_step turns fresh
started-Reach =
    next (next (next (next new (starts refl)) (goes_on refl)) (goes_on refl)) (goes_on refl)

joining-Reach : Reach joining
unfolding new_life call_start call_stop caller_step turns fresh
joining-Reach =
    next (next (next (next started-Reach (stops refl)) (goes_on refl)) (goes_on refl))
      (goes_on refl)

Reach-Ends_example : Ends joining
unfolding new_life call_start call_stop caller_step turns fresh
Reach-Ends_example = Reach-Ends joining joining-Reach refl (λ e. ground (arith, e))

-- The loop waits for the system when it is stopped, and takes the wake-up before `uv_stop` is called.
-- `OnAsync` finds no job.
abbrev woken : Life ℕ
woken =
    let l = turns 2 (call_stop (turns 3 (call_start quiet))) in
    record l {
      loop = record l.loop { jobs = (try_dequeue l.loop.jobs).1 };
      pending = false;
      uv = blocked;
    }

drain_job-nothing :
    (l : Life ℕ)
    → Represents l.loop.jobs []
    → drain_job l
      ≡ some
          (record l { loop = record l.loop { jobs = (try_dequeue l.loop.jobs).1 }; uv = polling })
unfolding drain_job drain_found
drain_job-nothing l empty = rw (try_dequeue-Dequeued l.loop.jobs [] empty).answer refl

woken-Reach : Reach woken
unfolding new_life call_start call_stop caller_step turns fresh uv_step
woken-Reach =
    let waits = next (next started-Reach (moves (run refl))) (moves (block refl refl)) in
    let called = next (next (next waits (stops refl)) (goes_on refl)) (goes_on refl) in
    let empty = new-Represents 1024 (record { big = omega arith; power = refl }) in
    next
      (next (next called (moves (call_async refl refl))) (moves (run (drain_job-nothing _ empty))))
      (moves (block refl refl))

caller_step-stuck_example :
    (l : Life ℕ) × (caller_step woken.caller woken ≡ some l)
    × (l.caller ≡ stop_join)
    × ((m : Life ℕ) → Step l m → m ≡ record l { uv = polling })
unfolding new_life call_start call_stop caller_step turns fresh
caller_step-stuck_example = caller_step-stuck woken refl refl refl
