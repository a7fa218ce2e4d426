-- ===== src/EventLoop.antt =====
-- src/include/core/EventLoop.h and src/impl/core/EventLoop.cpp: the loop's flags, the queue of jobs from
-- the game thread to the libuv thread, and the drain of that queue. A job is what `Post` wraps: the
-- model is generic in it. libuv's own calls are counted where the code makes them.
pub mod Drain
pub mod Threads
pub mod Lifetime
use sm_ext_socket.Base.{
  ℕ, zero, suc, ◌+◌, ◌-◌, Bool, true, false, Option, none, some, if◌then◌else◌,
}
use sm_ext_socket.Spsc.{Spsc, Taken, nothing, item, raw, new, try_enqueue, try_dequeue}

-- `wakeups` counts the calls of `uv_async_send`, `stops` those of `uv_stop`, `wrappers` the function
-- wrappers allocated and not deleted. `started` is whether the thread is joinable.
pub record EventLoop {ℓ} (J : Type ℓ) : Type ℓ where
  pub running : Bool
  pub stopping : Bool
  pub started : Bool
  pub jobs : Spsc J
  pub wakeups : ℕ
  pub stops : ℕ
  pub wrappers : ℕ

module _ {ℓ} {J : Type ℓ} where
  unfoldable pub fresh : EventLoop J
  fresh = record {
    running = false;
    stopping = false;
    started = false;
    jobs = new 1024;
    wakeups = 0;
    stops = 0;
    wrappers = 0;
  }

  unfoldable pub start : EventLoop J → EventLoop J
  start l = if l.running then l else record l { running = true; stopping = false; started = true }

  -- The thread is joined, so that it has left `Run`.
  unfoldable pub stop : EventLoop J → EventLoop J
  stop l =
      if l.running
      then record l {
        running = false;
        stopping = true;
        started = false;
        wakeups = l.wakeups + 1;
        stops = l.stops + 1;
      }
      else l

  -- `Post(void (*)(void*), void*)`.
  unfoldable pub post_raw : EventLoop J → J → EventLoop J × Bool
  post_raw l j =
      let (q, queued) = try_enqueue l.jobs j in
      if queued
      then (record l { jobs = q; wakeups = l.wakeups + 1 }, true)
      else (record l { jobs = q }, false)

  -- `Post(std::function<void()>)`: the wrapper is deleted again if it was not queued.
  unfoldable pub post : EventLoop J → J → EventLoop J × Bool
  unfolding post_raw
  post l j =
      let (l', queued) = post_raw (record l { wrappers = l.wrappers + 1 }) j in
      if queued then (l', true) else (record l' { wrappers = l'.wrappers - 1 }, false)

  module _ {κ} {S : Type κ} (callback : J → S → S) where
    -- The loop of `OnAsync`, with the state that the jobs act on, while nobody posts: a job that is
    -- posted meanwhile is taken too (EventLoop/Threads). Each wrapper is deleted when its job has run. `none` means that the fuel ran out, or a raw slot was read.
    unfoldable pub drain : ℕ → EventLoop J → S → Option (EventLoop J × S)
    drain zero l s = none
    drain (suc fuel) l s =
        let (found, q) = try_dequeue l.jobs in
        elim found [
          | nothing ↦ some (record l { jobs = q }, s)
          | raw ↦ none
          | item j ↦ drain fuel (record l { jobs = q; wrappers = l.wrappers - 1 }) (callback j s)
        ]

    unfoldable pub on_async : EventLoop J → S → Option (EventLoop J × S)
    unfolding drain
    on_async l s = drain l.jobs.capacity l s
