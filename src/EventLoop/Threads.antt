-- ===== src/EventLoop/Threads.antt =====
-- src/impl/core/EventLoop.cpp under its two threads: `Start`, `Stop` and `Post` of the game thread and
-- `Run` and `OnAsync` of the libuv thread, cut at every access to what they share. A call of a
-- member of the queue is one access: the queue answers for its own threads.
pub mod Invariant
pub mod Accesses
pub mod Wakeups
pub mod Joining
use sm_ext_socket.Base.{
  ℕ, ◌+◌, ◌-◌, ◌≡◌, Bool, true, false, Option, none, some, List, [], ◌∷◌, ◌++◌, if◌then◌else◌,
}
use sm_ext_socket.Spsc.{Spsc, Taken, nothing, item, raw, try_enqueue, try_dequeue}
use sm_ext_socket.EventLoop.{EventLoop, fresh}

-- The access of `Start`, `Stop` or `Post` that the game thread makes next. While it joins it waits for
-- the libuv thread to end.
pub data Caller (J : Type 0) : Type 0 where
  idle : Caller J
  start_running start_stopping start_thread : Caller J
  stop_stopping stop_async_send stop_uv_stop stop_join stop_running : Caller J
  post_enqueue : J → Caller J
  post_async_send : Caller J

-- Where the libuv thread stands: there is none, before a test of `m_stopping`, in `uv_run` between two
-- callbacks, waiting for the system inside of `uv_run`, in the loop of `OnAsync`, asleep, or at the end
-- of `Run`.
pub data UvThread : Type 0 where
  absent check polling blocked draining recheck asleep ended : UvThread

-- `pending` is whether `uv_async_send` was called and libuv has not yet called `OnAsync` for it, and
-- `stop_flag` whether `uv_stop` was and `uv_run` has not yet returned for it. `posted` lists the jobs
-- of the calls of `Post` that queued theirs, `executed` those that ran, oldest first.
pub record Life (J : Type 0) : Type 0 where
  pub loop : EventLoop J
  pub pending : Bool
  pub stop_flag : Bool
  pub caller : Caller J
  pub uv : UvThread
  pub posted : List J
  pub executed : List J

module _ {J : Type 0} where
  unfoldable pub new_life : Life J
  new_life = record {
    loop = fresh;
    pending = false;
    stop_flag = false;
    caller = idle;
    uv = absent;
    posted = [];
    executed = [];
  }

  -- The calls that an idle game thread may make.
  unfoldable pub call_start : Life J → Life J
  call_start l = if l.loop.running then l else record l { caller = start_running }

  unfoldable pub call_stop : Life J → Life J
  call_stop l = if l.loop.running then record l { caller = stop_stopping } else l

  unfoldable pub call_post : J → Life J → Life J
  call_post j l = record l {
    loop = record l.loop { wrappers = l.loop.wrappers + 1 };
    caller = post_enqueue j;
  }

  abbrev async_send : EventLoop J → EventLoop J
  async_send e = record e { wakeups = e.wakeups + 1 }

  -- `try_enqueue` of `Post`, and what follows each answer.
  unfoldable pub enqueue_job : J → Life J → Life J
  enqueue_job j l =
      let (q, queued) = try_enqueue l.loop.jobs j in
      if queued
      then record l {
        loop = record l.loop { jobs = q };
        caller = post_async_send;
        posted = l.posted ++ j ∷ [];
      }
      else record l {
        loop = record l.loop { jobs = q; wrappers = l.loop.wrappers - 1 };
        caller = idle;
      }

  -- `join`, which waits until the thread has ended.
  unfoldable pub join : UvThread → Life J → Option (Life J)
  join ended l =
      some
        (record l { loop = record l.loop { started = false }; caller = stop_running; uv = absent })
  join _ l = none

  -- The next access of the game thread, `none` where it waits.
  unfoldable pub caller_step : Caller J → Life J → Option (Life J)
  unfolding enqueue_job join
  caller_step idle l = none
  caller_step start_running l =
      some (record l { loop = record l.loop { running = true }; caller = start_stopping })
  caller_step start_stopping l =
      some (record l { loop = record l.loop { stopping = false }; caller = start_thread })
  caller_step start_thread l =
      some (record l { loop = record l.loop { started = true }; caller = idle; uv = check })
  caller_step stop_stopping l =
      some (record l { loop = record l.loop { stopping = true }; caller = stop_async_send })
  caller_step stop_async_send l =
      some (record l { loop = async_send l.loop; pending = true; caller = stop_uv_stop })
  caller_step stop_uv_stop l = some (record l {
    loop = record l.loop { stops = l.loop.stops + 1 };
    stop_flag = true;
    caller = stop_join;
  })
  caller_step stop_join l = join l.uv l
  caller_step stop_running l =
      some (record l { loop = record l.loop { running = false }; caller = idle })
  caller_step (post_enqueue j) l = some (enqueue_job j l)
  caller_step post_async_send l =
      some (record l { loop = async_send l.loop; pending = true; caller = idle })

  -- A round of the loop of `OnAsync`, at what `try_dequeue` gives.
  unfoldable pub drain_found : Taken J → Spsc J → Life J → Option (Life J)
  drain_found nothing q l = some (record l { loop = record l.loop { jobs = q }; uv = polling })
  drain_found raw q l = none
  drain_found (item j) q l = some (record l {
    loop = record l.loop { jobs = q; wrappers = l.loop.wrappers - 1 };
    executed = l.executed ++ j ∷ [];
  })

  unfoldable pub drain_job : Life J → Option (Life J)
  unfolding drain_found
  drain_job l = let (found, q) = try_dequeue l.loop.jobs in drain_found found q l

  -- The next access of the libuv thread, outside of libuv.
  unfoldable pub uv_step : UvThread → Life J → Option (Life J)
  unfolding drain_job
  uv_step absent l = none
  uv_step check l = some (record l { uv = if l.loop.stopping then ended else polling })
  uv_step polling l = none
  uv_step blocked l = none
  uv_step draining l = drain_job l
  uv_step recheck l = some (record l { uv = if l.loop.stopping then check else asleep })
  uv_step asleep l = some (record l { uv = check })
  uv_step ended l = none

  -- A move of the libuv thread. In `uv_run`, libuv tests the flag of `uv_stop` before it waits for the
  -- system, and returns if it is set; what it waits for is a call of `uv_async_send`, after which it
  -- calls `OnAsync`, or an event of another handle. A call of `uv_stop` does not wake it.
  pub data UvStep (l : Life J) : Life J → Type 0 where
    run : {l' : Life J} → uv_step l.uv l ≡ some l' → UvStep l l'
    call_async :
        l.uv ≡ blocked → l.pending ≡ true → UvStep l (record l { pending = false; uv = draining })
    block : l.uv ≡ polling → l.stop_flag ≡ false → UvStep l (record l { uv = blocked })
    other_event : l.uv ≡ blocked → UvStep l (record l { uv = polling })
    return :
        l.uv ≡ polling
        → l.stop_flag ≡ true
        → UvStep l (record l { stop_flag = false; uv = recheck })

  -- A move of either thread.
  pub data Step (l : Life J) : Life J → Type 0 where
    starts : l.caller ≡ idle → Step l (call_start l)
    stops : l.caller ≡ idle → Step l (call_stop l)
    posts : (j : J) → l.caller ≡ idle → Step l (call_post j l)
    goes_on : {l' : Life J} → caller_step l.caller l ≡ some l' → Step l l'
    moves : {l' : Life J} → UvStep l l' → Step l l'

  pub data Reach : Life J → Type 0 where
    new : Reach new_life
    next : {l l' : Life J} → Reach l → Step l l' → Reach l'
