-- ===== src/EventLoop/Lifetime.antt =====
-- The constructor and the destructor of src/impl/core/EventLoop.cpp, with what they make and free.
use sm_ext_socket.Base.{ℕ, Bool, false, Option, none, some, ◌==◌, if◌then◌else◌}
use sm_ext_socket.EventLoop.{EventLoop, fresh, stop}
use sm_ext_socket.Uv.{HandleHeap, async_handle, on_close_of}

-- The loop's object: `m_loop` and `m_async`, whether the memory of the loop is there, and that of the
-- handles.
pub record LoopObject (J : Type 0) : Type 0 where
  pub state : EventLoop J
  pub uv_loop : Option ℕ
  pub async : Option ℕ
  pub loops : ℕ → Bool
  pub handles : HandleHeap

abbrev pub on_close : ℕ → HandleHeap → HandleHeap
on_close = on_close_of async_handle

module _ {J : Type 0} where
  -- `EventLoop()`, where `new` gives these addresses.
  unfoldable pub construct : (at async_at : ℕ) → LoopObject J
  construct at async_at = record {
    state = fresh;
    uv_loop = some at;
    async = some async_at;
    loops = λ p. at == p;
    handles = λ p. if async_at == p then some async_handle else none;
  }

  -- `~EventLoop()`. The closing of the asynchronous handle is over, and `OnClose` called, in the one turn
  -- of `uv_run` that follows.
  unfoldable pub destruct : LoopObject J → LoopObject J
  destruct o =
      let stopped = if o.state.running then stop o.state else o.state in
      let closed : HandleHeap = elim o.async [ none ↦ o.handles | some h ↦ on_close h o.handles ] in
      elim o.uv_loop [
        | none ↦ record o { state = stopped; handles = closed }
        | some p ↦ record o {
          state = stopped;
          handles = closed;
          uv_loop = none;
          loops = λ q. if p == q then false else o.loops q;
        }
      ]
