-- ===== src/Dispatch/Frame.antt =====
-- `ProcessPendingCallbacks` of src/impl/core/CallbackManager.cpp: what the game thread does in a frame.
pub mod Rule
pub mod Loop
pub mod Kinds
pub mod Took
pub mod Takes
pub mod Answers
pub mod Arrivals
pub mod Budget
pub mod Liveness
pub mod Merge
pub mod Blocks
pub mod Rounds
pub mod Order
pub mod Safety
use sm_ext_socket.Base.{
  ℕ, zero, suc, ◌+◌, Bool, true, false, not, ◌||◌, List, [], ◌∷◌, ◌++◌, ltb, if◌then◌else◌,
}
use sm_ext_socket.Base.Int.{pos_part}
use sm_ext_socket.SocketTypes.{get_global, callbacks_per_frame}
use sm_ext_socket.Spsc.{Spsc, Taken, nothing, item, raw, try_dequeue}
use sm_ext_socket.CallbackManager.{CallbackManager}
use sm_ext_socket.Dispatch.{
  Game, Host, Outcome, returned, fault, bad_block, exhausted, M, pure, ◌>>=◌, Queued, connected,
  disconnected, listening, accepted, received, failed, execute,
}

-- The kinds of events, a queue each.
pub data Kind : Type 0 where
  connects listens incomings receives disconnects errors : Kind

abbrev as_queued : {A : Type 0} → (A → Queued) → Taken A → Taken Queued
as_queued f nothing = nothing
as_queued f (item x) = item (f x)
as_queued f raw = raw

-- `try_dequeue` on the queue of a kind.
unfoldable pub take_from : Kind → CallbackManager → Taken Queued × CallbackManager
take_from connects m =
    let (t, q) = try_dequeue m.connect_queue in
    (as_queued connected t, record m { connect_queue = q })
take_from listens m =
    let (t, q) = try_dequeue m.listen_queue in
    (as_queued listening t, record m { listen_queue = q })
take_from incomings m =
    let (t, q) = try_dequeue m.incoming_queue in
    (as_queued accepted t, record m { incoming_queue = q })
take_from receives m =
    let (t, q) = try_dequeue m.data_queue in (as_queued received t, record m { data_queue = q })
take_from disconnects m =
    let (t, q) = try_dequeue m.disconnect_queue in
    (as_queued disconnected t, record m { disconnect_queue = q })
take_from errors m =
    let (t, q) = try_dequeue m.error_queue in (as_queued failed t, record m { error_queue = q })

-- The local variables of the function: `stopped` is whether the inner `break` was taken. `trace` lists
-- the events that were executed, oldest first.
pub record Progress : Type 0 where
  pub processed : ℕ
  pub any : Bool
  pub stopped : Bool
  pub trace : List Queued

module _ (host : Host) (limit : ℕ) where
  -- After an event of this kind: it is counted, and the loop left if the limit is reached.
  unfoldable pub count_event : Queued → Progress → Progress
  count_event e p = record {
    processed = p.processed + 1;
    any = true;
    stopped = not (ltb (p.processed + 1) limit);
    trace = p.trace ++ e ∷ [];
  }

  unfoldable pub serve_taken : Taken Queued → Progress → M Progress
  serve_taken nothing p w = returned p w
  serve_taken raw p w = bad_block
  serve_taken (item e) p w = (do done ← execute host e; pure (count_event e p)) w

  -- The block of the function for one kind.
  unfoldable pub serve : Kind → Progress → M Progress
  serve kind p w =
      if p.stopped
      then returned p w
      else (let (t, m) = take_from kind w.events in serve_taken t p (record w { events = m }))

  unfoldable pub round : Progress → M Progress
  round p = do
    p1 ← serve connects p
    p2 ← serve listens p1
    p3 ← serve incomings p2
    p4 ← serve receives p3
    p5 ← serve disconnects p4
    serve errors p5

  abbrev pub fresh_round : Progress → Progress
  fresh_round p = record p { any = false; stopped = false }

  -- The outer loop.
  unfoldable pub frame : ℕ → Progress → M Progress
  frame zero p w = exhausted
  frame (suc fuel) p w = elim (ltb p.processed limit) [
    | false ↦ returned p w
    | true ↦
        (do
          p' ← round (fresh_round p)
          elim (p'.stopped || not p'.any) [ true ↦ pure p' | false ↦ frame fuel p' ])
          w
  ]

abbrev pub no_progress : Progress
no_progress = record { processed = 0; any = false; stopped = false; trace = [] }

-- The option is read once. A negative one lets nothing through, like 0. Each round but the last
-- executes an event, so that one more round than the limit is enough.
unfoldable pub process_pending_callbacks : Host → M Progress
unfolding frame
process_pending_callbacks host w =
    let limit = pos_part (get_global w.options callbacks_per_frame) in
    frame host limit (limit + 1) no_progress w
