-- ===== src/Dispatch/Frame/Arrivals.antt =====
-- What a frame of src/impl/core/CallbackManager.cpp executes, if no event arrives while it runs.
use sm_ext_socket.Base.{
  ℕ, ◌+◌, ◌<◌, ◌≡◌, refl, sym, ap, ◌∙◌, List, [], ◌∷◌, ◌++◌, append_assoc, append-nil, arith,
}
use sm_ext_socket.Base.Int.{ℤ, pos_part}
use sm_ext_socket.SocketTypes.{get_global, callbacks_per_frame}
use sm_ext_socket.Spsc.{nothing}
use sm_ext_socket.CallbackManager.Contents.{Waiting, Holds}
use sm_ext_socket.Dispatch.{Game, Host, Invocation, Queued, execute}
use sm_ext_socket.Dispatch.Ensures.{Ensures, Ensures-weaken, Keeps, execute-Steady}
use sm_ext_socket.Dispatch.Frame.{
  Kind, Progress, count_event, take_from, process_pending_callbacks, no_progress,
}
use sm_ext_socket.Dispatch.Frame.Rule.{Rule}
use sm_ext_socket.Dispatch.Frame.Loop.{Finished, frame-Finished}
use sm_ext_socket.Dispatch.Frame.Kinds.{pending, only, of_kind, of_kind-append, of_kind-only}
use sm_ext_socket.Dispatch.Frame.Answers.{take_from-nothing, take_from-empty, take_from-item}

-- No event arrives while a function of the host runs: the queues hold what they held.
pub record Quiet (host : Host) : Type 0 where
  pub execute :
      (i : Invocation) (w : Game) (x : Waiting)
      → Holds w.events x
      → Holds (host.execute i w).events x
  pub create_handle :
      (p : ℕ) (w : Game) (x : Waiting)
      → Holds w.events x
      → Holds (host.create_handle p w).1.events x
  pub free_handle :
      (h : ℤ) (w : Game) (x : Waiting) → Holds w.events x → Holds (host.free_handle h w).events x

module _ (host : Host) (quiet : Quiet host) where
  abbrev pub Waits : Waiting → Game → Type 0
  Waits x w = Holds w.events x

  pub waits : (x : Waiting) → Keeps host (Waits x)
  waits x = record {
    execute = λ i w h. quiet.execute i w x h;
    create_handle = λ p w h. quiet.create_handle p w x h;
    free_handle = λ h w k. quiet.free_handle h w x k;
    sockets = λ f w h. h;
    memory = λ m w h. record {
      connect_queue = h.connect_queue;
      disconnect_queue = h.disconnect_queue;
      listen_queue = h.listen_queue;
      incoming_queue = h.incoming_queue;
      data_queue = h.data_queue;
      error_queue = h.error_queue;
    };
  }

  -- `x0` waited when the frame began, `x` waits still, and what was executed was taken in order.
  pub record Split (x0 x : Waiting) (trace : List Queued) : Type 0 where
    pub in_order : (k : Kind) → of_kind k trace ++ pending k x ≡ pending k x0

  abbrev Accounted : Waiting → Progress → Game → Type 0
  Accounted x0 p w = (x : Waiting) × Holds w.events x × Split x0 x p.trace

  abbrev Dry : Kind → Game → Type 0
  Dry k w = (take_from k w.events).0 ≡ nothing

  Split-snoc :
      (x0 x x' : Waiting) (trace : List Queued) (e : Queued)
      → Split x0 x trace
      → ((k : Kind) → pending k x ≡ only k e ++ pending k x')
      → Split x0 x' (trace ++ e ∷ [])
  Split-snoc x0 x x' trace e h taken = record {
    in_order = λ k.
        ap (λ es. es ++ pending k x')
          (of_kind-append k trace (e ∷ []) ∙ ap (λ es. of_kind k trace ++ es) (of_kind-only k e))
        ∙ append_assoc (of_kind k trace) (only k e) (pending k x')
        ∙ ap (λ es. of_kind k trace ++ es) (sym (taken k))
        ∙ h.in_order k;
  }

  accounting : (limit : ℕ) (x0 : Waiting) → Rule host limit (Accounted x0) Dry
  unfolding count_event
  accounting limit x0 = record {
    nothing_taken = λ k p w (x, h, s) dry.
        let (empty, h') = take_from-empty k w.events x h dry in
        (
          (x, h', s),
          take_from-nothing k _ x h' empty,
          λ j z. take_from-nothing j _ x h' (take_from-empty j w.events x h z).0,
        );
    event_taken = λ k p w e (x, h, s) found.
        let (x', h', split, _) = take_from-item k w.events x e h found in
        Ensures-weaken (λ u w'. Waits x' w') _ (execute host e _)
          (λ u w' kept. (x', kept, Split-snoc x0 x x' p.trace e s split))
          (execute-Steady host (Waits x') (waits x') e _ h');
    reset = λ p w inv. inv;
  }

  -- If no event arrives while a frame runs, and no callback makes it read freed memory, it executes, of
  -- each kind, the oldest that wait, in their order, and leaves the others. If it ends before
  -- `CallbacksPerFrame` events it leaves none.
  pub process_pending_callbacks-Split :
      (w : Game) (x0 : Waiting)
      → Holds w.events x0
      → Ensures
          (λ p w'.
            (x : Waiting) × Holds w'.events x
            × Split x0 x p.trace
            × (p.processed < pos_part (get_global w.options callbacks_per_frame)
                → (k : Kind) → of_kind k p.trace ≡ pending k x0))
          (process_pending_callbacks host w)
  unfolding process_pending_callbacks of_kind
  process_pending_callbacks-Split w x0 h =
      let limit = pos_part (get_global w.options callbacks_per_frame) in
      Ensures-weaken (Finished host limit (Accounted x0) Dry (accounting limit x0)) _ _
        (λ p w' f.
          let (x, h', s) = f.inv in
          (
            x,
            h',
            s,
            λ more k.
                sym (append-nil (of_kind k p.trace))
                ∙ ap (λ es. of_kind k p.trace ++ es)
                    (sym (take_from-empty k w'.events x h' (f.unfound more k)).0)
                ∙ s.in_order k,
          ))
        (frame-Finished host limit (Accounted x0) Dry (accounting limit x0) (limit + 1) no_progress
          w (omega arith) (omega arith) (x0, h, record { in_order = λ k. refl }))
