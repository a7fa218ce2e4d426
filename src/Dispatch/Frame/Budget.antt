-- ===== src/Dispatch/Frame/Budget.antt =====
-- A frame of src/impl/core/CallbackManager.cpp ends, within its budget.
use sm_ext_socket.Base.{ℕ, ◌+◌, ◌≤◌, ◌≡◌, ◌⊎◌, refl, [], ◌∷◌, length, length-append, arith}
use sm_ext_socket.Base.Int.{pos_part}
use sm_ext_socket.SocketTypes.{get_global, callbacks_per_frame}
use sm_ext_socket.Dispatch.{Game, Host, fault, bad_block, returned, execute}
use sm_ext_socket.Dispatch.Ensures.{Ensures, Ensures-weaken, Ensures-cases, Keeps, execute-Steady}
use sm_ext_socket.Dispatch.Frame.{Progress, count_event, process_pending_callbacks, no_progress}
use sm_ext_socket.Dispatch.Frame.Rule.{Rule}
use sm_ext_socket.Dispatch.Frame.Loop.{Finished, frame-Finished}

module _ (host : Host) where
  -- Nothing is asked of the host.
  abbrev Anything : Game → Type 0
  Anything w = Unit

  anything : Keeps host Anything
  anything = record {
    execute = λ i w k. tt;
    create_handle = λ p w k. tt;
    free_handle = λ h w k. tt;
    sockets = λ f w k. tt;
    memory = λ h w k. tt;
  }

  abbrev Counted : Progress → Game → Type 0
  Counted p w = p.processed ≡ length p.trace

  counting : (limit : ℕ) → Rule host limit Counted (λ k. Anything)
  unfolding count_event
  counting limit = record {
    nothing_taken = λ k p w inv e. (inv, tt, λ j z. tt);
    event_taken = λ k p w e inv at.
        Ensures-weaken (λ u w'. Anything w') _ (execute host e _)
          (λ u w' z. omega (arith, length-append p.trace (e ∷ []), inv))
          (execute-Steady host Anything anything e _ tt);
    reset = λ p w inv. inv;
  }

  pub process_pending_callbacks-bounded :
      (w : Game)
      → Ensures
          (λ p w'.
            (p.processed ≡ length p.trace)
            × (p.processed ≤ pos_part (get_global w.options callbacks_per_frame)))
          (process_pending_callbacks host w)
  unfolding process_pending_callbacks
  process_pending_callbacks-bounded w =
      let limit = pos_part (get_global w.options callbacks_per_frame) in
      Ensures-weaken (Finished host limit Counted (λ k. Anything) (counting limit)) _ _
        (λ p w' f. (f.inv, f.below))
        (frame-Finished host limit Counted (λ k. Anything) (counting limit) (limit + 1) no_progress
          w (omega arith) (omega arith) refl)

  -- Either a frame uses memory that is gone, or it comes back, and has executed at most as many events as
  -- `CallbacksPerFrame` was when it began, none if that is negative. It never runs on for ever.
  pub process_pending_callbacks-Ensures :
      (w : Game)
      → (process_pending_callbacks host w ≡ fault)
        ⊎ (process_pending_callbacks host w ≡ bad_block)
        ⊎ ((p : Progress) × (w' : Game) × (process_pending_callbacks host w ≡ returned p w')
            × ((p.processed ≡ length p.trace)
                × (p.processed ≤ pos_part (get_global w.options callbacks_per_frame))))
  process_pending_callbacks-Ensures w =
      Ensures-cases _ (process_pending_callbacks host w) (process_pending_callbacks-bounded w)
