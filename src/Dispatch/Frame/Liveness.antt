-- ===== src/Dispatch/Frame/Liveness.antt =====
-- A frame of src/impl/core/CallbackManager.cpp gets on.
use sm_ext_socket.Base.{ℕ, ◌<◌, ◌≤◌, ◌≡◌, ◌≢◌, sym, ap, ◌∙◌, [], length, arith}
use sm_ext_socket.Base.Int.{pos_part}
use sm_ext_socket.SocketTypes.{get_global, callbacks_per_frame}
use sm_ext_socket.CallbackManager.Contents.{Waiting, Holds}
use sm_ext_socket.Dispatch.{Game, Host, Outcome, returned, fault, bad_block, exhausted}
use sm_ext_socket.Dispatch.Ensures.{Ensures, Ensures-weaken}
use sm_ext_socket.Dispatch.Frame.{Kind, Progress, process_pending_callbacks}
use sm_ext_socket.Dispatch.Frame.Kinds.{pending, of_kind}
use sm_ext_socket.Dispatch.Frame.Budget.{process_pending_callbacks-bounded}
use sm_ext_socket.Dispatch.Frame.Arrivals.{Quiet, Split, process_pending_callbacks-Split}

Ensures-both :
    {A : Type 0} (P Q : A → Game → Type 0) (r : Outcome A)
    → Ensures P r
    → Ensures Q r
    → Ensures (λ a w. P a w × Q a w) r
Ensures-both P Q (returned a w) h k = (h, k)
Ensures-both P Q fault h k = tt
Ensures-both P Q bad_block h k = tt
Ensures-both P Q exhausted h k = h

-- If an event waits, the budget is positive and no event arrives meanwhile, a frame executes at least
-- one event, or faults.
pub process_pending_callbacks-ne-nil :
    (host : Host) (w : Game) (x : Waiting) (k : Kind)
    → Quiet host
    → Holds w.events x
    → 0 < pos_part (get_global w.options callbacks_per_frame)
    → pending k x ≢ []
    → Ensures (λ p w'. p.trace ≢ []) (process_pending_callbacks host w)
unfolding of_kind
process_pending_callbacks-ne-nil host w x k quiet h budget waits =
    Ensures-weaken (λ p w'. Within p × AllIfEarly p w') (λ p w'. p.trace ≢ [])
      (process_pending_callbacks host w) some_executed
      (Ensures-both (λ p w'. Within p) AllIfEarly (process_pending_callbacks host w)
        (process_pending_callbacks-bounded host w)
        (process_pending_callbacks-Split host quiet w x h))
  where
    limit : ℕ
    limit = pos_part (get_global w.options callbacks_per_frame)

    Within : Progress → Type 0
    Within p =
        (p.processed ≡ length p.trace)
        × (p.processed ≤ pos_part (get_global w.options callbacks_per_frame))

    AllIfEarly : Progress → Game → Type 0
    AllIfEarly p w' =
        (x' : Waiting) × Holds w'.events x'
        × Split host quiet x x' p.trace
        × (p.processed < pos_part (get_global w.options callbacks_per_frame)
            → (j : Kind) → of_kind j p.trace ≡ pending j x)

    some_executed : (p : Progress) (w' : Game) → Within p × AllIfEarly p w' → p.trace ≢ []
    some_executed p w' (counted, split) none =
        waits (sym (split.3 (omega (arith, counted.0, ap length none)) k) ∙ ap (of_kind k) none)
