-- ===== src/Dispatch/Frame/Safety.antt =====
-- The blocks of received data over a frame of src/impl/core/CallbackManager.cpp.
use sm_ext_socket.Base.{
  ℕ, zero, suc, ◌+◌, ◌≤◌, ◌≡◌, ◌⊎◌, refl, Bool, true, false, not, ◌||◌, [], length, ltb,
  if◌then◌else◌,
}
use sm_ext_socket.Base.Int.{pos_part}
use sm_ext_socket.SocketTypes.{get_global, callbacks_per_frame}
use sm_ext_socket.Spsc.{Taken, nothing, item, raw}
use sm_ext_socket.Dispatch.{
  Game, Host, Outcome, returned, fault, bad_block, exhausted, M, pure, ◌>>=◌, Queued,
}
use sm_ext_socket.Dispatch.Safety.{Safely, Safely-bind, Safely-returned, Safe, Gentle}
use sm_ext_socket.Dispatch.Safety.Executing.{execute-Safely}
use sm_ext_socket.Dispatch.Frame.{
  Kind, connects, listens, incomings, receives, disconnects, errors, take_from, Progress,
  count_event, serve_taken, serve, round, fresh_round, frame, no_progress,
  process_pending_callbacks,
}
use sm_ext_socket.Dispatch.Frame.Budget.{process_pending_callbacks-bounded}
use sm_ext_socket.Dispatch.Safety.Taking.{take_from-raw, taken_in_hand, taken_nothing}

module _ (host : Host) (gentle : Gentle host) where
  abbrev StaysSafe : Progress → Game → Type 0
  StaysSafe p w = Safe [] w

  module _ (limit : ℕ) where
    serve_taken-Safely :
        (k : Kind) (p : Progress) (w : Game) (t : Taken Queued)
        → (take_from k w.events).0 ≡ t
        → Safe [] w
        → Safely StaysSafe
            (serve_taken host limit t p (record w { events = (take_from k w.events).1 }))
    unfolding serve_taken
    serve_taken-Safely k p w nothing e s = taken_nothing k w s e
    serve_taken-Safely k p w raw e s = absurd (take_from-raw k w.events s.now s.holds e)
    serve_taken-Safely k p w (item q) e s =
        Safely-bind (λ u w'. Safe [] w') StaysSafe _ (λ u. pure (count_event host limit q p))
          (execute-Safely host gentle q _ (taken_in_hand k w q s e)) (λ u w' kept. kept)

    serve-Safely :
        (k : Kind) (p : Progress) (w : Game) → Safe [] w → Safely StaysSafe (serve host limit k p w)
    unfolding serve
    serve-Safely k p w s = by_test p.stopped
      where
        by_test :
            (b : Bool)
            → Safely StaysSafe (
                if b
                then returned p w
                else serve_taken host limit
                    (take_from k w.events).0
                    p
                    (record w { events = (take_from k w.events).1 }))
        by_test true = s
        by_test false = serve_taken-Safely k p w _ refl s

    round-Safely : (p : Progress) (w : Game) → Safe [] w → Safely StaysSafe (round host limit p w)
    unfolding round
    round-Safely p w s = next _ _ (serve-Safely connects p w s) λ p1 w1 s1.
        next _ _ (serve-Safely listens p1 w1 s1) λ p2 w2 s2.
          next _ _ (serve-Safely incomings p2 w2 s2) λ p3 w3 s3.
            next _ _ (serve-Safely receives p3 w3 s3) λ p4 w4 s4.
              next _ _ (serve-Safely disconnects p4 w4 s4) λ p5 w5 s5. serve-Safely errors p5 w5 s5
      where
        next :
            (r : Outcome Progress) (f : Progress → M Progress)
            → Safely StaysSafe r
            → ((p' : Progress) (w' : Game) → Safe [] w' → Safely StaysSafe (f p' w'))
            → Safely StaysSafe (elim r [
              | returned a w ↦ f a w
              | fault ↦ fault
              | bad_block ↦ bad_block
              | exhausted ↦ exhausted
            ])
        next r f a b = Safely-bind StaysSafe StaysSafe r f a b

    frame-Safely :
        (fuel : ℕ) (p : Progress) (w : Game)
        → Safe [] w
        → Safely StaysSafe (frame host limit fuel p w)
    unfolding frame
    frame-Safely zero p w s = tt
    frame-Safely (suc fuel) p w s = by_test (frame-Safely fuel) (ltb p.processed limit)
      where
        round_end :
            (loop : (p : Progress) (w : Game)
              → Safe [] w
              → Safely StaysSafe (frame host limit fuel p w))
            → (b : Bool) (p' : Progress) (w' : Game) → Safe [] w'
            → Safely StaysSafe (
                (elim b as (λ x. M Progress) [ true ↦ pure p' | false ↦ frame host limit fuel p' ])
                  w')
        round_end loop true p' w' s' = s'
        round_end loop false p' w' s' = loop p' w' s'

        by_test :
            ((p : Progress) (w : Game) → Safe [] w → Safely StaysSafe (frame host limit fuel p w))
            → (b : Bool)
            → Safely StaysSafe (elim b [
              | false ↦ returned p w
              | true ↦
                  (do
                    p' ← round host limit (fresh_round host limit p)
                    elim (p'.stopped || not p'.any) [
                      | true ↦ pure p'
                      | false ↦ frame host limit fuel p'
                    ])
                    w
            ])
        by_test loop false = s
        by_test loop true =
            Safely-bind StaysSafe StaysSafe _ _ (round-Safely (fresh_round host limit p) w s)
              (λ p' w' s'. round_end loop (p'.stopped || not p'.any) p' w' s')

  -- What a frame that comes back has kept to.
  abbrev pub InBudget : Progress → Game → Type 0
  InBudget p w =
      (p.processed ≡ length p.trace)
      × (p.processed ≤ pos_part (get_global w.options callbacks_per_frame))

  -- If each block of received data is that of one waiting event, and whatever the plugins do, or the libuv
  -- thread meanwhile, leaves it so: a frame reads a socket or a function that is gone, or it comes back,
  -- within its budget, and each block that is left is that of one event that still waits. It uses no block
  -- that is not there and reads no raw slot.
  pub process_pending_callbacks-Safe :
      (w : Game)
      → Safe [] w
      → (process_pending_callbacks host w ≡ fault)
        ⊎ ((p : Progress) × (w' : Game) × (process_pending_callbacks host w ≡ returned p w')
            × InBudget p w
            × Safe [] w')
  unfolding process_pending_callbacks
  process_pending_callbacks-Safe w s =
      let limit = pos_part (get_global w.options callbacks_per_frame) in
      Safely-returned _ StaysSafe (process_pending_callbacks host w)
        (process_pending_callbacks-bounded host w) (frame-Safely limit (limit + 1) no_progress w s)
