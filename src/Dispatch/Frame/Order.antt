-- ===== src/Dispatch/Frame/Order.antt =====
-- The order in which a frame of src/impl/core/CallbackManager.cpp executes the events that wait.
use sm_ext_socket.Base.{
  ℕ, zero, suc, ◌+◌, ◌-◌, ◌<◌, ◌≤◌, ◌≡◌, ◌⊎◌, refl, sym, ap, ◌∙◌, Bool, true, false, not, ◌||◌,
  List, [], ◌++◌, append-nil, length, take, ltb, arith,
}
use sm_ext_socket.Base.Int.{pos_part}
use sm_ext_socket.SocketTypes.{get_global, callbacks_per_frame}
use sm_ext_socket.CallbackManager.Contents.{Waiting, Holds}
use sm_ext_socket.Dispatch.{Game, Host, returned, fault, bad_block, M, pure, ◌>>=◌, Queued}
use sm_ext_socket.Dispatch.Ensures.{Ensures, Ensures-bind, Ensures-weaken, Ensures-cases}
use sm_ext_socket.Dispatch.Frame.{
  Progress, round, fresh_round, frame, no_progress, process_pending_callbacks,
}
use sm_ext_socket.Dispatch.Frame.Arrivals.{Quiet}
use sm_ext_socket.Dispatch.Frame.Blocks.{SeenAt}
use sm_ext_socket.Dispatch.Frame.Merge.{rounds, queues, merged}
use sm_ext_socket.Dispatch.Frame.Kinds.{all_kinds}
use sm_ext_socket.Dispatch.Frame.Rounds.{
  round-Seen, extended, Halted-extended, idle-extended, Going-extended,
}

module _ (host : Host) (quiet : Quiet host) (limit : ℕ) where
  abbrev Loop : ℕ → Type 0
  Loop fuel =
      (m : ℕ) (p : Progress) (w : Game) (x : Waiting)
      → Holds w.events x
      → p.processed ≡ length p.trace
      → p.processed ≤ limit
      → limit < fuel + p.processed
      → limit ≤ m + p.processed
      → Ensures (λ p' w'. p'.trace ≡ extended host quiet limit p.trace m x)
          (frame host limit fuel p w)

  -- The end of a round: the loop goes on only if an event was executed.
  round_end :
      (fuel m : ℕ) (before : List Queued) (p : Progress) (w : Game) (x : Waiting)
      → Loop fuel
      → length before < limit
      → limit < suc fuel + length before
      → limit ≤ suc m + length before
      → SeenAt host quiet limit before x all_kinds p w
      → Ensures
          (λ p' w'. p'.trace ≡ extended host quiet limit before (suc m) x)
          ((elim (p.stopped || not p.any) as (λ b. M Progress) [
            | true ↦ pure p
            | false ↦ frame host limit fuel p
          ])
            w)
  round_end fuel m before p w x loop more fuelled rounded s = by_tests p.stopped p.any refl refl
    where
      by_tests :
          (stopped any : Bool)
          → p.stopped ≡ stopped
          → p.any ≡ any
          → Ensures
              (λ p' w'. p'.trace ≡ extended host quiet limit before (suc m) x)
              ((elim (stopped || not any) as (λ b. M Progress) [
                | true ↦ pure p
                | false ↦ frame host limit fuel p
              ])
                w)
      by_tests true any stop some =
          Halted-extended host quiet limit before p.trace m x p s.counted (s.halted stop)
      by_tests false false go none =
          let g = s.going go in
          g.traced
          ∙ ap (λ es. before ++ es) (g.idle none)
          ∙ append-nil before
          ∙ idle-extended host quiet limit before (suc m) x (g.idle none)
      by_tests false true go some =
          let g = s.going go in
          Ensures-weaken (λ p' w'. p'.trace ≡ extended host quiet limit p.trace m g.now) _
            (frame host limit fuel p w)
            (λ p' w' h. h ∙ Going-extended host quiet limit before m x p w s.counted g)
            (loop m p w g.now g.holds s.counted (omega (arith, g.room)) (omega (arith, g.busy some))
              (omega (arith, g.busy some)))

  frame-extended : (fuel : ℕ) → Loop fuel
  unfolding frame
  frame-extended zero m p w x h counted below fuelled rounded = absurd (omega arith)
  frame-extended (suc fuel) m p w x h counted below fuelled rounded =
      by_test (frame-extended fuel) m rounded (ltb p.processed limit) refl
    where
      done-extended :
          (m : ℕ) → ltb p.processed limit ≡ false → p.trace ≡ extended host quiet limit p.trace m x
      done-extended m done =
          let none : limit - length p.trace ≡ 0 = ground (arith, counted, done) in
          sym (ap (λ n. p.trace ++ take n (rounds m (queues x))) none ∙ append-nil p.trace)

      by_test :
          Loop fuel
          → (m : ℕ) → limit ≤ m + p.processed
          → (b : Bool) → ltb p.processed limit ≡ b
          → Ensures
              (λ p' w'. p'.trace ≡ extended host quiet limit p.trace m x)
              (elim b [
                | false ↦ returned p w
                | true ↦
                    (do
                      p' ← round host limit (fresh_round host limit p)
                      elim (p'.stopped || not p'.any) [
                        | true ↦ pure p'
                        | false ↦ frame host limit fuel p'
                      ])
                      w
              ])
      by_test loop m rounded false done = done-extended m done
      by_test loop zero rounded true more = absurd (ground arith)
      by_test loop (suc m) rounded true more =
          let room : p.processed < limit = ground (arith, more) in
          Ensures-bind (SeenAt host quiet limit p.trace x all_kinds) _ _ _
            (round-Seen host quiet limit p w x h counted room)
            λ p' w' s.
              round_end fuel m p.trace p' w' x loop (omega (arith, counted, room))
                (omega (arith, counted, fuelled)) (omega (arith, counted, rounded)) s

pub process_pending_callbacks-in_order :
    (host : Host)
    → Quiet host
    → (w : Game) (x : Waiting) → Holds w.events x
    → Ensures
        (λ p w'. p.trace ≡ merged (pos_part (get_global w.options callbacks_per_frame)) x)
        (process_pending_callbacks host w)
unfolding process_pending_callbacks merged
process_pending_callbacks-in_order host quiet w x h =
    let limit = pos_part (get_global w.options callbacks_per_frame) in
    Ensures-weaken (λ p w'. p.trace ≡ extended host quiet limit [] limit x) _ _
      (λ p w' trace. trace ∙ ap (λ n. take n (rounds limit (queues x))) (omega arith))
      (frame-extended host quiet limit (limit + 1) limit no_progress w x h refl (omega arith)
        (omega arith) (omega arith))

-- If no event arrives while a frame runs: either the frame uses memory that is gone, or it comes back, and
-- has executed exactly the first events of the rounds over the queues, the first of each queue, then the
-- second of each and so on, up to `CallbacksPerFrame` of them, and in that order.
pub process_pending_callbacks-merged :
    (host : Host)
    → Quiet host
    → (w : Game) (x : Waiting) → Holds w.events x
    → (process_pending_callbacks host w ≡ fault)
      ⊎ (process_pending_callbacks host w ≡ bad_block)
      ⊎ ((p : Progress) × (w' : Game) × (process_pending_callbacks host w ≡ returned p w')
          × (p.trace ≡ merged (pos_part (get_global w.options callbacks_per_frame)) x))
process_pending_callbacks-merged host quiet w x h =
    Ensures-cases _ (process_pending_callbacks host w)
      (process_pending_callbacks-in_order host quiet w x h)
