-- ===== src/Dispatch/Frame/Loop.antt =====
-- The loop of `process_pending_callbacks`, for blocks that keep an invariant.
use sm_ext_socket.Base.{
  [], All, ℕ, zero, suc, ◌+◌, ◌<◌, ◌≤◌, ◌≡◌, refl, Bool, true, false, not, ◌||◌, arith, ltb,
  false-ne-true,
}
use sm_ext_socket.Dispatch.{Game, Host, returned, M, pure, ◌>>=◌}
use sm_ext_socket.Dispatch.Ensures.{Ensures, Ensures-bind}
use sm_ext_socket.Dispatch.Frame.Kinds.{all_kinds}
use sm_ext_socket.Dispatch.Frame.{
  Kind, connects, listens, incomings, receives, disconnects, errors, Progress, round, fresh_round,
  frame,
}
use sm_ext_socket.Dispatch.Frame.Rule.{Rule, After, round-After}

module _ (host : Host) (limit : ℕ) (I : Progress → Game → Type 0) (Z : Kind → Game → Type 0)
    (rule : Rule host limit I Z) where
  -- The end of the loop: if it stopped before the limit, the last round took nothing.
  pub record Finished (p : Progress) (w : Game) : Type 0 where
    pub inv : I p w
    pub below : p.processed ≤ limit
    pub unfound : p.processed < limit → (k : Kind) → Z k w

  any_kind : (w : Game) → All (λ k. Z k w) all_kinds → (k : Kind) → Z k w
  any_kind w h connects = h.1.1.1.1.1.0
  any_kind w h listens = h.1.1.1.1.0
  any_kind w h incomings = h.1.1.1.0
  any_kind w h receives = h.1.1.0
  any_kind w h disconnects = h.1.0
  any_kind w h errors = h.0

  fresh-After :
      (p : Progress) (w : Game)
      → I p w
      → p.processed < limit
      → After host limit I Z p.processed [] (fresh_round host limit p) w
  fresh-After p w inv more = record {
    kept = record {
      below = omega arith;
      grown = omega arith;
      some_if = λ e. absurd (false-ne-true e);
      stop = λ e. absurd (false-ne-true e);
      going = λ e. more;
    };
    inv = rule.reset p w inv;
    unfound = λ none. tt;
  }

  abbrev Loop : ℕ → Type 0
  Loop fuel =
      (p : Progress) (w : Game)
      → limit < fuel + p.processed
      → p.processed ≤ limit
      → I p w
      → Ensures Finished (frame host limit fuel p w)

  -- The end of a round: the loop goes on only if an event was executed.
  round_end :
      (fuel n : ℕ) (p : Progress) (w : Game)
      → Loop fuel
      → limit < suc fuel + n
      → After host limit I Z n all_kinds p w
      → Ensures Finished (
          (elim (p.stopped || not p.any) as (λ b. M Progress) [
            | true ↦ pure p
            | false ↦ frame host limit fuel p
          ])
            w)
  round_end fuel n p w loop h a = by_tests p.stopped p.any refl refl
    where
      by_tests :
          (stopped any : Bool)
          → p.stopped ≡ stopped
          → p.any ≡ any
          → Ensures Finished (
              (elim (stopped || not any) as (λ b. M Progress) [
                | true ↦ pure p
                | false ↦ frame host limit fuel p
              ])
                w)
      by_tests true any stop some = record {
        inv = a.inv;
        below = a.kept.below;
        unfound = λ more. absurd (omega (arith, (a.kept.stop stop).1));
      }
      by_tests false false go none = record {
        inv = a.inv;
        below = a.kept.below;
        unfound = λ more. any_kind w (a.unfound none);
      }
      by_tests false true go some = loop p w (omega (arith, a.kept.some_if some)) a.kept.below a.inv

  pub frame-Finished : (fuel : ℕ) → Loop fuel
  unfolding frame
  frame-Finished zero p w h below inv = absurd (omega arith)
  frame-Finished (suc fuel) p w h below inv =
      by_test (frame-Finished fuel) (ltb p.processed limit) refl
    where
      by_test :
          Loop fuel
          → (b : Bool) → ltb p.processed limit ≡ b
          → Ensures Finished (elim b [
            | false ↦ returned p w
            | true ↦
                (do
                  p' ← round host limit (fresh_round host limit p)
                  elim (p'.stopped || not p'.any) [
                    | true ↦ pure p'
                    | false ↦ frame host limit fuel p'
                  ])
                  w
          ])
      by_test loop false done = record {
        inv = inv;
        below = below;
        unfound = λ more. absurd (ground arith);
      }
      by_test loop true more =
          Ensures-bind (After host limit I Z p.processed all_kinds) Finished _ _
            (round-After host limit I Z rule p.processed (fresh_round host limit p) w
              (fresh-After p w inv (ground arith)))
            λ p' w' h'. round_end fuel p.processed p' w' loop h h'
