-- ===== src/Dispatch/Frame/Rule.antt =====
-- What holds of a frame whatever the plugins do: a rule for its blocks.
use sm_ext_socket.Base.{
  List, [], ◌∷◌, All, ℕ, ◌<◌, ◌≤◌, ◌≡◌, refl, sym, ◌∙◌, Bool, true, false, arith, if◌then◌else◌,
  false-ne-true,
}
use sm_ext_socket.Spsc.{Taken, nothing, item, raw}
use sm_ext_socket.Dispatch.{
  Game, Host, Outcome, returned, fault, bad_block, exhausted, M, Queued, execute,
}
use sm_ext_socket.Dispatch.Ensures.{Ensures, Ensures-bind}
use sm_ext_socket.Dispatch.Frame.Kinds.{all_kinds}
use sm_ext_socket.Dispatch.Frame.{
  Kind, connects, listens, incomings, receives, disconnects, errors, take_from, Progress,
  count_event, serve_taken, serve, round, fresh_round,
}

-- What every block keeps: `n` events were executed when the round began.
pub record Kept (limit n : ℕ) (p : Progress) : Type 0 where
  pub below : p.processed ≤ limit
  pub grown : n ≤ p.processed
  pub some_if : p.any ≡ true → n < p.processed
  pub stop : p.stopped ≡ true → (p.any ≡ true) × (p.processed ≡ limit)
  pub going : p.stopped ≡ false → p.processed < limit

-- `I` is an invariant of the blocks, and `Z k` what a block finds that takes nothing of kind `k`.
module _ (host : Host) (limit : ℕ) (I : Progress → Game → Type 0) (Z : Kind → Game → Type 0) where
  pub record Rule : Type 0 where
    pub nothing_taken :
        (k : Kind) (p : Progress) (w : Game)
        → I p w
        → (take_from k w.events).0 ≡ nothing
        → I p (record w { events = (take_from k w.events).1 })
          × Z k (record w { events = (take_from k w.events).1 })
          × ((j : Kind) → Z j w → Z j (record w { events = (take_from k w.events).1 }))
    pub event_taken :
        (k : Kind) (p : Progress) (w : Game) (e : Queued)
        → I p w
        → (take_from k w.events).0 ≡ item e
        → Ensures
            (λ u w'. I (count_event host limit e p) w')
            (execute host e (record w { events = (take_from k w.events).1 }))
    pub reset : (p : Progress) (w : Game) → I p w → I (fresh_round host limit p) w

  -- After the blocks of these kinds, in a round that began with `n` events executed.
  pub record After (n : ℕ) (ks : List Kind) (p : Progress) (w : Game) : Type 0 where
    pub kept : Kept limit n p
    pub inv : I p w
    pub unfound : p.any ≡ false → All (λ k. Z k w) ks

  count_event-Kept :
      (n : ℕ) (e : Queued) (p : Progress)
      → Kept limit n p
      → p.stopped ≡ false
      → Kept limit n (count_event host limit e p)
  unfolding count_event
  count_event-Kept n e p h go = ground arith

  All-keep :
      (ks : List Kind) (w w' : Game)
      → ((j : Kind) → Z j w → Z j w')
      → All (λ k. Z k w) ks
      → All (λ k. Z k w') ks
  All-keep [] w w' keep h = tt
  All-keep (k ∷ ks) w w' keep h = (keep k h.0, All-keep ks w w' keep h.1)

  module _ (rule : Rule) where
    serve_taken-After :
        (n : ℕ) (k : Kind) (ks : List Kind) (p : Progress) (w : Game) (t : Taken Queued)
        → (take_from k w.events).0 ≡ t
        → p.stopped ≡ false
        → After n ks p w
        → Ensures
            (After n (k ∷ ks))
            (serve_taken host limit t p (record w { events = (take_from k w.events).1 }))
    unfolding serve_taken
    serve_taken-After n k ks p w nothing e go h =
        let (inv, here, keep) = rule.nothing_taken k p w h.inv e in
        record {
          kept = h.kept;
          inv = inv;
          unfound = λ none. (here, All-keep ks w _ keep (h.unfound none));
        }
    serve_taken-After n k ks p w raw e go h = tt
    serve_taken-After n k ks p w (item x) e go h =
        Ensures-bind (λ u w'. I (count_event host limit x p) w') (After n (k ∷ ks)) _ _
          (rule.event_taken k p w x h.inv e)
          λ u w' inv. record {
            kept = count_event-Kept n x p h.kept go;
            inv = inv;
            unfound = λ none. unfold count_event in cc none;
          }

    serve-After :
        (n : ℕ) (k : Kind) (ks : List Kind) (p : Progress) (w : Game)
        → After n ks p w
        → Ensures (After n (k ∷ ks)) (serve host limit k p w)
    unfolding serve
    serve-After n k ks p w h = by_test p.stopped refl
      where
        by_test :
            (b : Bool)
            → p.stopped ≡ b
            → Ensures (After n (k ∷ ks)) (
                if b
                then returned p w
                else serve_taken host limit
                    (take_from k w.events).0
                    p
                    (record w { events = (take_from k w.events).1 }))
        by_test true stop = record {
          kept = h.kept;
          inv = h.inv;
          unfound = λ none. absurd (false-ne-true (sym none ∙ (h.kept.stop stop).0));
        }
        by_test false go = serve_taken-After n k ks p w _ refl go h

    pub round-After :
        (n : ℕ) (p : Progress) (w : Game)
        → After n [] p w
        → Ensures (After n all_kinds) (round host limit p w)
    unfolding round
    round-After n p w h = next connects [] _ _ (serve-After n connects [] p w h) λ p1 w1 h1.
        next listens _ _ _ (serve-After n listens _ p1 w1 h1) λ p2 w2 h2.
          next incomings _ _ _ (serve-After n incomings _ p2 w2 h2) λ p3 w3 h3.
            next receives _ _ _ (serve-After n receives _ p3 w3 h3) λ p4 w4 h4.
              next disconnects _ _ _ (serve-After n disconnects _ p4 w4 h4)
                λ p5 w5 h5. serve-After n errors _ p5 w5 h5
      where
        next :
            (k : Kind) (ks : List Kind) (r : Outcome Progress) (f : Progress → M Progress)
            → Ensures (After n (k ∷ ks)) r
            → ((p' : Progress) (w' : Game)
                → After n (k ∷ ks) p' w'
                → Ensures (After n all_kinds) (f p' w'))
            → Ensures (After n all_kinds) (elim r [
              | returned a w ↦ f a w
              | fault ↦ fault
              | bad_block ↦ bad_block
              | exhausted ↦ exhausted
            ])
        next k ks r f a b = Ensures-bind _ _ r f a b
