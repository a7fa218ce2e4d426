-- ===== src/Dispatch/Frame/Rounds.antt =====
-- A round of src/impl/core/CallbackManager.cpp, and what is left for the rounds after it.
use sm_ext_socket.Base.{
  false-ne-true, ℕ, suc, ◌+◌, ◌-◌, ◌<◌, ◌≤◌, ◌≡◌, refl, sym, ap, ◌∙◌, false, List, [], ◌∷◌, ◌++◌,
  append_assoc, append-nil, length, length-append, take, arith,
}
use sm_ext_socket.CallbackManager.Contents.{Waiting, Holds}
use sm_ext_socket.Dispatch.{Game, Host, Outcome, returned, fault, bad_block, exhausted, M, Queued}
use sm_ext_socket.Dispatch.Ensures.{Ensures, Ensures-bind}
use sm_ext_socket.Dispatch.Frame.{
  Kind, connects, listens, incomings, receives, disconnects, errors, Progress, round, fresh_round,
  serve,
}
use sm_ext_socket.Dispatch.Frame.Arrivals.{Quiet}
use sm_ext_socket.Dispatch.Frame.Blocks.{is_in, firsts_of, Going, Halted, SeenAt, serve-Seen}
use sm_ext_socket.Dispatch.Frame.Merge.{
  firsts, rests, rounds, rounds-nil, take-nil, take-append, take-append_le, queues,
}
use sm_ext_socket.Dispatch.Frame.Kinds.{all_kinds}

firsts_of-queues : (x : Waiting) → firsts_of all_kinds x ≡ firsts (queues x)
firsts_of-queues x = simp (append_assoc, append-nil)

module _ (host : Host) (quiet : Quiet host) (limit : ℕ) where
  begun :
      (p : Progress) (w : Game) (x : Waiting)
      → Holds w.events x
      → p.processed ≡ length p.trace
      → p.processed < limit
      → SeenAt host quiet limit p.trace x [] (fresh_round host limit p) w
  begun p w x h counted more = record {
    counted = counted;
    going = λ go. record {
      room = more;
      traced = sym (append-nil p.trace);
      now = x;
      holds = h;
      state = λ j. refl;
      idle = λ none. refl;
      busy = λ some. absurd (false-ne-true some);
    };
    halted = λ stop. absurd (false-ne-true stop);
  }

  pub round-Seen :
      (p : Progress) (w : Game) (x : Waiting)
      → Holds w.events x
      → p.processed ≡ length p.trace
      → p.processed < limit
      → Ensures
          (SeenAt host quiet limit p.trace x all_kinds)
          (round host limit (fresh_round host limit p) w)
  unfolding round
  round-Seen p w x h counted more =
      next connects [] _ _ (look connects [] _ w refl (begun p w x h counted more)) λ p1 w1 h1.
        next listens _ _ _ (look listens _ p1 w1 refl h1) λ p2 w2 h2.
          next incomings _ _ _ (look incomings _ p2 w2 refl h2) λ p3 w3 h3.
            next receives _ _ _ (look receives _ p3 w3 refl h3) λ p4 w4 h4.
              next disconnects _ _ _ (look disconnects _ p4 w4 refl h4)
                λ p5 w5 h5. look errors _ p5 w5 refl h5
    where
      look :
          (k : Kind) (done : List Kind) (p' : Progress) (w' : Game)
          → is_in k done ≡ false
          → SeenAt host quiet limit p.trace x done p' w'
          → Ensures (SeenAt host quiet limit p.trace x (k ∷ done)) (serve host limit k p' w')
      look = serve-Seen host quiet limit p.trace x

      next :
          (k : Kind) (ks : List Kind) (r : Outcome Progress) (f : Progress → M Progress)
          → Ensures (SeenAt host quiet limit p.trace x (k ∷ ks)) r
          → ((p' : Progress) (w' : Game)
              → SeenAt host quiet limit p.trace x (k ∷ ks) p' w'
              → Ensures (SeenAt host quiet limit p.trace x all_kinds) (f p' w'))
          → Ensures (SeenAt host quiet limit p.trace x all_kinds) (elim r [
            | returned a w ↦ f a w
            | fault ↦ fault
            | bad_block ↦ bad_block
            | exhausted ↦ exhausted
          ])
      next k ks r f a b = Ensures-bind _ _ r f a b

  -- What is to be executed after `before`, with so many rounds left.
  abbrev pub extended : List Queued → ℕ → Waiting → List Queued
  extended before m x = before ++ take (limit - length before) (rounds m (queues x))

  pub Halted-extended :
      (before trace : List Queued) (m : ℕ) (x : Waiting) (p : Progress)
      → p.processed ≡ length p.trace
      → Halted limit before x all_kinds p
      → p.trace ≡ extended before (suc m) x
  unfolding rounds
  Halted-extended before trace m x p counted h =
      let all : firsts (queues x) ++ rounds m (rests (queues x))
          ≡ h.last ++ (h.more ++ rounds m (rests (queues x))) =
        ap (λ es. es ++ rounds m (rests (queues x))) (sym (firsts_of-queues x) ∙ h.begun)
        ∙ append_assoc h.last h.more (rounds m (rests (queues x))) in
      let count : limit - length before ≡ length h.last =
        omega (arith, counted, h.full, ap length h.traced, length-append before h.last) in
      h.traced
      ∙ ap (λ es. before ++ es)
          (sym (
            ap (λ es. take (limit - length before) es) all
            ∙ ap (λ n. take n (h.last ++ (h.more ++ rounds m (rests (queues x))))) count
            ∙ take-append h.last (h.more ++ rounds m (rests (queues x)))))

  pub idle-extended :
      (before : List Queued) (m : ℕ) (x : Waiting)
      → firsts_of all_kinds x ≡ []
      → before ≡ extended before m x
  idle-extended before m x none = sym (
      ap (λ es. before ++ take (limit - length before) es)
        (rounds-nil m (queues x) (sym (firsts_of-queues x) ∙ none))
      ∙ ap (λ es. before ++ es) (take-nil (limit - length before))
      ∙ append-nil before)

  -- What the queues hold after a round that was not stopped.
  queues-Going :
      (before : List Queued) (x : Waiting) (p : Progress) (w : Game)
      → (g : Going limit before x all_kinds p w) → queues g.now ≡ rests (queues x)
  queues-Going before x p w g = rw (
    g.state connects,
    g.state listens,
    g.state incomings,
    g.state receives,
    g.state disconnects,
    g.state errors,
  )

  pub Going-extended :
      (before : List Queued) (m : ℕ) (x : Waiting) (p : Progress) (w : Game)
      → p.processed ≡ length p.trace
      → (g : Going limit before x all_kinds p w)
      → extended p.trace m g.now ≡ extended before (suc m) x
  unfolding rounds
  Going-extended before m x p w counted g =
      let all : p.trace ≡ before ++ firsts (queues x) =
        g.traced ∙ ap (λ es. before ++ es) (firsts_of-queues x) in
      let size : length p.trace ≡ length before + length (firsts (queues x)) =
        ap length all ∙ length-append before (firsts (queues x)) in
      let left = rounds m (rests (queues x)) in
      let fits : length (firsts (queues x)) ≤ limit - length before =
        omega (arith, size, counted, g.room) in
      let count : limit - length p.trace ≡ limit - length before - length (firsts (queues x)) =
        omega (arith, size, counted, g.room) in
      ap (λ ls. p.trace ++ take (limit - length p.trace) (rounds m ls))
        (queues-Going before x p w g)
      ∙ ap (λ n. p.trace ++ take n left) count
      ∙ ap (λ es. es ++ take (limit - length before - length (firsts (queues x))) left) all
      ∙ append_assoc before (firsts (queues x))
          (take (limit - length before - length (firsts (queues x))) left)
      ∙ ap (λ es. before ++ es)
          (sym (take-append_le (limit - length before) (firsts (queues x)) left fits))
