-- ===== src/Dispatch/Frame/Blocks.antt =====
-- What the blocks of a round of src/impl/core/CallbackManager.cpp have executed, and what they left.
use sm_ext_socket.Base.{
  false-ne-true, ℕ, ◌<◌, ◌≡◌, refl, sym, ap, subst, ◌∙◌, Bool, true, false, List, [], ◌∷◌, ◌++◌,
  append_assoc, append-nil, length, length-append, if◌then◌else◌, Bool-cases, inl, inr, arith,
}
use sm_ext_socket.Spsc.{Taken, nothing, item, raw}
use sm_ext_socket.CallbackManager.Contents.{Waiting, Holds}
use sm_ext_socket.Dispatch.{Game, Host, returned, Queued}
use sm_ext_socket.Dispatch.Ensures.{Ensures, Ensures-bind, execute-Steady}
use sm_ext_socket.Dispatch.Frame.{Kind, take_from, Progress, count_event, serve_taken, serve}
use sm_ext_socket.Dispatch.Frame.Kinds.{pending, only, eqb_kind, eqb_kind-eq, only-nil}
use sm_ext_socket.Dispatch.Frame.Answers.{take_from-empty, take_from-item}
use sm_ext_socket.Dispatch.Frame.Arrivals.{Quiet, Waits, waits}
use sm_ext_socket.Dispatch.Frame.Merge.{first, rest}

-- Kinds that a round has looked at, the latest first.
abbrev pub is_in : Kind → List Kind → Bool
is_in j [] = false
is_in j (k ∷ ks) = if eqb_kind j k then true else is_in j ks

abbrev pub served : List Kind → Kind → List Queued → List Queued
served done j es = if is_in j done then rest es else es

-- What the round has executed, if nothing stopped it.
abbrev pub firsts_of : List Kind → Waiting → List Queued
firsts_of [] x = []
firsts_of (k ∷ ks) x = firsts_of ks x ++ first (pending k x)

-- A round that began with `before` executed and `x0` waiting, once it has looked at the kinds `done`.
pub record Going (limit : ℕ) (before : List Queued) (x0 : Waiting) (done : List Kind) (p : Progress)
    (w : Game) : Type 0 where
  pub room : p.processed < limit
  pub traced : p.trace ≡ before ++ firsts_of done x0
  pub now : Waiting
  pub holds : Holds w.events now
  pub state : (j : Kind) → pending j now ≡ served done j (pending j x0)
  pub idle : p.any ≡ false → firsts_of done x0 ≡ []
  pub busy : p.any ≡ true → length before < p.processed

pub record Halted (limit : ℕ) (before : List Queued) (x0 : Waiting) (done : List Kind)
    (p : Progress) : Type 0 where
  pub full : p.processed ≡ limit
  pub last : List Queued
  pub more : List Queued
  pub traced : p.trace ≡ before ++ last
  pub begun : firsts_of done x0 ≡ last ++ more

pub record Seen (limit : ℕ) (before : List Queued) (x0 : Waiting) (done : List Kind) (p : Progress)
    (w : Game) : Type 0 where
  pub counted : p.processed ≡ length p.trace
  pub going : p.stopped ≡ false → Going limit before x0 done p w
  pub halted : p.stopped ≡ true → Halted limit before x0 done p

-- What a queue that was looked at has lost: its first event, if it had one.
served-cons :
    (done : List Kind) (j k : Kind) (es fs : List Queued)
    → is_in k done ≡ false
    → (eqb_kind j k ≡ true → fs ≡ rest es)
    → (eqb_kind j k ≡ false → fs ≡ served done j es)
    → fs ≡ served (k ∷ done) j es
served-cons done j k es fs new here there = elim (Bool-cases (eqb_kind j k)) [
  | inl same ↦ rw same (here same)
  | inr other ↦ rw other (there other)
]

module _ (host : Host) (quiet : Quiet host) (limit : ℕ) (before : List Queued) (x0 : Waiting) where
  abbrev pub SeenAt : List Kind → Progress → Game → Type 0
  SeenAt done p w = Seen limit before x0 done p w

  -- A queue that the round has yet to look at holds what it held.
  unseen :
      (k : Kind) (done : List Kind) (p : Progress) (w : Game)
      → is_in k done ≡ false
      → (g : Going limit before x0 done p w) → pending k g.now ≡ pending k x0
  unseen k done p w new g =
      subst (λ b. pending k g.now ≡ (if b then rest (pending k x0) else pending k x0)) new
        (g.state k)

  found_nothing :
      (k : Kind) (done : List Kind) (p : Progress) (w : Game)
      → is_in k done ≡ false
      → p.stopped ≡ false
      → SeenAt done p w
      → (take_from k w.events).0 ≡ nothing
      → SeenAt (k ∷ done) p (record w { events = (take_from k w.events).1 })
  found_nothing k done p w new go s dry =
      let g = s.going go in
      let (empty, h) = take_from-empty k w.events g.now g.holds dry in
      let none_waits : pending k x0 ≡ [] = sym (unseen k done p w new g) ∙ empty in
      let nothing_new : firsts_of (k ∷ done) x0 ≡ firsts_of done x0 =
        ap (λ es. firsts_of done x0 ++ first es) none_waits ∙ append-nil (firsts_of done x0) in
      record {
        counted = s.counted;
        going = λ z. record {
          room = g.room;
          traced = g.traced ∙ ap (λ es. before ++ es) (sym nothing_new);
          now = g.now;
          holds = h;
          state = λ j.
              served-cons done j k (pending j x0) (pending j g.now) new
                (λ same.
                  subst (λ i. pending i g.now ≡ rest (pending i x0)) (sym (eqb_kind-eq j k same))
                    (empty ∙ sym (ap rest none_waits)))
                (λ other. g.state j);
          idle = λ none. nothing_new ∙ g.idle none;
          busy = g.busy;
        };
        halted = λ stop. absurd (false-ne-true (sym go ∙ stop));
      }

  -- The counters after an event, and the waiting events that are left.
  counted_event :
      (k : Kind) (done : List Kind) (p : Progress) (w w' : Game) (e : Queued) (x' : Waiting)
      → is_in k done ≡ false
      → p.processed ≡ length p.trace
      → (g : Going limit before x0 done p w) → Holds w'.events x'
      → ((j : Kind) → pending j g.now ≡ only j e ++ pending j x')
      → only k e ≡ e ∷ []
      → SeenAt (k ∷ done) (count_event host limit e p) w'
  unfolding count_event
  counted_event k done p w w' e x' new counted g h split same =
      let here : pending k x0 ≡ e ∷ pending k x' =
        sym (unseen k done p w new g) ∙ split k ∙ ap (λ es. es ++ pending k x') same in
      let longer : firsts_of (k ∷ done) x0 ≡ firsts_of done x0 ++ e ∷ [] =
        ap (λ es. firsts_of done x0 ++ first es) here in
      let traced : p.trace ++ e ∷ [] ≡ before ++ firsts_of (k ∷ done) x0 =
        ap (λ es. es ++ e ∷ []) g.traced
        ∙ append_assoc before (firsts_of done x0) (e ∷ [])
        ∙ ap (λ es. before ++ es) (sym longer) in
      record {
        counted = omega (arith, counted, length-append p.trace (e ∷ []));
        going = λ go. record {
          room = ground (arith, go);
          traced = traced;
          now = x';
          holds = h;
          state = λ j.
              served-cons done j k (pending j x0) (pending j x') new
                (λ eq.
                  subst (λ i. pending i x' ≡ rest (pending i x0)) (sym (eqb_kind-eq j k eq))
                    (sym (ap rest here)))
                (λ other.
                  sym (ap (λ es. es ++ pending j x') (only-nil j k e same other))
                  ∙ sym (split j)
                  ∙ g.state j);
          idle = λ none. absurd (false-ne-true (sym none));
          busy = λ some.
              omega (arith, counted, ap length g.traced, length-append before (firsts_of done x0));
        };
        halted = λ stop. record {
          full = ground (arith, stop, g.room);
          last = firsts_of (k ∷ done) x0;
          more = [];
          traced = traced;
          begun = sym (append-nil (firsts_of (k ∷ done) x0));
        };
      }

  serve_taken-Seen :
      (k : Kind) (done : List Kind) (p : Progress) (w : Game) (t : Taken Queued)
      → is_in k done ≡ false
      → p.stopped ≡ false
      → SeenAt done p w
      → (take_from k w.events).0 ≡ t
      → Ensures
          (SeenAt (k ∷ done))
          (serve_taken host limit t p (record w { events = (take_from k w.events).1 }))
  unfolding serve_taken
  serve_taken-Seen k done p w nothing new go s e = found_nothing k done p w new go s e
  serve_taken-Seen k done p w raw new go s e = tt
  serve_taken-Seen k done p w (item q) new go s e =
      let g = s.going go in
      let (x', h, split, same) = take_from-item k w.events g.now q g.holds e in
      Ensures-bind (λ u w'. Waits host quiet x' w') (SeenAt (k ∷ done)) _ _
        (execute-Steady host (Waits host quiet x') (waits host quiet x') q _ h)
        λ u w' kept. counted_event k done p w w' q x' new s.counted g kept split same

  pub serve-Seen :
      (k : Kind) (done : List Kind) (p : Progress) (w : Game)
      → is_in k done ≡ false
      → SeenAt done p w
      → Ensures (SeenAt (k ∷ done)) (serve host limit k p w)
  unfolding serve
  serve-Seen k done p w new s = by_test p.stopped refl
    where
      by_test :
          (b : Bool)
          → p.stopped ≡ b
          → Ensures (SeenAt (k ∷ done)) (
              if b
              then returned p w
              else serve_taken host limit
                  (take_from k w.events).0
                  p
                  (record w { events = (take_from k w.events).1 }))
      by_test true stop =
          let h = s.halted stop in
          record {
            counted = s.counted;
            going = λ go. absurd (false-ne-true (sym go ∙ stop));
            halted = λ z. record {
              full = h.full;
              last = h.last;
              more = h.more ++ first (pending k x0);
              traced = h.traced;
              begun =
                  ap (λ es. es ++ first (pending k x0)) h.begun
                  ∙ append_assoc h.last h.more (first (pending k x0));
            };
          }
      by_test false go = serve_taken-Seen k done p w _ new go s refl
