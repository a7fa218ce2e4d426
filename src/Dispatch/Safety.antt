-- ===== src/Dispatch/Safety.antt =====
-- Who owns the blocks of received data while src/impl/core/CallbackManager.cpp executes events: a result
-- that is no `bad_block`, and the states that it is asked for. Sockets may be deleted at any time.
mod Calls
pub mod Executing
pub mod Taking
pub mod Arriving
use sm_ext_socket.Base.{
  ℕ, ◌≡◌, ◌≢◌, refl, sym, ap, subst, ◌∙◌, ◌⊎◌, inl, inr, Bool, true, false, not, ◌==◌, Option, none,
  some, List, [], ◌∷◌, ◌++◌, All, if◌then◌else◌, Bool-cases, arith,
}
use sm_ext_socket.Base.Int.{ℤ}
use sm_ext_socket.SocketBase.{SocketBase}
use sm_ext_socket.CallbackManager.{DataEvent, Memory}
use sm_ext_socket.CallbackManager.Contents.{Waiting, Holds}
use sm_ext_socket.CallbackManager.Buffers.{Owned}
use sm_ext_socket.Dispatch.{
  Invocation, Game, Host, Outcome, returned, fault, bad_block, exhausted, M, Queued, connected,
  disconnected, listening, accepted, received, failed, socket_of,
}
use sm_ext_socket.Dispatch.Ensures.{Ensures}
use sm_ext_socket.Dispatch.Frame.{Kind}
use sm_ext_socket.Dispatch.Frame.Kinds.{pending}

-- A result that meets `P`, unless a deleted socket was read or the fuel has run out, and no bad block.
abbrev pub Safely : {A : Type 0} → (A → Game → Type 0) → Outcome A → Type 0
Safely P (returned a w) = P a w
Safely P fault = Unit
Safely P bad_block = ⊥
Safely P exhausted = Unit

pub Safely-bind :
    {A B : Type 0} (P : A → Game → Type 0) (Q : B → Game → Type 0) (r : Outcome A) (f : A → M B)
    → Safely P r
    → ((a : A) (w : Game) → P a w → Safely Q (f a w))
    → Safely Q (elim r [
      | returned a w ↦ f a w
      | fault ↦ fault
      | bad_block ↦ bad_block
      | exhausted ↦ exhausted
    ])
Safely-bind P Q (returned a w) f h next = next a w h
Safely-bind P Q fault f h next = tt
Safely-bind P Q bad_block f h next = absurd h
Safely-bind P Q exhausted f h next = tt

pub Safely-weaken :
    {A : Type 0} (P Q : A → Game → Type 0) (r : Outcome A)
    → ((a : A) (w : Game) → P a w → Q a w)
    → Safely P r
    → Safely Q r
Safely-weaken P Q (returned a w) f h = f a w h
Safely-weaken P Q fault f h = tt
Safely-weaken P Q bad_block f h = absurd h
Safely-weaken P Q exhausted f h = tt

-- With enough fuel and without a bad block there is a result, or a deleted socket was read.
pub Safely-returned :
    {A : Type 0} (P Q : A → Game → Type 0) (r : Outcome A)
    → Ensures P r
    → Safely Q r
    → (r ≡ fault) ⊎ ((a : A) × (w : Game) × (r ≡ returned a w) × P a w × Q a w)
Safely-returned P Q (returned a w) p q = inr (a, w, refl, p, q)
Safely-returned P Q fault p q = inl refl
Safely-returned P Q bad_block p q = absurd q
Safely-returned P Q exhausted p q = absurd p

abbrev pub data_of : List Queued → List DataEvent
data_of [] = []
data_of (received e ∷ es) = e ∷ data_of es
data_of (_ ∷ es) = data_of es

-- Some events wait and those of `hand` are being executed: the blocks of received data are those of their
-- data events, one each.
pub record Safe (hand : List Queued) (w : Game) : Type 0 where
  pub now : Waiting
  pub holds : Holds w.events now
  pub owned : Owned w.events.memory (data_of hand ++ now.receives)

-- The host's functions, and what happens while they run, may enqueue events, and make, change and delete
-- sockets. They take no event and free no block.
pub record Gentle (host : Host) : Type 0 where
  pub execute :
      (i : Invocation) (hand : List Queued) (w : Game) → Safe hand w → Safe hand (host.execute i w)
  pub create_handle :
      (p : ℕ) (hand : List Queued) (w : Game) → Safe hand w → Safe hand (host.create_handle p w).1
  pub free_handle : (h : ℤ) (w : Game) → Safe [] w → Safe [] (host.free_handle h w)

-- The sockets have nothing to do with it.
pub Safe-sockets :
    (hand : List Queued) (w : Game) (f : ℕ → Option SocketBase)
    → Safe hand w
    → Safe hand (record w { sockets = f })
Safe-sockets hand w f s = record { now = s.now; holds = s.holds; owned = s.owned }

-- An event without a block is done with.
pub Safe-drop : (e : Queued) (w : Game) → data_of (e ∷ []) ≡ [] → Safe (e ∷ []) w → Safe [] w
Safe-drop e w none_held s = record {
  now = s.now;
  holds = s.holds;
  owned = subst (λ ds. Owned w.events.memory (ds ++ s.now.receives)) none_held s.owned;
}
