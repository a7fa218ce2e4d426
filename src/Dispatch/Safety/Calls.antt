-- ===== src/Dispatch/Safety/Calls.antt =====
-- The guard of a callback (`is_socket_valid`), whether or not the sockets that are read are there.
use sm_ext_socket.Base.{
  ℕ, ◌≡◌, refl, subst, Bool, true, false, not, ◌==◌, Option, none, some, if◌then◌else◌,
}
use sm_ext_socket.Base.Int.{ℤ}
use sm_ext_socket.SocketTypes.{CallbackEvent}
use sm_ext_socket.SocketBase.{SocketBase}
use sm_ext_socket.Dispatch.{
  Game, Host, Outcome, returned, fault, bad_block, exhausted, M, pure, ◌>>=◌, deref,
  is_socket_valid, with_callback,
}
use sm_ext_socket.Dispatch.Safety.{Safely, Safely-bind}

-- A read of a socket, which may be gone.
pub deref-Safely :
    {B : Type 0} (p : ℕ) (w : Game) (Q : B → Game → Type 0) (f : SocketBase → M B)
    → ((s : SocketBase) → Safely Q (f s w))
    → Safely Q ((deref p >>= f) w)
deref-Safely p w Q f next = by_object (w.sockets p)
  where
    by_object :
        (o : Option SocketBase)
        → Safely Q
            (elim (elim o as (λ x. Outcome SocketBase) [ none ↦ fault | some b ↦ returned b w ]) [
              | returned a w' ↦ f a w'
              | fault ↦ fault
              | bad_block ↦ bad_block
              | exhausted ↦ exhausted
            ])
    by_object none = tt
    by_object (some b) = next b

module _ (host : Host) where
  -- What `with_callback` does once it knows whether the socket is live.
  abbrev guarded : ℕ → CallbackEvent → (SocketBase → ℕ → ℤ → M (Unit {0})) → Bool → M (Unit {0})
  guarded p event body valid =
      if valid
      then (do
        s ← deref p
        elim (s.callbacks event).function as (λ x. M (Unit {0})) [
          | none ↦ pure tt
          | some f ↦ body s f (s.callbacks event).cookie
        ])
      else pure tt

  pub with_callback-Safely :
      (p : ℕ) (event : CallbackEvent) (body : SocketBase → ℕ → ℤ → M (Unit {0})) (w : Game)
      (Q : Game → Type 0)
      → Q w
      → ((s : SocketBase) (f : ℕ) (cookie : ℤ) → Safely (λ u w'. Q w') (body s f cookie w))
      → Safely (λ u w'. Q w') (with_callback host p event body w)
  unfolding with_callback is_socket_valid
  with_callback-Safely p event body w Q q called = by_null (p == 0)
    where
      by_function :
          (s : SocketBase) (o : Option ℕ)
          → Safely
              (λ u w'. Q w')
              ((elim o as (λ x. M (Unit {0})) [
                | none ↦ pure tt
                | some f ↦ body s f (s.callbacks event).cookie
              ])
                w)
      by_function s none = q
      by_function s (some f) = called s f (s.callbacks event).cookie

      by_mark : (b : Bool) → Safely (λ u w'. Q w') (guarded p event body b w)
      by_mark true =
          deref-Safely p w (λ u w'. Q w') _ (λ s. by_function s (s.callbacks event).function)
      by_mark false = q

      by_null :
          (b : Bool)
          → Safely
              (λ u w'. Q w')
              ((do
                valid ← (if b then pure false else (do s ← deref p; pure (not s.deleted)))
                guarded p event body valid)
                w)
      by_null true = q
      by_null false =
          Safely-bind (λ b w'. w ≡ w') (λ u w'. Q w') _ (guarded p event body)
            (deref-Safely p w (λ b w'. w ≡ w') (λ s. pure (not s.deleted)) (λ s. refl))
            (λ b w' same.
              subst (λ v. Safely (λ u w'. Q w') (guarded p event body b v)) same (by_mark b))
