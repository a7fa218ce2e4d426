-- ===== src/Dispatch/Ensures.antt =====
-- What the `Execute` methods of src/impl/core/CallbackManager.cpp keep, if the host keeps it.
use sm_ext_socket.Base.{
  ℕ, ◌≡◌, ◌⊎◌, inl, inr, refl, Bool, true, false, ◌&&◌, Option, none, some, List, ◌==◌,
  if◌then◌else◌, arith,
}
use sm_ext_socket.Base.Int.{ℤ, nonzero}
use sm_ext_socket.SocketTypes.{CallbackEvent, auto_free_handle}
use sm_ext_socket.SocketBase.{SocketBase, get_option}
use sm_ext_socket.CallbackManager.{Memory, free}
use sm_ext_socket.Dispatch.{
  Arg, Invocation, Game, Host, Outcome, returned, fault, bad_block, exhausted, M, pure, ◌>>=◌, ◌>>◌,
  deref, is_socket_valid, run, incoming_args, with_callback, auto_free, set_handle, load_block,
  free_block, execute_connect, execute_disconnect, execute_listen, execute_incoming,
  execute_receive, execute_error, Queued, connected, disconnected, listening, accepted, received,
  failed, execute,
}

-- A result that meets `P`, or a fault; the fuel has not run out.
abbrev pub Ensures : {A : Type 0} → (A → Game → Type 0) → Outcome A → Type 0
Ensures P (returned a w) = P a w
Ensures P fault = Unit
Ensures P bad_block = Unit
Ensures P exhausted = ⊥

pub Ensures-bind :
    {A B : Type 0} (P : A → Game → Type 0) (Q : B → Game → Type 0) (r : Outcome A) (f : A → M B)
    → Ensures P r
    → ((a : A) (w : Game) → P a w → Ensures Q (f a w))
    → Ensures Q (elim r [
      | returned a w ↦ f a w
      | fault ↦ fault
      | bad_block ↦ bad_block
      | exhausted ↦ exhausted
    ])
Ensures-bind P Q (returned a w) f h next = next a w h
Ensures-bind P Q fault f h next = tt
Ensures-bind P Q bad_block f h next = tt
Ensures-bind P Q exhausted f h next = absurd h

pub Ensures-weaken :
    {A : Type 0} (P Q : A → Game → Type 0) (r : Outcome A)
    → ((a : A) (w : Game) → P a w → Q a w)
    → Ensures P r
    → Ensures Q r
Ensures-weaken P Q (returned a w) f h = f a w h
Ensures-weaken P Q fault f h = tt
Ensures-weaken P Q bad_block f h = tt
Ensures-weaken P Q exhausted f h = absurd h

pub Ensures-cases :
    {A : Type 0} (P : A → Game → Type 0) (r : Outcome A)
    → Ensures P r
    → (r ≡ fault) ⊎ (r ≡ bad_block) ⊎ ((a : A) × (w : Game) × (r ≡ returned a w) × P a w)
Ensures-cases P (returned a w) h = inr (inr (a, w, refl, h))
Ensures-cases P fault h = inl refl
Ensures-cases P bad_block h = inr (inl refl)
Ensures-cases P exhausted h = absurd h

-- What a frame may change: the host's functions, a socket's members, and the blocks of the heap.
pub record Keeps (host : Host) (K : Game → Type 0) : Type 0 where
  pub execute : (i : Invocation) (w : Game) → K w → K (host.execute i w)
  pub create_handle : (p : ℕ) (w : Game) → K w → K (host.create_handle p w).1
  pub free_handle : (h : ℤ) (w : Game) → K w → K (host.free_handle h w)
  pub sockets : (f : ℕ → Option SocketBase) (w : Game) → K w → K (record w { sockets = f })
  pub memory :
      (h : Memory) (w : Game) → K w → K (record w { events = record w.events { memory = h } })

module _ (host : Host) (K : Game → Type 0) (keeps : Keeps host K) where
  abbrev Steady : {A : Type 0} → M A → Type 0
  Steady m = (w : Game) → K w → Ensures (λ a w'. K w') (m w)

  Steady-bind :
      {A B : Type 0} (m : M A) (f : A → M B)
      → Steady m
      → ((a : A) → Steady (f a))
      → Steady (m >>= f)
  Steady-bind m f hm hf w k = Ensures-bind (λ a w'. K w') (λ b w'. K w') (m w) f (hm w k) hf

  deref-Steady : (p : ℕ) → Steady (deref p)
  deref-Steady p w k = ground arith

  is_socket_valid-Steady : (p : ℕ) → Steady (is_socket_valid p)
  unfolding is_socket_valid
  is_socket_valid-Steady p w k = ground arith

  if-Steady :
      {A : Type 0} (b : Bool) (m n : M A) → Steady m → Steady n → Steady (if b then m else n)
  if-Steady true m n hm hn = hm
  if-Steady false m n hm hn = hn

  pure-Steady : {A : Type 0} (a : A) → Steady (pure a)
  pure-Steady a w k = k

  run-Steady : (f : ℕ) (args : List Arg) → Steady (run host f args)
  run-Steady f args w k = keeps.execute _ w k

  with_callback-Steady :
      (p : ℕ) (event : CallbackEvent) (body : SocketBase → ℕ → ℤ → M (Unit {0}))
      → ((s : SocketBase) (f : ℕ) (cookie : ℤ) → Steady (body s f cookie))
      → Steady (with_callback host p event body)
  unfolding with_callback
  with_callback-Steady p event body h =
      Steady-bind (is_socket_valid p) _ (is_socket_valid-Steady p) λ valid.
        if-Steady valid _ (pure tt)
          (Steady-bind (deref p) _ (deref-Steady p) λ s. chosen s (s.callbacks event).function)
          (pure-Steady tt)
    where
      chosen :
          (s : SocketBase) (o : Option ℕ)
          → Steady (elim o as (λ x. M (Unit {0})) [
            | none ↦ pure tt
            | some f ↦ body s f (s.callbacks event).cookie
          ])
      chosen s none = pure-Steady tt
      chosen s (some f) = h s f (s.callbacks event).cookie

  auto_free-Steady : (p : ℕ) (event : CallbackEvent) → Steady (auto_free host p event)
  unfolding auto_free
  auto_free-Steady p event = Steady-bind (deref p) _ (deref-Steady p) λ s.
      if-Steady (nonzero (get_option s auto_free_handle) && nonzero s.sm_handle) _ (pure tt)
        (chosen s (s.callbacks event).function) (pure-Steady tt)
    where
      chosen :
          (s : SocketBase) (o : Option ℕ)
          → Steady (elim o as (λ x. M (Unit {0})) [
            | none ↦ λ w. fault
            | some f ↦ λ w. returned tt (host.free_handle s.sm_handle w)
          ])
      chosen s none w k = tt
      chosen s (some f) w k = keeps.free_handle s.sm_handle w k

  free_block-Steady : (p : ℕ) → Steady (free_block host p)
  unfolding free_block
  free_block-Steady p w k = by_answer (free w.events.memory p)
    where
      by_answer :
          (o : Option Memory)
          → Ensures
              (λ u w'. K w')
              (elim o as (λ x. Outcome (Unit {0})) [
                | none ↦ bad_block
                | some h ↦ returned tt (record w { events = record w.events { memory = h } })
              ])
      by_answer none = tt
      by_answer (some h) = keeps.memory h w k

  load_block-Steady : (p : ℕ) → Steady (load_block host p)
  load_block-Steady p w k = ground arith

  set_handle-Steady : (p : ℕ) (handle : ℤ) → Steady (set_handle host p handle)
  set_handle-Steady p handle = Steady-bind (deref p) _ (deref-Steady p) λ s w k. keeps.sockets _ w k

  incoming-Steady :
      (p : ℕ) (f : ℕ) (args : ℤ → List Arg)
      → Steady λ w.
        let (handle, w1) = host.create_handle p w in
        if p == 0 then returned tt w else (set_handle host p handle >> run host f (args handle)) w1
  incoming-Steady p f args w k = by_test (p == 0)
    where
      by_test :
          (b : Bool)
          → Ensures
              (λ u w'. K w')
              (let (handle, w1) = host.create_handle p w in
                if b
                then returned tt w
                else (set_handle host p handle >> run host f (args handle)) w1)
      by_test true = k
      by_test false =
          let (handle, w1) = host.create_handle p w in
          Steady-bind (set_handle host p handle) _ (set_handle-Steady p handle)
            (λ u. run-Steady f (args handle)) w1 (keeps.create_handle p w k)

  -- The six methods keep what the host's functions keep.
  pub execute-Steady : (e : Queued) → Steady (execute host e)
  unfolding execute execute_connect execute_disconnect execute_listen execute_incoming
      execute_receive execute_error
  execute-Steady (connected e) = with_callback-Steady _ _ _ λ s f cookie. run-Steady f _
  execute-Steady (listening e) = with_callback-Steady _ _ _ λ s f cookie. run-Steady f _
  execute-Steady (accepted e) =
      with_callback-Steady _ _ _
        λ s f cookie. incoming-Steady e.new_socket f (incoming_args host s e cookie)
  execute-Steady (disconnected e) = with_callback-Steady _ _ _ λ s f cookie.
      Steady-bind (run host f _) _ (run-Steady f _)
        λ u. auto_free-Steady e.socket CallbackEvent.disconnect
  execute-Steady (failed e) = with_callback-Steady _ _ _ λ s f cookie.
      Steady-bind (run host f _) _ (run-Steady f _)
        λ u. auto_free-Steady e.socket CallbackEvent.error
  execute-Steady (received e) =
      Steady-bind _ _
        (with_callback-Steady _ _ _ λ s f cookie.
          Steady-bind (load_block host e.block) _ (load_block-Steady e.block)
            λ bytes. run-Steady f _)
        λ u. free_block-Steady e.block
