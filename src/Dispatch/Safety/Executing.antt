-- ===== src/Dispatch/Safety/Executing.antt =====
-- The `Execute` methods of src/impl/core/CallbackManager.cpp and the blocks of received data.
use sm_ext_socket.Base.{
  Option, ℕ, ◌≡◌, refl, sym, subst, Bool, true, false, ◌==◌, ◌&&◌, none, some, List, [], ◌∷◌, ◌++◌,
  if◌then◌else◌,
}
use sm_ext_socket.Base.Int.{ℤ, nonzero}
use sm_ext_socket.SocketTypes.{CallbackEvent, auto_free_handle}
use sm_ext_socket.SocketBase.{SocketBase, get_option}
use sm_ext_socket.CallbackManager.{DataEvent}
use sm_ext_socket.CallbackManager.Buffers.{free-Owned}
use sm_ext_socket.Dispatch.{
  Arg, Game, Host, Outcome, returned, fault, bad_block, exhausted, M, pure, ◌>>=◌, ◌>>◌, run,
  incoming_args, auto_free, set_handle, load_block, free_block, execute_connect, execute_disconnect,
  execute_listen, execute_incoming, execute_receive, execute_error, Queued, connected, disconnected,
  listening, accepted, received, failed, execute, socket_of,
}
use sm_ext_socket.Dispatch.Safety.{
  Safely, Safely-bind, data_of, Safe, Gentle, Safe-sockets, Safe-drop,
}
use sm_ext_socket.Dispatch.Safety.Calls.{deref-Safely, with_callback-Safely}

abbrev new_socket_of : Queued → ℕ
new_socket_of (accepted e) = e.new_socket
new_socket_of _ = 0

module _ (host : Host) (gentle : Gentle host) where
  -- The call of a plugin's function keeps what is at hand.
  run-Safely :
      (f : ℕ) (args : List Arg) (hand : List Queued) (w : Game)
      → Safe hand w
      → Safely (λ u w'. Safe hand w') (run host f args w)
  run-Safely f args hand w safe = gentle.execute _ hand w safe

  auto_free-Safely :
      (e : Queued) (event : CallbackEvent) (w : Game)
      → data_of (e ∷ []) ≡ []
      → Safe (e ∷ []) w
      → Safely (λ u w'. Safe [] w') (auto_free host (socket_of e) event w)
  unfolding auto_free
  auto_free-Safely e event w no_block safe =
      deref-Safely (socket_of e) w (λ u w'. Safe [] w') _
        (λ s.
          by_test s (s.callbacks event).function
            (nonzero (get_option s auto_free_handle) && nonzero s.sm_handle))
    where
      by_test :
          (s : SocketBase) (o : Option ℕ) (b : Bool)
          → Safely
              (λ u w'. Safe [] w')
              ((if b
                  then (elim o as (λ x. M (Unit {0})) [
                    | none ↦ λ w. fault
                    | some f ↦ λ w. returned tt (host.free_handle s.sm_handle w)
                  ])
                  else pure tt)
                w)
      by_test s none true = tt
      by_test s (some f) true = gentle.free_handle s.sm_handle w (Safe-drop e w no_block safe)
      by_test s o false = Safe-drop e w no_block safe

  -- The block of the event at hand is there, and is the only one that goes.
  free_block-Safely :
      (e : DataEvent) (w : Game)
      → Safe (received e ∷ []) w
      → Safely (λ u w'. Safe [] w') (free_block host e.block w)
  unfolding free_block
  free_block-Safely e w s =
      let (h, freed, owned) = free-Owned w.events.memory e s.now.receives s.owned in
      subst
        (λ o.
          Safely (λ u w'. Safe [] w')
            (elim o as (λ x. Outcome (Unit {0})) [
              | none ↦ bad_block
              | some h ↦ returned tt (record w { events = record w.events { memory = h } })
            ]))
        (sym freed)
        (record {
          now = s.now;
          holds = record {
            connect_queue = s.holds.connect_queue;
            disconnect_queue = s.holds.disconnect_queue;
            listen_queue = s.holds.listen_queue;
            incoming_queue = s.holds.incoming_queue;
            data_queue = s.holds.data_queue;
            error_queue = s.holds.error_queue;
          };
          owned = owned;
        })

  load_block-Safely :
      {B : Type 0} (e : DataEvent) (w : Game) (Q : B → Game → Type 0) (f : List ℕ → M B)
      → Safe (received e ∷ []) w
      → ((bytes : List ℕ) → Safely Q (f bytes w))
      → Safely Q ((load_block host e.block >>= f) w)
  load_block-Safely e w Q f s next =
      let ((bytes, b), _) = s.owned.blocks in
      subst
        (λ o.
          Safely Q
            (elim (elim o as (λ x. Outcome (List ℕ)) [ none ↦ bad_block | some l ↦ returned l w ]) [
              | returned a w' ↦ f a w'
              | fault ↦ fault
              | bad_block ↦ bad_block
              | exhausted ↦ exhausted
            ]))
        (sym b.there) (next (bytes ++ 0 ∷ []))

  set_handle-Safely :
      (e : Queued) (handle : ℤ) (w : Game)
      → Safe (e ∷ []) w
      → Safely (λ u w'. Safe (e ∷ []) w') (set_handle host (new_socket_of e) handle w)
  set_handle-Safely e handle w safe =
      deref-Safely (new_socket_of e) w (λ u w'. Safe (e ∷ []) w') _
        (λ s. Safe-sockets (e ∷ []) w _ safe)

  incoming-Safely :
      (e : Queued) (f : ℕ) (args : ℤ → List Arg) (w : Game)
      → data_of (e ∷ []) ≡ []
      → Safe (e ∷ []) w
      → Safely
          (λ u w'. Safe [] w')
          (let (handle, w1) = host.create_handle (new_socket_of e) w in
            if new_socket_of e == 0
            then returned tt w
            else (set_handle host (new_socket_of e) handle >> run host f (args handle)) w1)
  incoming-Safely e f args w no_block safe = by_test (new_socket_of e == 0)
    where
      by_test :
          (b : Bool)
          → Safely
              (λ u w'. Safe [] w')
              (let (handle, w1) = host.create_handle (new_socket_of e) w in
                if b
                then returned tt w
                else (set_handle host (new_socket_of e) handle >> run host f (args handle)) w1)
      by_test true = Safe-drop e w no_block safe
      by_test false =
          let (handle, w1) = host.create_handle (new_socket_of e) w in
          Safely-bind (λ u w'. Safe (e ∷ []) w') (λ u w'. Safe [] w') _
            (λ u. run host f (args handle))
            (set_handle-Safely e handle w1 (gentle.create_handle (new_socket_of e) (e ∷ []) w safe))
            (λ u w' kept. Safe-drop e _ no_block (run-Safely f (args handle) (e ∷ []) w' kept))

  -- An event whose block is there is executed without a bad block.
  pub execute-Safely :
      (e : Queued) (w : Game) → Safe (e ∷ []) w → Safely (λ u w'. Safe [] w') (execute host e w)
  unfolding execute execute_connect execute_disconnect execute_listen execute_incoming
      execute_receive execute_error socket_of
  execute-Safely (connected e) w s =
      with_callback-Safely host e.socket CallbackEvent.connect _ w (Safe [])
        (Safe-drop (connected e) w refl s)
        (λ b f cookie. Safe-drop (connected e) _ refl (run-Safely f _ (connected e ∷ []) w s))
  execute-Safely (listening e) w s =
      with_callback-Safely host e.socket CallbackEvent.listen _ w (Safe [])
        (Safe-drop (listening e) w refl s)
        (λ b f cookie. Safe-drop (listening e) _ refl (run-Safely f _ (listening e ∷ []) w s))
  execute-Safely (accepted e) w s =
      with_callback-Safely host e.socket CallbackEvent.incoming _ w (Safe [])
        (Safe-drop (accepted e) w refl s)
        (λ b f cookie. incoming-Safely (accepted e) f (incoming_args host b e cookie) w refl s)
  execute-Safely (disconnected e) w s =
      with_callback-Safely host e.socket CallbackEvent.disconnect _ w (Safe [])
        (Safe-drop (disconnected e) w refl s)
        (λ b f cookie.
          auto_free-Safely (disconnected e) _ _ refl (run-Safely f _ (disconnected e ∷ []) w s))
  execute-Safely (failed e) w s =
      with_callback-Safely host e.socket CallbackEvent.error _ w (Safe [])
        (Safe-drop (failed e) w refl s)
        (λ b f cookie. auto_free-Safely (failed e) _ _ refl (run-Safely f _ (failed e ∷ []) w s))
  execute-Safely (received e) w s =
      Safely-bind (λ u w'. Safe (received e ∷ []) w') (λ u w'. Safe [] w') _
        (λ u. free_block host e.block)
        (with_callback-Safely host e.socket CallbackEvent.receive _ w (Safe (received e ∷ [])) s
          (λ b f cookie.
            load_block-Safely e w (λ u w'. Safe (received e ∷ []) w') _ s
              (λ bytes. run-Safely f _ (received e ∷ []) w s)))
        (λ u w' kept. free_block-Safely e w' kept)
