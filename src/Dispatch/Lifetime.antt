-- ===== src/Dispatch/Lifetime.antt =====
-- src/impl/core/CallbackManager.cpp: what the `Execute` methods do about a socket that was deleted
-- after its event was put in a queue.
use sm_ext_socket.Base.{ℕ, ap, ◌∙◌, arith, ◌≡◌, false, none, some, ◌==◌}
use sm_ext_socket.Base.Int.{ℤ}
use sm_ext_socket.SocketBase.{SocketBase}
use sm_ext_socket.SocketTypes.{CallbackEvent}
use sm_ext_socket.CallbackManager.{DisconnectEvent}
use sm_ext_socket.Dispatch.{
  Game, Host, M, fault, bad_block, returned, exhausted, is_socket_valid, with_callback, execute,
  socket_of, execute_connect, execute_disconnect, execute_listen, execute_incoming, execute_receive,
  execute_error, Invocation, auto_free, free_block, Queued, connected, disconnected, listening,
  accepted, received, failed,
}

module _ (host : Host) where
  with_callback-none :
      (p : ℕ) (event : CallbackEvent) (body : SocketBase → ℕ → ℤ → M (Unit {0})) (w : Game)
      → (p == 0) ≡ false
      → w.sockets p ≡ none
      → with_callback host p event body w ≡ fault
  unfolding with_callback is_socket_valid
  with_callback-none p event body w null gone = ground arith

  -- An event of any of the six kinds whose socket is not null and was deleted before the event is
  -- executed makes the game thread read freed memory.
  pub execute-freed :
      (e : Queued) (w : Game)
      → (socket_of e == 0) ≡ false
      → w.sockets (socket_of e) ≡ none
      → execute host e w ≡ fault
  unfolding execute socket_of execute_connect execute_disconnect execute_listen execute_incoming
      execute_receive execute_error is_socket_valid
  execute-freed (connected e) w null gone = with_callback-none _ _ _ w null gone
  execute-freed (disconnected e) w null gone = with_callback-none _ _ _ w null gone
  execute-freed (listening e) w null gone = with_callback-none _ _ _ w null gone
  execute-freed (accepted e) w null gone = with_callback-none _ _ _ w null gone
  execute-freed (received e) w null gone =
      ap
        (λ r. elim r [
          | returned a w' ↦ free_block host e.block w'
          | fault ↦ fault
          | bad_block ↦ bad_block
          | exhausted ↦ exhausted
        ])
        (with_callback-none _ _ _ w null gone)
  execute-freed (failed e) w null gone = with_callback-none _ _ _ w null gone

  with_callback-set :
      (p : ℕ) (event : CallbackEvent) (body : SocketBase → ℕ → ℤ → M (Unit {0})) (w : Game)
      → (s : SocketBase) (f : ℕ) → (p == 0) ≡ false
      → w.sockets p ≡ some s
      → s.deleted ≡ false
      → (s.callbacks event).function ≡ some f
      → with_callback host p event body w ≡ body s f (s.callbacks event).cookie w
  unfolding with_callback is_socket_valid
  with_callback-set p event body w s f null there live set = ground arith

  auto_free-none :
      (p : ℕ) (event : CallbackEvent) (w : Game)
      → w.sockets p ≡ none
      → auto_free host p event w ≡ fault
  unfolding auto_free
  auto_free-none p event w gone = ground arith

  -- The callback of a disconnect event that deletes the event's socket, as a plugin's `delete` of
  -- its handle does, makes the game thread read freed memory when the callback is over.
  pub execute_disconnect-delete :
      (e : DisconnectEvent) (w : Game) (s : SocketBase) (f : ℕ)
      → (e.socket == 0) ≡ false
      → w.sockets e.socket ≡ some s
      → s.deleted ≡ false
      → (s.callbacks CallbackEvent.disconnect).function ≡ some f
      → ((i : Invocation) (w' : Game) → (host.execute i w').sockets e.socket ≡ none)
      → execute_disconnect host e w ≡ fault
  unfolding execute_disconnect
  execute_disconnect-delete e w s f null there live set gone =
      with_callback-set _ _ _ w s f null there live set ∙ auto_free-none e.socket _ _ (gone _ w)
