-- ===== src/Dispatch.antt =====
-- The game thread's half of src/impl/core/CallbackManager.cpp: `IsSocketValid` and the six `Execute`
-- methods. The host (SourceMod, and through it the plugins) is a parameter. A read of a
-- socket or a function that is not there is a `fault`, the use of a block that is not there, or of a raw
-- slot, a `bad_block`.
pub mod Lifetime
pub mod Destroyed
pub mod Delivery
pub mod Turns
pub mod Ensures
pub mod Safety
pub mod Frame
use sm_ext_socket.Base.{
  ℕ, zero, suc, ◌+◌, Bool, true, false, not, ◌&&◌, ◌||◌, Option, none, some, List, [], ◌∷◌, ◌==◌,
  if◌then◌else◌, take,
}
use sm_ext_socket.Base.Int.{ℤ, pos, pos_part, nonzero, ltb_ℤ}
use sm_ext_socket.SocketTypes.{
  CallbackEvent, SocketError, GlobalOptions, get_global, callbacks_per_frame, auto_free_handle,
}
use sm_ext_socket.SocketBase.{SocketBase, get_option}
use sm_ext_socket.CallbackManager.{
  ConnectEvent, DataEvent, ErrorEvent, DisconnectEvent, ListenEvent, IncomingEvent, free,
  CallbackManager,
}

-- What a plugin's function is called with.
pub data Arg : Type 0 where
  cell : ℤ → Arg
  text : List ℕ → Arg

pub record Invocation : Type 0 where
  pub function : ℕ
  pub args : List Arg

-- The heap of sockets, by address: `none` is no object, or one that was deleted.
pub record Game : Type 0 where
  pub sockets : ℕ → Option SocketBase
  pub events : CallbackManager
  pub options : GlobalOptions

-- A call of a plugin's function may do anything that the natives allow, so may the others.
pub record Host : Type 0 where
  pub execute : Invocation → Game → Game
  pub create_handle : ℕ → Game → ℤ × Game
  pub free_handle : ℤ → Game → Game

pub data Outcome (A : Type 0) : Type 0 where
  returned : A → Game → Outcome A
  fault : Outcome A
  bad_block : Outcome A
  exhausted : Outcome A

abbrev pub M : Type 0 → Type 0
M A = Game → Outcome A

abbrev pub pure : {A : Type 0} → A → M A
pure a w = returned a w

infixl 5 ◌>>=◌ ◌>>◌
abbrev pub ◌>>=◌ : {A B : Type 0} → M A → (A → M B) → M B
◌>>=◌ m f w = elim (m w) [
  | returned a w' ↦ f a w'
  | fault ↦ fault
  | bad_block ↦ bad_block
  | exhausted ↦ exhausted
]

abbrev pub ◌>>◌ : {B : Type 0} → M (Unit {0}) → M B → M B
m >> k = m >>= λ _. k

abbrev pub deref : ℕ → M SocketBase
deref p w = elim (w.sockets p) [ none ↦ fault | some s ↦ returned s w ]

unfoldable pub is_socket_valid : ℕ → M Bool
is_socket_valid p = if p == 0 then pure false else (do s ← deref p; pure (not s.deleted))

module _ (host : Host) where
  abbrev pub run : ℕ → List Arg → M (Unit {0})
  run f args w = returned tt (host.execute (record { function = f; args = args }) w)

  -- The callback of a live socket, if it is set, with the socket as it is now.
  unfoldable pub with_callback :
      ℕ → CallbackEvent → (SocketBase → ℕ → ℤ → M (Unit {0})) → M (Unit {0})
  with_callback p event body = do
    valid ← is_socket_valid p
    if valid
        then (do
          s ← deref p
          elim (s.callbacks event).function [
            | none ↦ pure tt
            | some f ↦ body s f (s.callbacks event).cookie
          ])
        else pure tt

  -- After the call the socket is read again, and so is the function of the callback, whose plugin
  -- frees the handle: if the call has cleared it, a null pointer is read.
  unfoldable pub auto_free : ℕ → CallbackEvent → M (Unit {0})
  auto_free p event = do
    s ← deref p
    if nonzero (get_option s auto_free_handle) && nonzero s.sm_handle
        then (elim (s.callbacks event).function [
          | none ↦ λ w. fault
          | some f ↦ λ w. returned tt (host.free_handle s.sm_handle w)
        ])
        else pure tt

  unfoldable pub execute_connect : ConnectEvent → M (Unit {0})
  execute_connect e =
      with_callback e.socket CallbackEvent.connect
        λ s f cookie. run f (cell s.sm_handle ∷ cell cookie ∷ [])

  unfoldable pub execute_disconnect : DisconnectEvent → M (Unit {0})
  execute_disconnect e = with_callback e.socket CallbackEvent.disconnect λ s f cookie.
      run f (cell s.sm_handle ∷ cell cookie ∷ []) >> auto_free e.socket CallbackEvent.disconnect

  unfoldable pub execute_listen : ListenEvent → M (Unit {0})
  execute_listen e = with_callback e.socket CallbackEvent.listen λ s f cookie. run f (
      cell s.sm_handle
      ∷ text e.local_endpoint.address
      ∷ cell (pos e.local_endpoint.port)
      ∷ cell cookie
      ∷ [])

  -- The new socket gets its handle; it is written to, so it must be there.
  abbrev pub set_handle : ℕ → ℤ → M (Unit {0})
  set_handle p handle = do
    s ← deref p
    λ w. returned tt (record w {
      sockets = λ q. if p == q then some (record s { sm_handle = handle }) else w.sockets q;
    })

  abbrev pub incoming_args : SocketBase → IncomingEvent → (cookie handle : ℤ) → List Arg
  incoming_args s e cookie handle =
      cell s.sm_handle
      ∷ cell handle
      ∷ text e.remote_endpoint.address
      ∷ cell (pos e.remote_endpoint.port)
      ∷ cell cookie
      ∷ []

  -- The new socket is looked at after the callback, not before; both tests only give up.
  unfoldable pub execute_incoming : IncomingEvent → M (Unit {0})
  execute_incoming e = with_callback e.socket CallbackEvent.incoming λ s f cookie w.
      let (handle, w1) = host.create_handle e.new_socket w in
      if e.new_socket == 0
      then returned tt w
      else (set_handle e.new_socket handle >> run f (incoming_args s e cookie handle)) w1

  abbrev pub load_block : ℕ → M (List ℕ)
  load_block p w = elim (w.events.memory.blocks p) [ none ↦ bad_block | some b ↦ returned b w ]

  unfoldable pub free_block : ℕ → M (Unit {0})
  free_block p w = elim (free w.events.memory p) [
    | none ↦ bad_block
    | some h ↦ returned tt (record w { events = record w.events { memory = h } })
  ]

  -- The block is freed whether or not there was anybody to call.
  unfoldable pub execute_receive : DataEvent → M (Unit {0})
  execute_receive e =
      with_callback e.socket CallbackEvent.receive (λ s f cookie. do
        bytes ← load_block e.block
        run f (
            cell s.sm_handle
            ∷ text (take (e.length + 1) bytes)
            ∷ cell (pos e.length)
            ∷ text e.sender.address
            ∷ cell (pos e.sender.port)
            ∷ cell cookie
            ∷ []))
      >> free_block e.block

  -- The enumerators' values.
  abbrev pub error_code : SocketError → ℤ
  error_code SocketError.no_error = pos 0
  error_code SocketError.empty_host = pos 1
  error_code SocketError.no_host = pos 2
  error_code SocketError.connect_error = pos 3
  error_code SocketError.send_error = pos 4
  error_code SocketError.bind_error = pos 5
  error_code SocketError.recv_error = pos 6
  error_code SocketError.listen_error = pos 7

  unfoldable pub execute_error : ErrorEvent → M (Unit {0})
  execute_error e = with_callback e.socket CallbackEvent.error λ s f cookie.
      run f
        (cell s.sm_handle ∷ cell (error_code e.error_type) ∷ text e.error_msg ∷ cell cookie ∷ [])
      >> auto_free e.socket CallbackEvent.error

-- An event that was taken from its queue.
pub data Queued : Type 0 where
  connected : ConnectEvent → Queued
  disconnected : DisconnectEvent → Queued
  listening : ListenEvent → Queued
  accepted : IncomingEvent → Queued
  received : DataEvent → Queued
  failed : ErrorEvent → Queued

unfoldable pub execute : Host → Queued → M (Unit {0})
execute host (connected e) = execute_connect host e
execute host (disconnected e) = execute_disconnect host e
execute host (listening e) = execute_listen host e
execute host (accepted e) = execute_incoming host e
execute host (received e) = execute_receive host e
execute host (failed e) = execute_error host e

unfoldable pub socket_of : Queued → ℕ
socket_of (connected e) = e.socket
socket_of (disconnected e) = e.socket
socket_of (listening e) = e.socket
socket_of (accepted e) = e.socket
socket_of (received e) = e.socket
socket_of (failed e) = e.socket
