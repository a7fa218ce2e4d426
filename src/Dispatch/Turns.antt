-- ===== src/Dispatch/Turns.antt =====
-- The two threads at the queues of src/impl/core/CallbackManager.cpp: the libuv thread enqueues events,
-- between frames and while a callback runs, and the game thread runs its frames, makes sockets and
-- deletes them.
pub mod Frames
use sm_ext_socket.Base.{
  ℕ, ◌≡◌, ◌≢◌, ◌≤◌, ◌<◌, refl, sym, subst, ◌∙◌, ◌⊎◌, inl, inr, Bool, true, false, ◌==◌, Option,
  none, some, List, [], ◌∷◌, ◌++◌, All, length, if◌then◌else◌, Bool-cases, arith,
}
use sm_ext_socket.Base.Int.{pos_part}
use sm_ext_socket.SocketTypes.{RemoteEndpoint, GlobalOptions, get_global, callbacks_per_frame}
use sm_ext_socket.SocketBase.{SocketBase}
use sm_ext_socket.CallbackManager.{new_manager, enqueue_receive}
use sm_ext_socket.CallbackManager.Enqueue.{Event, enqueue}
use sm_ext_socket.Dispatch.{Game, Host, Queued, returned, socket_of}
use sm_ext_socket.Dispatch.Frame.{
  Kind, connects, listens, incomings, receives, disconnects, errors, Progress,
  process_pending_callbacks,
}

-- What the libuv thread enqueues: an event, or bytes that were read, whose copy may find no memory.
pub data Arrival : Type 0 where
  event : Event → Arrival
  bytes : (available : Bool) → ℕ → List ℕ → RemoteEndpoint → Arrival

abbrev pub arrive : Arrival → Game → Game
arrive (event e) w = record w { events = enqueue w.options e w.events }
arrive (bytes available p text sender) w = record w {
  events = enqueue_receive w.options available p text sender w.events;
}

abbrev pub arrive_all : List Arrival → Game → Game
arrive_all [] w = w
arrive_all (a ∷ as_list) w = arrive_all as_list (arrive a w)

-- The host whose functions take their time, in which the libuv thread enqueues these.
abbrev pub with_arrivals : Host → (Game → List Arrival) → Host
with_arrivals host arrivals = record {
  execute = λ i w. let w1 = host.execute i w in arrive_all (arrivals w1) w1;
  create_handle = λ p w. let (h, w1) = host.create_handle p w in (h, arrive_all (arrivals w1) w1);
  free_handle = λ h w. let w1 = host.free_handle h w in arrive_all (arrivals w1) w1;
}

abbrev pub put : ℕ → SocketBase → (ℕ → Option SocketBase) → ℕ → Option SocketBase
put p b sockets q = if p == q then some b else sockets q

abbrev pub clear : ℕ → (ℕ → Option SocketBase) → ℕ → Option SocketBase
clear p sockets q = if p == q then none else sockets q

-- A step of either thread, from a state to a state.
pub data Turn (host : Host) (w w' : Game) : Type 0 where
  arrives : (a : Arrival) → w' ≡ arrive a w → Turn host w w'
  makes : (p : ℕ) (b : SocketBase) → w' ≡ record w { sockets = put p b w.sockets } → Turn host w w'
  deletes : (p : ℕ) → w' ≡ record w { sockets = clear p w.sockets } → Turn host w w'
  frames : (p : Progress) → process_pending_callbacks host w ≡ returned p w' → Turn host w w'

abbrev pub start : GlobalOptions → Game
start g = record { sockets = λ p. none; events = new_manager; options = g }

pub data Reach (host : Host) : Game → Type 0 where
  new : (g : GlobalOptions) → Reach host (start g)
  next : {v w : Game} → Reach host v → Turn host v w → Reach host w
