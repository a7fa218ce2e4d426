-- ===== src/CallbackManager.antt =====
-- src/include/lockfree/QueueTypes.h, src/include/core/CallbackManager.h and the enqueueing half of
-- src/impl/core/CallbackManager.cpp: six event queues from the libuv thread to the game thread, and the
-- heap blocks that the data events own. A socket is its address; 0 is the null pointer.
pub mod Contents
pub mod Enqueue
pub mod Buffers
pub mod Pending
use sm_ext_socket.Base.{
  ℕ, ◌+◌, Bool, true, false, not, ◌||◌, Option, none, some, List, [], ◌∷◌, ◌++◌, ◌==◌,
  if◌then◌else◌, length,
}
use sm_ext_socket.Base.Int.{ℤ, nonzero}
use sm_ext_socket.SocketTypes.{
  SocketError, RemoteEndpoint, no_endpoint, GlobalOptions, get_global, debug_mode,
}
use sm_ext_socket.Spsc.{Spsc, new, try_enqueue, empty}

pub record ConnectEvent : Type 0 where
  pub socket : ℕ
  pub remote_endpoint : RemoteEndpoint

-- `block` is the address of a heap block of `length` bytes and one more.
pub record DataEvent : Type 0 where
  pub socket : ℕ
  pub block : ℕ
  pub length : ℕ
  pub sender : RemoteEndpoint

pub record ErrorEvent : Type 0 where
  pub socket : ℕ
  pub error_type : SocketError
  pub error_msg : List ℕ

pub record DisconnectEvent : Type 0 where
  pub socket : ℕ

pub record ListenEvent : Type 0 where
  pub socket : ℕ
  pub local_endpoint : RemoteEndpoint

pub record IncomingEvent : Type 0 where
  pub socket : ℕ
  pub new_socket : ℕ
  pub remote_endpoint : RemoteEndpoint

-- The heap as far as received data goes: a block is its bytes. Addresses are not used again.
pub record Memory : Type 0 where
  pub next : ℕ
  pub blocks : ℕ → Option (List ℕ)

unfoldable pub allocate : Memory → List ℕ → ℕ × Memory
allocate m bytes = (
  m.next,
  record { next = m.next + 1; blocks = λ p. if m.next == p then some bytes else m.blocks p },
)

-- `none` is a second `free`, or one of a pointer that is no block.
unfoldable pub free : Memory → ℕ → Option Memory
free m p = elim (m.blocks p) [
  | none ↦ none
  | some bytes ↦ some (record m { blocks = λ q. if p == q then none else m.blocks q })
]

-- The messages of `LogError`.
pub data Message : Type 0 where
  connect_queue_full disconnect_queue_full listen_queue_full incoming_queue_full : Message
  data_queue_full error_queue_full no_memory : Message

pub record CallbackManager : Type 0 where
  pub connect_queue : Spsc ConnectEvent
  pub disconnect_queue : Spsc DisconnectEvent
  pub listen_queue : Spsc ListenEvent
  pub incoming_queue : Spsc IncomingEvent
  pub data_queue : Spsc DataEvent
  pub error_queue : Spsc ErrorEvent
  pub memory : Memory
  pub log : List Message

unfoldable pub new_manager : CallbackManager
new_manager = record {
  connect_queue = new 256;
  disconnect_queue = new 256;
  listen_queue = new 64;
  incoming_queue = new 256;
  data_queue = new 1024;
  error_queue = new 256;
  memory = record { next = 1; blocks = λ _. none };
  log = [];
}

-- `free(dataCopy)` of the block just made cannot fault: it is taken out again.
unfoldable pub release_block : ℕ → CallbackManager → CallbackManager
release_block p m = elim (free m.memory p) [ none ↦ m | some h ↦ record m { memory = h } ]

module _ (g : GlobalOptions) where
  -- A message is logged in debug mode only.
  unfoldable pub log_error : Message → CallbackManager → CallbackManager
  log_error message m =
      if nonzero (get_global g debug_mode) then record m { log = m.log ++ message ∷ [] } else m

  unfoldable pub enqueue_connect : ℕ → RemoteEndpoint → CallbackManager → CallbackManager
  enqueue_connect socket endpoint m =
      let (q, queued) =
        try_enqueue m.connect_queue (record { socket = socket; remote_endpoint = endpoint }) in
      let m' = record m { connect_queue = q } in
      if queued then m' else log_error connect_queue_full m'

  unfoldable pub enqueue_disconnect : ℕ → CallbackManager → CallbackManager
  enqueue_disconnect socket m =
      let (q, queued) = try_enqueue m.disconnect_queue (record { socket = socket }) in
      let m' = record m { disconnect_queue = q } in
      if queued then m' else log_error disconnect_queue_full m'

  unfoldable pub enqueue_listen : ℕ → RemoteEndpoint → CallbackManager → CallbackManager
  enqueue_listen socket endpoint m =
      let (q, queued) =
        try_enqueue m.listen_queue (record { socket = socket; local_endpoint = endpoint }) in
      let m' = record m { listen_queue = q } in
      if queued then m' else log_error listen_queue_full m'

  unfoldable pub enqueue_incoming : ℕ → ℕ → RemoteEndpoint → CallbackManager → CallbackManager
  enqueue_incoming socket new_socket endpoint m =
      let (q, queued) =
        try_enqueue m.incoming_queue
          (record { socket = socket; new_socket = new_socket; remote_endpoint = endpoint }) in
      let m' = record m { incoming_queue = q } in
      if queued then m' else log_error incoming_queue_full m'

  -- `available` is whether `malloc` succeeds. The block ends with a zero byte.
  unfoldable pub enqueue_receive :
      (available : Bool) → ℕ → List ℕ → RemoteEndpoint → CallbackManager → CallbackManager
  unfolding release_block
  enqueue_receive false socket bytes sender m = log_error no_memory m
  enqueue_receive true socket bytes sender m =
      let (p, h) = allocate m.memory (bytes ++ 0 ∷ []) in
      let (q, queued) =
        try_enqueue m.data_queue
          (record { socket = socket; block = p; length = length bytes; sender = sender }) in
      let m' = record m { memory = h; data_queue = q } in
      if queued then m' else log_error data_queue_full (release_block p m')

  -- The overload with no sender.
  unfoldable pub enqueue_receive_stream :
      (available : Bool) → ℕ → List ℕ → CallbackManager → CallbackManager
  unfolding enqueue_receive
  enqueue_receive_stream available socket bytes m =
      enqueue_receive available socket bytes no_endpoint m

  unfoldable pub enqueue_error : ℕ → SocketError → List ℕ → CallbackManager → CallbackManager
  enqueue_error socket error_type error_msg m =
      let (q, queued) =
        try_enqueue m.error_queue
          (record { socket = socket; error_type = error_type; error_msg = error_msg }) in
      let m' = record m { error_queue = q } in if queued then m' else log_error error_queue_full m'

unfoldable pub has_pending_callbacks : CallbackManager → Bool
has_pending_callbacks m =
    not (empty m.connect_queue)
    || not (empty m.disconnect_queue)
    || not (empty m.listen_queue)
    || not (empty m.incoming_queue)
    || not (empty m.data_queue)
    || not (empty m.error_queue)
