-- ===== src/Dispatch/Delivery.antt =====
-- Received data on its way from libuv to a plugin: a read handler of src/impl/socket, the data queue, and
-- `ExecuteReceive` of src/impl/core/CallbackManager.cpp.
use sm_ext_socket.Base.{
  ℕ, suc, ◌+◌, ◌<◌, ◌≡◌, ◌≢◌, refl, sym, ap, subst, ◌∙◌, Bool, true, false, ◌==◌, Option, none,
  some, List, [], ◌∷◌, ◌++◌, length, take, ltb, arith,
}
use sm_ext_socket.Base.Int.{pos}
use sm_ext_socket.SocketTypes.{CallbackEvent, RemoteEndpoint, no_endpoint, GlobalOptions}
use sm_ext_socket.SocketBase.{SocketBase}
use sm_ext_socket.CallbackManager.{DataEvent, enqueue_receive, enqueue_receive_stream}
use sm_ext_socket.CallbackManager.Contents.{Waiting, Holds}
use sm_ext_socket.CallbackManager.Buffers.{HasBlock, Owned}
use sm_ext_socket.CallbackManager.Buffers.Receive.{
  data_event, enqueue_receive-Owned, enqueue_receive-block,
}
use sm_ext_socket.Uv.{Address, Uv, endpoint_of}
use sm_ext_socket.Tcp
use sm_ext_socket.Tcp.Stream
use sm_ext_socket.Udp
use sm_ext_socket.Udp.Datagrams
use sm_ext_socket.Unix
use sm_ext_socket.Natives.Sockets.{Socket, tcp_socket, udp_socket, unix_socket}
use sm_ext_socket.Natives.Sockets.Sending.{events_of, self_of}
use sm_ext_socket.Dispatch.{
  Invocation, cell, text, Game, Host, is_socket_valid, with_callback, free_block, execute_receive,
  received, execute,
}

-- What the receive callback of a socket is to be called with.
abbrev pub receive_call : SocketBase → ℕ → List ℕ → RemoteEndpoint → Invocation
receive_call b f bytes sender = record {
  function = f;
  args =
      cell b.sm_handle
      ∷ text (bytes ++ 0 ∷ [])
      ∷ cell (pos (length bytes))
      ∷ text sender.address
      ∷ cell (pos sender.port)
      ∷ cell (b.callbacks CallbackEvent.receive).cookie
      ∷ [];
}

take-all : {A : Type 0} (xs : List A) (x : A) → take (length xs + 1) (xs ++ x ∷ []) ≡ xs ++ x ∷ []
take-all {A} xs x =
    let more : length xs + 1 ≡ suc (length xs) = omega arith in
    ap (λ n. take n (xs ++ x ∷ [])) more ∙ all xs
  where
    all : (ys : List A) → take (suc (length ys)) (ys ++ x ∷ []) ≡ ys ++ x ∷ []
    all [] = refl
    all (y ∷ ys) = ap (λ l. y ∷ l) (all ys)

execute_receive-call :
    (host : Host) (e : DataEvent) (w : Game) (b : SocketBase) (f : ℕ) (bytes : List ℕ)
    → e.socket ≢ 0
    → w.sockets e.socket ≡ some b
    → b.deleted ≡ false
    → (b.callbacks CallbackEvent.receive).function ≡ some f
    → HasBlock w.events.memory e bytes
    → execute host (received e) w
      ≡ free_block host e.block (host.execute (receive_call b f bytes e.sender) w)
unfolding execute execute_receive with_callback is_socket_valid
execute_receive-call host e w b f bytes set there live served block =
    let nonzero_address : (e.socket == 0) ≡ false = ground (arith, set) in
    ground
      (arith, nonzero_address, there, live, served, block.there, block.counted, take-all bytes 0)

module _ (uv : Uv) (g : GlobalOptions) where
  -- The handler for a read of these bytes, if their copy finds memory.
  abbrev pub arrive : Option Address → List ℕ → Socket → Socket
  arrive a bytes (tcp_socket w) =
      tcp_socket (Tcp.Stream.on_read uv g true (Tcp.Stream.bytes bytes) w)
  arrive a bytes (udp_socket w) =
      udp_socket (Udp.Datagrams.on_recv uv g true (Udp.Datagrams.datagram bytes a) w)
  arrive a bytes (unix_socket w) = unix_socket (Unix.on_read uv g true (Unix.bytes bytes) w)

  -- The peer of a connection, if it is known, and the sender of a datagram.
  abbrev pub sender_of : Option Address → Socket → RemoteEndpoint
  sender_of a (tcp_socket w) = elim w.own.remote_endpoint [ none ↦ no_endpoint | some e ↦ e ]
  sender_of a (udp_socket w) = endpoint_of uv a
  sender_of a (unix_socket w) = no_endpoint

  abbrev pub is_deleted : Socket → Bool
  is_deleted (tcp_socket w) = w.base.deleted
  is_deleted (udp_socket w) = w.base.deleted
  is_deleted (unix_socket w) = w.base.deleted

  abbrev pub arrived : Option Address → List ℕ → Socket → DataEvent
  arrived a bytes s = data_event (self_of s) bytes (sender_of a s) (events_of s).memory

  arrive-enqueue_receive :
      (a : Option Address) (bytes : List ℕ) (s : Socket)
      → is_deleted s ≡ false
      → events_of (arrive a bytes s)
        ≡ enqueue_receive g true (self_of s) bytes (sender_of a s) (events_of s)
  unfolding Tcp.Stream.on_read Udp.Datagrams.on_recv Unix.on_read enqueue_receive_stream
  arrive-enqueue_receive a bytes (tcp_socket w) live = ground (arith, live)
  arrive-enqueue_receive a bytes (udp_socket w) live = ground (arith, live)
  arrive-enqueue_receive a bytes (unix_socket w) live = ground (arith, live)

  -- Bytes that are read on a live socket, while fewer than 1023 data events wait and a copy finds memory,
  -- get an event behind the others, with a block of its own. When the game thread executes that event,
  -- with the block still in place and the socket live by then too, it calls the socket's receive callback
  -- with exactly those bytes, their number and their sender, and then frees the block.
  pub execute-arrive :
      (host : Host) (a : Option Address) (bytes : List ℕ) (s : Socket) (x : Waiting) (w : Game)
      (b : SocketBase) (f : ℕ)
      → is_deleted s ≡ false
      → Holds (events_of s) x
      → Owned (events_of s).memory x.receives
      → length x.receives < 1023
      → w.events.memory.blocks (arrived a bytes s).block
        ≡ (events_of (arrive a bytes s)).memory.blocks (arrived a bytes s).block
      → self_of s ≢ 0
      → w.sockets (self_of s) ≡ some b
      → b.deleted ≡ false
      → (b.callbacks CallbackEvent.receive).function ≡ some f
      → let e = arrived a bytes s in
        let m = events_of (arrive a bytes s) in
        Holds m (record x { receives = x.receives ++ e ∷ [] })
        × Owned m.memory (x.receives ++ e ∷ [])
        × (execute host (received e) w
            ≡ free_block host e.block (host.execute (receive_call b f bytes (sender_of a s)) w))
  execute-arrive host a bytes s x w b f live holds owned room kept set there there_live served =
      let e = arrived a bytes s in
      let fits : ltb (length x.receives) 1023 ≡ true = ground (arith, room) in
      let (owned', holds', _) =
        enqueue_receive-Owned g (self_of s) bytes (sender_of a s) (events_of s) x holds owned in
      let same = arrive-enqueue_receive a bytes s live in
      let in_block : (events_of (arrive a bytes s)).memory.blocks e.block ≡ some (bytes ++ 0 ∷ []) =
        ap (λ m. m.memory.blocks e.block) same
        ∙ enqueue_receive-block g (self_of s) bytes (sender_of a s) (events_of s) x holds fits in
      (
        subst (λ m. Holds m (record x { receives = x.receives ++ e ∷ [] })) (sym same)
            (rw fits at holds'),
        subst (λ m. Owned m.memory (x.receives ++ e ∷ [])) (sym same) (rw fits at owned'),
        execute_receive-call host e w b f bytes set there there_live served
            (record { there = kept ∙ in_block; counted = refl }),
      )
