-- ===== src/Unix.antt =====
-- src/include/socket/UnixSocket.h and src/impl/socket/UnixSocket.cpp: sockets of the Unix domain, over
-- libuv's pipes. A path is its bytes.
pub mod Listening
pub mod Closing
pub mod Paths
use sm_ext_socket.Base.{
  ℕ, ◌+◌, ◌-◌, Bool, true, false, not, ◌&&◌, ◌||◌, Option, none, some, List, [], ◌∷◌, ◌++◌, length,
  ◌==◌, if◌then◌else◌,
}
use sm_ext_socket.Base.Int.{ℤ, pos, nonzero, eqb_ℤ, ltb_ℤ}
use sm_ext_socket.SocketTypes.{SocketError, SocketOption, RemoteEndpoint, GlobalOptions}
use sm_ext_socket.SocketBase.{store_option, destroy_base}
use sm_ext_socket.CallbackManager.{
  enqueue_connect, enqueue_disconnect, enqueue_listen, enqueue_incoming, enqueue_receive_stream,
}
use sm_ext_socket.Uv
use sm_ext_socket.Uv.{
  pipe_init, pipe_bind, pipe_connect, close, read_start, read_stop, listen_on, accept, write, Uv,
  do_call, code_of, set_own, new_context, delete_context, report, post_job, close_once, Buffer,
  HandleHeap, pipe_handle, on_close_of,
}

pub record UnixSocket : Type 0 where
  pub pipe : Option ℕ
  pub acceptor : Option ℕ
  pub path : List ℕ

unfoldable pub new_unix : UnixSocket
new_unix = record { pipe = none; acceptor = none; path = [] }

-- The functions that the game thread posts, with what they capture. The path is not captured: each
-- job reads it when it runs.
pub data Job : Type 0 where
  start_connecting : Job
  close_pipe : ℕ → Job
  close_acceptor : ℕ → Job
  start_listening : Job
  send_bytes : List ℕ → Job

abbrev pub World : Type 0
World = Uv.World UnixSocket Job

abbrev pub path_endpoint : List ℕ → RemoteEndpoint
path_endpoint path = record { address = path; port = 0 }

-- What `OnRead` is called with: the bytes read, at least one, or none, or an error code.
pub data Read : Type 0 where
  bytes : List ℕ → Read
  again : Read
  failure : ℤ → Read

module _ (uv : Uv) (g : GlobalOptions) where
  -- `InitPipe` makes a pipe. If the socket has one already, the new one is closed.
  unfoldable pub init_pipe : World → World
  init_pipe w =
      let h = w.next in
      let w1 = do_call uv g (pipe_init h) (record w { next = w.next + 1 }) in
      elim w1.own.pipe [
        | some old ↦ do_call uv g (close h) w1
        | none ↦ set_own uv g (record w1.own { pipe = some h }) w1
      ]

  unfoldable pub is_open : World → Bool
  is_open w = elim w.own.pipe [
    | some h ↦ true
    | none ↦ elim w.own.acceptor [ none ↦ false | some a ↦ true ]
  ]

  -- The port is not used.
  unfoldable pub bind : List ℕ → World → World × Bool
  bind path w =
      if length w.own.path == 0
      then (set_own uv g (record w.own { path = path }) w, true)
      else (w, true)

  unfoldable pub connect : List ℕ → World → World × Bool
  connect path w =
      (post_job uv g start_connecting (set_own uv g (record w.own { path = path }) w), true)

  -- The job of `Connect`. The request of `uv_pipe_connect` is deleted by `OnConnect`.
  unfoldable pub run_connect : World → World
  run_connect w =
      if w.base.deleted
      then w
      else (let w1 : World = elim w.own.pipe [ none ↦ init_pipe w | some h ↦ w ] in
          elim w1.own.pipe [
            | none ↦ w1
            | some h ↦ do_call uv g (pipe_connect h w1.own.path) (new_context uv g w1)
          ])

  unfoldable pub start_reading : World → World
  start_reading w = elim w.own.pipe [ none ↦ w | some h ↦ do_call uv g (read_start h) w ]

  unfoldable pub on_connect : ℤ → World → World
  on_connect status w0 =
      let w = delete_context uv g w0 in
      if w.base.deleted
      then w
      else if nonzero status
      then report uv g SocketError.connect_error (uv.strerror status) w
      else start_reading
          (record w { events = enqueue_connect g w.self (path_endpoint w.own.path) w.events })

  -- `Disconnect` takes both handles off the socket and posts a job for each. `CloseReset` is the same.
  unfoldable pub disconnect : World → World × Bool
  disconnect w =
      let w1 = set_own uv g (record w.own { pipe = none; acceptor = none }) w in
      let w2 : World = elim w.own.pipe [ none ↦ w1 | some h ↦ post_job uv g (close_pipe h) w1 ] in
      (elim w.own.acceptor [ none ↦ w2 | some a ↦ post_job uv g (close_acceptor a) w2 ], true)

  unfoldable pub run_close_pipe : ℕ → World → World
  run_close_pipe h w =
      if uv.is_closing w.calls h then w else do_call uv g (close h) (do_call uv g (read_stop h) w)

  unfoldable pub listen : World → World × Bool
  listen w = if length w.own.path == 0 then (w, false) else (post_job uv g start_listening w, true)

  -- The end of the job of `Listen` that failed: the acceptor is taken off the socket and closed.
  unfoldable pub give_up : SocketError → ℤ → ℕ → World → World
  give_up error code h w =
      let w1 = report uv g error (uv.strerror code) w in
      do_call uv g (close h) (set_own uv g (record w1.own { acceptor = none }) w1)

  unfoldable pub bind_acceptor : ℕ → World → World
  bind_acceptor h w =
      let bound = code_of uv g (pipe_bind h w.own.path) w in
      let w1 = do_call uv g (pipe_bind h w.own.path) w in
      let listening = code_of uv g (listen_on h 128) w1 in
      let w2 = do_call uv g (listen_on h 128) w1 in
      if nonzero bound
      then give_up SocketError.bind_error bound h w1
      else if nonzero listening
      then give_up SocketError.listen_error listening h w2
      else record w2 { events = enqueue_listen g w2.self (path_endpoint w2.own.path) w2.events }

  unfoldable pub run_listen : World → World
  run_listen w =
      if w.base.deleted
      then w
      else (let h = w.next in
          let w1 = do_call uv g (pipe_init h) (record w { next = w.next + 1 }) in
          elim w1.own.acceptor [
            | some old ↦ do_call uv g (close h) w1
            | none ↦ bind_acceptor h (set_own uv g (record w1.own { acceptor = some h }) w1)
          ])

  unfoldable pub create_from_accepted : (client : ℕ) → List ℕ → UnixSocket
  create_from_accepted client path = record new_unix { path = path; pipe = some client }

  -- `OnConnection`: the socket made for the client, with its address, if there is one.
  unfoldable pub on_connection : (server : ℕ) → ℤ → World → World × Option (ℕ × UnixSocket)
  on_connection server status w =
      if w.base.deleted
      then (w, none)
      else if ltb_ℤ status (pos 0)
      then (report uv g SocketError.listen_error (uv.strerror status) w, none)
      else (let client = w.next in
          let w1 = do_call uv g (pipe_init client) (record w { next = w.next + 1 }) in
          let result = code_of uv g (accept server client) w1 in
          let w2 = do_call uv g (accept server client) w1 in
          if nonzero result
          then (do_call uv g (close client) w2, none)
          else (let n = w2.next in
              (
                do_call uv g (read_start client) (record w2 {
                  next = w2.next + 1;
                  events = enqueue_incoming g w2.self n (path_endpoint w2.own.path) w2.events;
                }),
                some (n, create_from_accepted client w2.own.path),
              )))

  -- `Send` needs a pipe. `SendTo` is the same, whatever its host and port are.
  unfoldable pub send : List ℕ → World → World × Bool
  send data_sent w = elim w.own.pipe [
    | none ↦ (w, false)
    | some h ↦ (post_job uv g (send_bytes data_sent) (new_context uv g w), true)
  ]

  unfoldable pub run_send : List ℕ → World → World
  run_send data_sent w = if w.base.deleted then delete_context uv g w else (elim w.own.pipe [
    | none ↦ delete_context uv g w
    | some h ↦
        let result = code_of uv g (write h data_sent) w in
        let w1 = do_call uv g (write h data_sent) w in
        if nonzero result
        then delete_context uv g (report uv g SocketError.send_error (uv.strerror result) w1)
        else w1
  ])

  unfoldable pub on_write : ℤ → World → World
  on_write status w =
      if not w.base.deleted && nonzero status && not (eqb_ℤ status uv.ecanceled)
      then delete_context uv g (report uv g SocketError.send_error (uv.strerror status) w)
      else delete_context uv g w

  -- `available` is whether the copy of the data finds memory.
  unfoldable pub on_read : (available : Bool) → Read → World → World
  on_read available r w = if w.base.deleted then w else (elim r [
    | bytes data_read ↦ record w {
      events = enqueue_receive_stream g available w.self data_read w.events;
    }
    | again ↦ w
    | failure code ↦
        if eqb_ℤ code uv.eof
        then record w { events = enqueue_disconnect g w.self w.events }
        else if eqb_ℤ code uv.ecanceled
        then w
        else report uv g SocketError.recv_error (uv.strerror code) w
  ])

  -- Options are stored only.
  unfoldable pub set_option : SocketOption → ℤ → World → World × Bool
  set_option option value w = (record w { base = store_option w.base option value }, true)

  unfoldable pub run_job : Job → World → World
  run_job start_connecting w = run_connect w
  run_job (close_pipe h) w = run_close_pipe h w
  run_job (close_acceptor h) w = close_once uv g h w
  run_job start_listening w = run_listen w
  run_job (send_bytes data_sent) w = run_send data_sent w

  abbrev pub on_alloc_buffer : World → Buffer
  on_alloc_buffer w = record { owner = w.self; size = 16384 }

  -- The destructor, with that of the base class.
  unfoldable pub destroy_unix : World → World
  destroy_unix w = let w1 = (disconnect w).0 in record w1 { base = destroy_base w1.base }

abbrev pub on_close : ℕ → HandleHeap → HandleHeap
on_close = on_close_of pipe_handle
