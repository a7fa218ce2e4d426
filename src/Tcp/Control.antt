-- ===== src/Tcp/Control.antt =====
-- src/impl/socket/TcpSocket.cpp: closing, and the options.
pub mod Deferred
pub mod Unbound
use sm_ext_socket.Base.{
  ℕ, Bool, true, false, ◌||◌, Option, none, some, List, [], ◌∷◌, ◌++◌, if◌then◌else◌,
}
use sm_ext_socket.Base.Int.{ℤ, nonzero, eqb_ℤ}
use sm_ext_socket.SocketTypes.{SocketOption, GlobalOptions, connect_timeout, auto_free_handle}
use sm_ext_socket.SocketBase.{store_option, destroy_base}
use sm_ext_socket.Uv.{
  close_reset, set_sock_opt, Uv, do_call, code_of, set_own, post_job, close_once, set_handle_option,
  delete_context, Buffer, HandleHeap, tcp_handle, on_close_of,
}
use sm_ext_socket.Tcp.{Job, close_handles, reset_handle, start_listening, send_bytes, World}
use sm_ext_socket.Tcp.Listening.{run_listen}
use sm_ext_socket.Tcp.Stream.{run_send}

module _ (uv : Uv) (g : GlobalOptions) where
  unfoldable pub is_open : World → Bool
  is_open w = elim w.own.socket [ none ↦ false | some h ↦ uv.is_active w.calls h ]

  -- `Disconnect` takes both handles off the socket and posts their closing.
  unfoldable pub disconnect : World → World × Bool
  disconnect w =
      let w1 = set_own uv g (record w.own { socket = none; acceptor = none }) w in
      elim w.own.socket [
        | some h ↦ (post_job uv g (close_handles (some h) w.own.acceptor) w1, true)
        | none ↦ elim w.own.acceptor [
          | some a ↦ (post_job uv g (close_handles none (some a)) w1, true)
          | none ↦ (w1, true)
        ]
      ]

  unfoldable pub close_reset_socket : World → World × Bool
  close_reset_socket w =
      let w1 = set_own uv g (record w.own { socket = none }) w in
      elim w.own.socket [ some h ↦ (post_job uv g (reset_handle h) w1, true) | none ↦ (w1, false) ]

  -- The job of `Disconnect`, for one of its handles, and that of `CloseReset`. `is_closing` stands for
  -- handles whose memory is there: `on_close` frees it, and that is not in the state.
  unfoldable pub run_close : Option ℕ → World → World
  run_close none w = w
  run_close (some h) w = close_once uv g h w

  unfoldable pub run_reset : ℕ → World → World
  run_reset h w = if uv.is_closing w.calls h then w else do_call uv g (close_reset h) w

  -- Each job, as the loop runs it for this socket.
  unfoldable pub run_job : (somaxconn : ℕ) → Job → World → World
  run_job somaxconn (close_handles socket acceptor) w = run_close acceptor (run_close socket w)
  run_job somaxconn (reset_handle h) w = run_reset h w
  run_job somaxconn start_listening w = elim w.own.local_addr [
    | none ↦ w
    | some a ↦ run_listen uv g somaxconn a w
  ]
  run_job somaxconn (send_bytes data_sent) w = run_send uv g data_sent w

  -- `SetOption`: the options of the extension are stored only, one that the system has goes to the
  -- handle's descriptor, or waits for one.
  unfoldable pub set_option : SocketOption → ℤ → World → World × Bool
  set_option option value w =
      let w1 = record w { base = store_option w.base option value } in
      if eqb_ℤ option connect_timeout || eqb_ℤ option auto_free_handle
      then (w1, true)
      else set_handle_option uv g w.own.socket option value w1

  -- A TCP socket sends to its peer only.
  abbrev pub send_to : List ℕ → Option (List ℕ) → ℕ → World → World × Bool
  send_to data_sent hostname port w = (w, false)

  -- The destructor, with that of the base class.
  unfoldable pub destroy_tcp : World → World
  unfolding disconnect
  destroy_tcp w = let w1 = (disconnect w).0 in record w1 { base = destroy_base w1.base }

  abbrev pub on_alloc_buffer : World → Buffer
  on_alloc_buffer w = record { owner = w.self; size = 16384 }

  unfoldable pub on_shutdown : World → World
  on_shutdown w = delete_context uv g w

abbrev pub on_close : ℕ → HandleHeap → HandleHeap
on_close = on_close_of tcp_handle
