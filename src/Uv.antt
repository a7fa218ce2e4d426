-- ===== src/Uv.antt =====
-- What the sockets of src/impl/socket share: libuv as they see it, and the state that a handler acts
-- on. libuv is a parameter: it answers each call from the calls made so far, and every call that the
-- code makes is appended to them. Objects of libuv are their addresses.
pub mod Calls
use sm_ext_socket.Base.{
  ℕ, ◌+◌, ◌-◌, Bool, true, false, Option, none, some, List, [], ◌∷◌, ◌++◌, map, ◌==◌, if◌then◌else◌,
}
use sm_ext_socket.Base.Int.{ℤ, pos, nonzero}
use sm_ext_socket.SocketTypes.{
  SocketOption, SocketError, RemoteEndpoint, GlobalOptions, Sockaddr, extract_endpoint,
}
use sm_ext_socket.SocketBase.{SocketBase, SockOpt, sock_opt, queue_option, apply_pending_options}
use sm_ext_socket.CallbackManager.{CallbackManager, enqueue_error}
use sm_ext_socket.EventLoop.{EventLoop, post}

abbrev pub Address : Type 0
Address = Sockaddr ℕ

-- The calls of libuv, and of the system on a libuv handle. A path is its bytes.
pub data UvCall : Type 0 where
  tcp_init udp_init pipe_init timer_init timer_stop close close_reset : ℕ → UvCall
  read_start read_stop recv_start recv_stop free_addrinfo : ℕ → UvCall
  tcp_bind tcp_connect udp_bind : ℕ → Address → UvCall
  pipe_bind pipe_connect : ℕ → List ℕ → UvCall
  timer_start : ℕ → ℕ → UvCall
  listen_on accept : ℕ → ℕ → UvCall
  set_sock_opt : ℕ → SockOpt → UvCall
  write : ℕ → List ℕ → UvCall
  udp_send : ℕ → List ℕ → Address → UvCall

pub record Uv : Type 0 where
  pub result : List UvCall → UvCall → ℤ
  pub is_closing : List UvCall → ℕ → Bool
  pub is_active : List UvCall → ℕ → Bool
  pub fileno : List UvCall → ℕ → Option ℕ
  pub sock_name : List UvCall → ℕ → Option Address
  pub peer_name : List UvCall → ℕ → Option Address
  pub ip4_name : ℕ → List ℕ
  pub ip6_name : ℕ → List ℕ
  pub strerror : ℤ → List ℕ
  pub eof : ℤ
  pub econnreset : ℤ
  pub econnaborted : ℤ
  pub ecanceled : ℤ

-- A result of `getaddrinfo`: where it lies, the family that its address is of, and the address.
pub record AddrInfo : Type 0 where
  pub place : ℕ
  pub address : Address

-- The memory of libuv's handles: what was made at an address with `new` and is not yet deleted.
pub data HandleType : Type 0 where
  tcp_handle udp_handle pipe_handle async_handle timer_handle : HandleType

abbrev pub HandleHeap : Type 0
HandleHeap = ℕ → Option HandleType

abbrev pub eqb_handle : HandleType → HandleType → Bool
eqb_handle tcp_handle tcp_handle = true
eqb_handle udp_handle udp_handle = true
eqb_handle pipe_handle pipe_handle = true
eqb_handle async_handle async_handle = true
eqb_handle timer_handle timer_handle = true
eqb_handle _ _ = false

-- The `OnClose` of a class, which libuv calls when a handle is closed: it deletes one of its own type.
unfoldable pub on_close_of : HandleType → ℕ → HandleHeap → HandleHeap
on_close_of own h heap = elim (heap h) [
  | none ↦ heap
  | some t ↦ if eqb_handle t own then (λ q. if h == q then none else heap q) else heap
]

-- What `OnAllocBuffer` gives libuv: the buffer in this socket, and its length.
pub record Buffer : Type 0 where
  pub owner : ℕ
  pub size : ℕ

-- A socket at the address `self`: its base class `base` and its own members `own`, what it shares with
-- the others, and how many requests of `new` are not yet deleted. `next` is the next address that
-- `new` gives.
pub record World (S J : Type 0) : Type 0 where
  pub self : ℕ
  pub base : SocketBase
  pub own : S
  pub events : CallbackManager
  pub jobs : EventLoop J
  pub calls : List UvCall
  pub contexts : ℕ
  pub next : ℕ

module _ {S J : Type 0} (uv : Uv) (g : GlobalOptions) where
  -- A call whose result is not read, and one whose result is.
  abbrev pub do_call : UvCall → World S J → World S J
  do_call c w = record w { calls = w.calls ++ c ∷ [] }

  abbrev pub code_of : UvCall → World S J → ℤ
  code_of c w = uv.result w.calls c

  abbrev pub set_own : S → World S J → World S J
  set_own t w = record w { own = t }

  abbrev pub new_context : World S J → World S J
  new_context w = record w { contexts = w.contexts + 1 }

  abbrev pub delete_context : World S J → World S J
  delete_context w = record w { contexts = w.contexts - 1 }

  abbrev pub report : SocketError → List ℕ → World S J → World S J
  report e text w = record w { events = enqueue_error g w.self e text w.events }

  -- `ApplyPendingOptions` on a handle.
  unfoldable pub apply_options : ℕ → World S J → World S J
  apply_options handle w =
      let (b, done) = apply_pending_options (uv.fileno w.calls) (some handle) w.base in
      record w { base = b; calls = w.calls ++ map (λ (c : ℕ × SockOpt). set_sock_opt c.0 c.1) done }

  -- `Post`, whose answer every caller drops.
  unfoldable pub post_job : J → World S J → World S J
  post_job j w = record w { jobs = (post w.jobs j).0 }

  -- `uv_close` unless the handle is closing.
  unfoldable pub close_once : ℕ → World S J → World S J
  close_once h w = if uv.is_closing w.calls h then w else do_call (close h) w

  abbrev pub free_info : Option AddrInfo → World S J → World S J
  free_info none w = w
  free_info (some i) w = do_call (free_addrinfo i.place) w

  -- An option for the system goes to the descriptor of the handle, if it has one, or waits for one.
  unfoldable pub set_handle_option : Option ℕ → SocketOption → ℤ → World S J → World S J × Bool
  set_handle_option handle option value w =
      let queued = record w { base = queue_option w.base option value } in
      elim handle [
        | none ↦ (queued, true)
        | some h ↦ elim (uv.fileno w.calls h) [
          | none ↦ (queued, true)
          | some fd ↦ elim (sock_opt option value) [
            | none ↦ (w, false)
            | some c ↦
                let failed = nonzero (code_of (set_sock_opt fd c) w) in
                (do_call (set_sock_opt fd c) w, if failed then false else true)
          ]
        ]
      ]

-- The printers of addresses are libuv's.
abbrev pub endpoint_of : Uv → Option Address → RemoteEndpoint
endpoint_of uv = extract_endpoint uv.ip4_name uv.ip6_name
