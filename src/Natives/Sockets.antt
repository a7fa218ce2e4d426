-- ===== src/Natives/Sockets.antt =====
-- The interface of src/natives/socket_natives.cpp to the sockets, filled by the classes of
-- src/impl/socket: a socket of any class, with the event loop that runs its jobs.
pub mod Payloads
pub mod Sending
pub mod Freed
use sm_ext_socket.Base.{
  ℕ, Bool, true, false, Option, none, some, List, [], ◌∷◌, length, take, leb, ltb, ◌||◌,
  if◌then◌else◌,
}
use sm_ext_socket.Base.Int.{ℤ}
use sm_ext_socket.SocketTypes.{
  SocketType, SocketOption, CallbackEvent, RemoteEndpoint, no_endpoint, GlobalOptions,
}
use sm_ext_socket.SocketBase.{CallbackInfo, set_callback}
use sm_ext_socket.EventLoop.{on_async}
use sm_ext_socket.Uv.{Address, Uv}
use sm_ext_socket.Tcp
use sm_ext_socket.Tcp.Connecting
use sm_ext_socket.Tcp.Listening
use sm_ext_socket.Tcp.Stream
use sm_ext_socket.Tcp.Control
use sm_ext_socket.Udp
use sm_ext_socket.Udp.Handle
use sm_ext_socket.Udp.Datagrams
use sm_ext_socket.Unix
use sm_ext_socket.Natives.{Class}
use sm_ext_socket.Natives.Texts.{View}

pub data Socket : Type 0 where
  tcp_socket : Tcp.World → Socket
  udp_socket : Udp.World → Socket
  unix_socket : Unix.World → Socket

-- The system's resolver: what it finds where the code waits for it, and what `uv_getaddrinfo` returns.
pub record Resolver : Type 0 where
  pub lookup : SocketType → List ℕ → ℕ → Option Address
  pub started : SocketType → List ℕ → ℕ → ℤ

-- The bytes of a view, `none` where it goes past the memory.
unfoldable pub bytes_of : View → Option (List ℕ)
bytes_of v = if leb v.size (length v.memory) then some (take v.size v.memory) else none

abbrev to_tcp : Tcp.World × Bool → Socket × Bool
to_tcp r = (tcp_socket r.0, r.1)

abbrev to_udp : Udp.World × Bool → Socket × Bool
to_udp r = (udp_socket r.0, r.1)

abbrev to_unix : Unix.World × Bool → Socket × Bool
to_unix r = (unix_socket r.0, r.1)

module _ (uv : Uv) (g : GlobalOptions) (resolver : Resolver) where
  abbrev type_of_socket : Socket → SocketType
  type_of_socket (tcp_socket w) = w.base.socket_type
  type_of_socket (udp_socket w) = w.base.socket_type
  type_of_socket (unix_socket w) = w.base.socket_type

  abbrev is_open_socket : Socket → Bool
  is_open_socket (tcp_socket w) = Tcp.Control.is_open uv g w
  is_open_socket (udp_socket w) = Udp.Handle.is_open uv g w
  is_open_socket (unix_socket w) = Unix.is_open uv g w

  abbrev bind_socket : List ℕ → ℕ → Socket → Socket × Bool
  bind_socket host port (tcp_socket w) =
      to_tcp (Tcp.Listening.bind uv g (resolver.lookup SocketType.tcp host port) w)
  bind_socket host port (udp_socket w) =
      to_udp (Udp.Handle.bind uv g (resolver.lookup SocketType.udp host port) w)
  bind_socket host port (unix_socket w) = to_unix (Unix.bind uv g host w)

  abbrev connect_socket : List ℕ → ℕ → Socket → Socket × Bool
  connect_socket host port (tcp_socket w) =
      to_tcp (Tcp.Connecting.connect uv g (resolver.started SocketType.tcp host port) w)
  connect_socket host port (udp_socket w) =
      to_udp (Udp.Handle.connect uv g (resolver.started SocketType.udp host port) w)
  connect_socket host port (unix_socket w) = to_unix (Unix.connect uv g host w)

  abbrev disconnect_socket : Socket → Socket × Bool
  disconnect_socket (tcp_socket w) = to_tcp (Tcp.Control.disconnect uv g w)
  disconnect_socket (udp_socket w) = to_udp (Udp.Handle.disconnect uv g w)
  disconnect_socket (unix_socket w) = to_unix (Unix.disconnect uv g w)

  -- The two other classes disconnect.
  abbrev reset_socket : Socket → Socket × Bool
  reset_socket (tcp_socket w) = to_tcp (Tcp.Control.close_reset_socket uv g w)
  reset_socket (udp_socket w) = to_udp (Udp.Handle.disconnect uv g w)
  reset_socket (unix_socket w) = to_unix (Unix.disconnect uv g w)

  abbrev listen_socket : Socket → Socket × Bool
  listen_socket (tcp_socket w) = to_tcp (Tcp.Listening.listen uv g w)
  listen_socket (udp_socket w) = to_udp (Udp.Handle.listen uv g w)
  listen_socket (unix_socket w) = to_unix (Unix.listen uv g w)

  abbrev send_text : List ℕ → Socket → Socket × Bool
  send_text text (tcp_socket w) = to_tcp (Tcp.Stream.send uv g text w)
  send_text text (udp_socket w) = to_udp (Udp.Datagrams.send uv g text w)
  send_text text (unix_socket w) = to_unix (Unix.send uv g text w)

  abbrev send_text_to : List ℕ → List ℕ → ℕ → Socket → Socket × Bool
  send_text_to text host port (tcp_socket w) =
      to_tcp (Tcp.Control.send_to uv g text (some host) port w)
  send_text_to text host port (udp_socket w) = to_udp (
      Udp.Datagrams.send_to uv g (resolver.started SocketType.udp host port) text (some host) port
        w)
  send_text_to text host port (unix_socket w) = to_unix (Unix.send uv g text w)

  abbrev set_option_of : SocketOption → ℤ → Socket → Socket × Bool
  set_option_of option value (tcp_socket w) = to_tcp (Tcp.Control.set_option uv g option value w)
  set_option_of option value (udp_socket w) = to_udp (Udp.Datagrams.set_option uv g option value w)
  set_option_of option value (unix_socket w) = to_unix (Unix.set_option uv g option value w)

  abbrev set_callback_of : CallbackEvent → CallbackInfo → Socket → Socket
  set_callback_of event info (tcp_socket w) =
      tcp_socket (record w { base = set_callback w.base event info })
  set_callback_of event info (udp_socket w) =
      udp_socket (record w { base = set_callback w.base event info })
  set_callback_of event info (unix_socket w) =
      unix_socket (record w { base = set_callback w.base event info })

  -- A Unix socket has no local endpoint, and only it has a path.
  abbrev local_endpoint_of : Socket → RemoteEndpoint
  local_endpoint_of (tcp_socket w) = Tcp.Listening.get_local_endpoint uv g w
  local_endpoint_of (udp_socket w) = Udp.Handle.get_local_endpoint uv g w
  local_endpoint_of (unix_socket w) = no_endpoint

  abbrev path_of : Socket → List ℕ
  path_of (unix_socket w) = w.own.path
  path_of _ = []

  -- Whether `Send` copies its data, and `SendTo` to a host with this port.
  abbrev reads_data : Socket → Bool
  reads_data (tcp_socket w) = true
  reads_data (udp_socket w) = w.own.is_connected
  reads_data (unix_socket w) = elim w.own.pipe [ none ↦ false | some h ↦ true ]

  abbrev reads_data_to : ℕ → Socket → Bool
  reads_data_to port (tcp_socket w) = false
  reads_data_to port (udp_socket w) = ltb 0 port || w.own.is_connected
  reads_data_to port (unix_socket w) = elim w.own.pipe [ none ↦ false | some h ↦ true ]

  -- The data of a view, for a method that may read it.
  abbrev with_bytes : (reads : Bool) → View → (List ℕ → Socket × Bool) → Option (Socket × Bool)
  with_bytes false v method = some (method [])
  with_bytes true v method = elim (bytes_of v) [ none ↦ none | some text ↦ some (method text) ]

  -- The methods of the socket that the state is, whatever its address.
  unfoldable pub methods : Class Socket
  methods = record {
    socket_type = λ p s. type_of_socket s;
    is_open = λ p s. is_open_socket s;
    bind = λ p host port s. bind_socket host port s;
    connect = λ p host port s. connect_socket host port s;
    disconnect = λ p s. disconnect_socket s;
    close_reset = λ p s. reset_socket s;
    listen = λ p s. listen_socket s;
    send = λ p v s. with_bytes (reads_data s) v (λ text. send_text text s);
    send_to = λ p v host port s.
        with_bytes (reads_data_to port s) v (λ text. send_text_to text host port s);
    set_option = λ p option value s. set_option_of option value s;
    set_callback = λ p event info s. set_callback_of event info s;
    local_endpoint = λ p s. local_endpoint_of s;
    path = λ p s. path_of s;
  }

module _ (uv : Uv) (g : GlobalOptions) where
  -- `OnAsync`: the loop runs the jobs that wait.
  unfoldable pub run_loop : (somaxconn : ℕ) → Socket → Option Socket
  run_loop somaxconn (tcp_socket w) =
      elim (on_async (Tcp.Control.run_job uv g somaxconn) w.jobs w) [
        | none ↦ none
        | some (l, w') ↦ some (tcp_socket (record w' { jobs = l }))
      ]
  run_loop somaxconn (udp_socket w) = elim (on_async (Udp.Datagrams.run_job uv g) w.jobs w) [
    | none ↦ none
    | some (l, w') ↦ some (udp_socket (record w' { jobs = l }))
  ]
  run_loop somaxconn (unix_socket w) = elim (on_async (Unix.run_job uv g) w.jobs w) [
    | none ↦ none
    | some (l, w') ↦ some (unix_socket (record w' { jobs = l }))
  ]
