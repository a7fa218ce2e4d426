-- ===== src/Tests.antt =====
-- Concrete worlds for the runs of the theorems.
mod Queues
mod Events
mod Sockets
mod Connections
mod Frames
mod Pipes
mod Datagrams
mod Managers
mod Plugins
mod Threads
mod Deliveries
use sm_ext_socket.Base.{
  ℕ, ◌==◌, ◌≡◌, ◌+◌, Bool, true, false, not, Option, none, some, List, [], ◌∷◌, ◌++◌, refl,
}
use sm_ext_socket.Base.Int.{ℤ, pos, negsuc}
use sm_ext_socket.Base.Text.{codes}
use sm_ext_socket.SocketTypes.{SocketType, GlobalOptions, get_default, Sockaddr, inet}
use sm_ext_socket.SocketBase.{new_base}
use sm_ext_socket.CallbackManager.{new_manager}
use sm_ext_socket.EventLoop.{EventLoop, fresh}
use sm_ext_socket.Uv.{Address, UvCall, listen_on, Uv, AddrInfo}
use sm_ext_socket.Tcp.{World, new_tcp}
use sm_ext_socket.Uv.Calls.{closes}

abbrev pub globals : GlobalOptions
globals = record { options = λ _. none }

-- Only `uv_listen` fails, with -98.
abbrev answers : UvCall → ℤ
answers (listen_on h n) = negsuc 97
answers _ = pos 0

-- A handle's descriptor is 100 more than its address.
abbrev pub uv : Uv
uv = record {
  result = λ calls call. answers call;
  is_closing = λ calls h. not (closes h calls == 0);
  is_active = λ calls h. true;
  fileno = λ calls h. some (h + 100);
  sock_name = λ calls h. none;
  peer_name = λ calls h. none;
  ip4_name = λ a. codes "127.0.0.1";
  ip6_name = λ a. codes "::1";
  strerror = λ code. codes "address already in use";
  eof = negsuc 4094;
  econnreset = negsuc 103;
  econnaborted = negsuc 102;
  ecanceled = negsuc 124;
}

abbrev pub address : Address
address = inet 2130706433 36895

abbrev pub result : AddrInfo
result = record { place = 40; address = address }

-- A new socket, and one that has a handle, a timer and a request under way.
abbrev pub new_world : World
new_world = record {
  self = 1;
  base = new_base SocketType.tcp;
  own = new_tcp;
  events = new_manager;
  jobs = fresh;
  calls = [];
  contexts = 0;
  next = 10;
}

abbrev pub connecting : World
connecting = record new_world {
  own = record new_tcp { socket = some 7; connect_timer = some 8 };
  contexts = 1;
}
