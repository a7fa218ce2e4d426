-- ===== src/SocketTypes.antt =====
-- src/include/socket/SocketTypes.h and src/impl/socket/SocketUtils.cpp: the types that the
-- components share, the extension's global options, and the endpoint of a socket address.
pub mod Laws
use sm_ext_socket.Base.{
  ℕ, ◌+◌, ◌*◌, ◌/◌, ◌%◌, Bool, true, false, Option, none, some, List, [], ◌==◌, if◌then◌else◌,
}
use sm_ext_socket.Base.Int.{ℤ, pos, negsuc, eqb_ℤ}

pub data SocketType : Type 0 where
  tcp udp unix : SocketType

pub data SocketError : Type 0 where
  no_error empty_host no_host connect_error send_error bind_error recv_error listen_error :
      SocketError

pub data CallbackEvent : Type 0 where
  connect disconnect incoming receive error listen : CallbackEvent

-- The enumerators' values, which index `m_callbacks`.
abbrev pub event_index : CallbackEvent → ℕ
event_index CallbackEvent.connect = 0
event_index CallbackEvent.disconnect = 1
event_index CallbackEvent.incoming = 2
event_index CallbackEvent.receive = 3
event_index CallbackEvent.error = 4
event_index CallbackEvent.listen = 5

-- A plugin may pass any number as an option: the code casts it to the enumeration unchecked.
abbrev pub SocketOption : Type 0
SocketOption = ℤ

abbrev pub concatenate_callbacks : SocketOption
concatenate_callbacks = pos 1

abbrev pub force_frame_lock : SocketOption
force_frame_lock = pos 2

abbrev pub callbacks_per_frame : SocketOption
callbacks_per_frame = pos 3

abbrev pub broadcast : SocketOption
broadcast = pos 4

abbrev pub reuse_addr : SocketOption
reuse_addr = pos 5

abbrev pub keep_alive : SocketOption
keep_alive = pos 6

abbrev pub linger : SocketOption
linger = pos 7

abbrev pub oob_inline : SocketOption
oob_inline = pos 8

abbrev pub send_buffer : SocketOption
send_buffer = pos 9

abbrev pub receive_buffer : SocketOption
receive_buffer = pos 10

abbrev pub dont_route : SocketOption
dont_route = pos 11

abbrev pub receive_low_watermark : SocketOption
receive_low_watermark = pos 12

abbrev pub receive_timeout : SocketOption
receive_timeout = pos 13

abbrev pub send_low_watermark : SocketOption
send_low_watermark = pos 14

abbrev pub send_timeout : SocketOption
send_timeout = pos 15

abbrev pub debug_mode : SocketOption
debug_mode = pos 16

abbrev pub connect_timeout : SocketOption
connect_timeout = pos 17

abbrev pub auto_free_handle : SocketOption
auto_free_handle = pos 18

-- An address is its bytes.
pub record RemoteEndpoint : Type 0 where
  pub address : List ℕ
  pub port : ℕ

abbrev pub no_endpoint : RemoteEndpoint
no_endpoint = record { address = []; port = 0 }

pub record PendingOption : Type 0 where
  pub option : SocketOption
  pub value : ℤ

-- `m_options`: an option that was never set is `none`.
pub record GlobalOptions : Type 0 where
  pub options : SocketOption → Option ℤ

unfoldable pub get_default : SocketOption → ℤ
get_default option = if eqb_ℤ option callbacks_per_frame then pos 1 else pos 0

unfoldable pub set_global : GlobalOptions → SocketOption → ℤ → GlobalOptions
set_global g option value = record g {
  options = λ o. if eqb_ℤ option o then some value else g.options o;
}

unfoldable pub get_global : GlobalOptions → SocketOption → ℤ
unfolding get_default
get_global g option = elim (g.options option) [ none ↦ get_default option | some value ↦ value ]

-- What a `sockaddr` points at, by its family. The address stays opaque; the port is in network byte
-- order.
pub data Sockaddr (Address : Type 0) : Type 0 where
  inet : Address → ℕ → Sockaddr Address
  inet6 : Address → ℕ → Sockaddr Address
  other_family : Sockaddr Address

-- `ntohs` on a little-endian host.
unfoldable pub ntohs : ℕ → ℕ
ntohs p = p % 256 * 256 + p / 256 % 256

-- The printers of addresses are libuv's.
module _ {Address : Type 0} (ip4_name ip6_name : Address → List ℕ) where
  unfoldable pub extract_endpoint : Option (Sockaddr Address) → RemoteEndpoint
  unfolding ntohs
  extract_endpoint none = no_endpoint
  extract_endpoint (some (inet a p)) = record { address = ip4_name a; port = ntohs p }
  extract_endpoint (some (inet6 a p)) = record { address = ip6_name a; port = ntohs p }
  extract_endpoint (some other_family) = no_endpoint
