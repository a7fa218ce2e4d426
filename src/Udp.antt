-- ===== src/Udp.antt =====
-- src/include/socket/UdpSocket.h and src/impl/socket/UdpSocket.cpp: datagram sockets. The methods and
-- handlers are in Handle and Datagrams.
pub mod Handle
pub mod Datagrams
pub mod Sending
pub mod Opening
use sm_ext_socket.Base.{ℕ, Bool, false, Option, none, List}
use sm_ext_socket.SocketTypes.{other_family}
use sm_ext_socket.Uv
use sm_ext_socket.Uv.{Address}

-- `local_addr` is `none` until `m_localAddrSet`. `connected_addr` is all zero at first.
pub record UdpSocket : Type 0 where
  pub socket : Option ℕ
  pub local_addr : Option Address
  pub connected_addr : Address
  pub is_connected : Bool

unfoldable pub new_udp : UdpSocket
new_udp = record {
  socket = none;
  local_addr = none;
  connected_addr = other_family;
  is_connected = false;
}

-- The functions that the game thread posts, with what they capture.
pub data Job : Type 0 where
  close_handle : ℕ → Job
  start_listening : Job
  send_bytes : List ℕ → Job

abbrev pub World : Type 0
World = Uv.World UdpSocket Job
