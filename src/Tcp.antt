-- ===== src/Tcp.antt =====
-- src/include/socket/TcpSocket.h and src/impl/socket/TcpSocket.cpp: the members of a TCP socket, and the
-- jobs that it posts.
pub mod Connecting
pub mod Listening
pub mod Stream
pub mod Control
use sm_ext_socket.Base.{ℕ, Option, none, List}
use sm_ext_socket.SocketTypes.{RemoteEndpoint}
use sm_ext_socket.Uv
use sm_ext_socket.Uv.{Address}

-- `local_addr` is `none` until `m_localAddrSet`, `remote_endpoint` until `m_remoteEndpointSet`, and
-- the pointers are `none` for null.
pub record TcpSocket : Type 0 where
  pub socket : Option ℕ
  pub acceptor : Option ℕ
  pub connect_timer : Option ℕ
  pub local_addr : Option Address
  pub remote_endpoint : Option RemoteEndpoint

unfoldable pub new_tcp : TcpSocket
new_tcp = record {
  socket = none;
  acceptor = none;
  connect_timer = none;
  local_addr = none;
  remote_endpoint = none;
}

-- The functions that the game thread posts, with what they capture.
pub data Job : Type 0 where
  close_handles : Option ℕ → Option ℕ → Job
  reset_handle : ℕ → Job
  start_listening : Job
  send_bytes : List ℕ → Job

abbrev pub World : Type 0
World = Uv.World TcpSocket Job
