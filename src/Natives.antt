-- ===== src/Natives.antt =====
-- src/natives/socket_natives.cpp: what a plugin calls. A native acts on a state `W` through two
-- interfaces, the virtual methods of the sockets and SourceMod; the arguments are given as the native
-- finds them in `params`, a text as the plugin's memory from its first byte on.
pub mod Texts
pub mod Copying
pub mod Ports
pub mod Creation
pub mod Sockets
use sm_ext_socket.Base.{
  ℕ, suc, ◌-◌, ◌%◌, ◌^◌, Bool, true, false, not, ◌||◌, Option, none, some, List, [], ◌∷◌,
  if◌then◌else◌,
}
use sm_ext_socket.Base.Int.{ℤ, pos, negsuc, eqb_ℤ, ltb_ℤ}
use sm_ext_socket.Base.Text.{codes}
use sm_ext_socket.SocketTypes.{
  SocketType, CallbackEvent, SocketOption, GlobalOptions, set_global, RemoteEndpoint,
  concatenate_callbacks, force_frame_lock, callbacks_per_frame, debug_mode,
}
use sm_ext_socket.SocketBase.{CallbackInfo}
use sm_ext_socket.Natives.Texts.{View, strlen, c_string, size_of, copy_out, overwrite}

-- What the plugin gets: a value, an error that the native throws, or the error on a bad handle. At a
-- fault the native reads or writes past the plugin's memory.
pub data Answer : Type 0 where
  returned : ℤ → Answer
  thrown : List ℕ → Answer
  invalid_handle : Answer
  fault : Answer

-- The methods of the socket at an address. `none` is a fault of a method that reads its data.
pub record Class (W : Type 0) : Type 0 where
  pub socket_type : ℕ → W → SocketType
  pub is_open : ℕ → W → Bool
  pub bind : ℕ → List ℕ → ℕ → W → W × Bool
  pub connect : ℕ → List ℕ → ℕ → W → W × Bool
  pub disconnect : ℕ → W → W × Bool
  pub close_reset : ℕ → W → W × Bool
  pub listen : ℕ → W → W × Bool
  pub send : ℕ → View → W → Option (W × Bool)
  pub send_to : ℕ → View → List ℕ → ℕ → W → Option (W × Bool)
  pub set_option : ℕ → SocketOption → ℤ → W → W × Bool
  pub set_callback : ℕ → CallbackEvent → CallbackInfo → W → W
  pub local_endpoint : ℕ → W → RemoteEndpoint
  pub path : ℕ → W → List ℕ

-- `ReadHandle`, which gives the socket of a handle, and `GetFunctionById`.
pub record SourceMod (W : Type 0) : Type 0 where
  pub read_handle : ℤ → W → Option ℕ
  pub function_by_id : ℤ → Option ℕ

abbrev pub of_bool : Bool → ℤ
of_bool true = pos 1
of_bool false = pos 0

abbrev pub eqb_type : SocketType → SocketType → Bool
eqb_type SocketType.tcp SocketType.tcp = true
eqb_type SocketType.udp SocketType.udp = true
eqb_type SocketType.unix SocketType.unix = true
eqb_type _ _ = false

-- `static_cast<uint16_t>` of an `int`.
unfoldable pub to_uint16 : ℤ → ℕ
to_uint16 (pos n) = n % 65536
to_uint16 (negsuc n) = 65535 - n % 65536

unfoldable pub invalid_port : ℤ → Bool
invalid_port port = ltb_ℤ port (pos 0) || ltb_ℤ (pos 65535) port

-- The data: up to the zero byte, or as many bytes as the plugin says.
unfoldable pub view_of : List ℕ → ℤ → View
view_of memory size =
    if eqb_ℤ size (negsuc 0)
    then record { memory = memory; size = strlen memory }
    else record { memory = memory; size = size_of size }

module _ {W : Type 0} (c : Class W) (sourcemod : SourceMod W) where
  abbrev Native : Type 0
  Native = W → Answer × W

  -- `GetSocket`, and a native that goes on with the socket.
  unfoldable pub with_socket : ℤ → (ℕ → Native) → Native
  with_socket handle body w = elim (sourcemod.read_handle handle w) [
    | none ↦ (invalid_handle, w)
    | some p ↦ body p w
  ]

  abbrev pub answer : W × Bool → Answer × W
  answer r = (returned (of_bool r.1), r.0)

  abbrev pub answer_or_fault : W → Option (W × Bool) → Answer × W
  answer_or_fault w none = (fault, w)
  answer_or_fault w (some r) = answer r

  unfoldable pub socket_is_connected : ℤ → Native
  unfolding with_socket
  socket_is_connected handle = with_socket handle (λ p w. (returned (of_bool (c.is_open p w)), w))

  unfoldable pub socket_bind : ℤ → List ℕ → ℤ → Native
  unfolding with_socket
  socket_bind handle hostname port = with_socket handle (λ p w.
      if invalid_port port
      then (thrown (codes "Invalid port specified"), w)
      else answer (c.bind p (c_string hostname) (to_uint16 port) w))

  unfoldable pub socket_connect : ℤ → List ℕ → ℤ → Native
  unfolding with_socket
  socket_connect handle hostname port = with_socket handle (λ p w.
      if invalid_port port
      then (thrown (codes "Invalid port specified"), w)
      else if c.is_open p w
      then (thrown (codes "Socket is already connected"), w)
      else answer (c.connect p (c_string hostname) (to_uint16 port) w))

  unfoldable pub socket_disconnect : ℤ → Native
  unfolding with_socket
  socket_disconnect handle = with_socket handle (λ p w.
      if not (c.is_open p w)
      then (thrown (codes "Socket is not connected/listening"), w)
      else answer (c.disconnect p w))

  unfoldable pub socket_close_reset : ℤ → Native
  unfolding with_socket
  socket_close_reset handle = with_socket handle (λ p w.
      if not (eqb_type (c.socket_type p w) SocketType.tcp)
      then (thrown (codes "CloseReset only works for TCP sockets"), w)
      else if not (c.is_open p w)
      then (thrown (codes "Socket is not connected"), w)
      else answer (c.close_reset p w))

  unfoldable pub socket_listen : ℤ → Native
  unfolding with_socket
  socket_listen handle = with_socket handle (λ p w.
      if c.is_open p w then (thrown (codes "Socket is already open"), w) else answer (c.listen p w))

  unfoldable pub socket_send : ℤ → List ℕ → ℤ → Native
  unfolding with_socket
  socket_send handle memory size = with_socket handle (λ p w.
      if not (c.is_open p w)
      then (thrown (codes "Can't send, socket is not connected"), w)
      else answer_or_fault w (c.send p (view_of memory size) w))

  unfoldable pub socket_send_to : ℤ → List ℕ → ℤ → List ℕ → ℤ → Native
  unfolding with_socket
  socket_send_to handle memory size hostname port = with_socket handle (λ p w.
      if eqb_type (c.socket_type p w) SocketType.tcp
      then (thrown (codes "This native doesn't support connection orientated protocols"), w)
      else answer_or_fault w
          (c.send_to p (view_of memory size) (c_string hostname) (to_uint16 port) w))

  abbrev pub is_global : SocketOption → Bool
  is_global option =
      eqb_ℤ option concatenate_callbacks
      || eqb_ℤ option force_frame_lock
      || eqb_ℤ option callbacks_per_frame
      || eqb_ℤ option debug_mode

  -- The options of the extension do not need the handle.
  unfoldable pub socket_set_option :
      ℤ → SocketOption → ℤ → GlobalOptions → W → Answer × (GlobalOptions × W)
  unfolding with_socket
  socket_set_option handle option value g w =
      if is_global option
      then (returned (pos 1), (set_global g option value, w))
      else (let (a, w') = with_socket handle (λ p v. answer (c.set_option p option value v)) w in
          (a, (g, w')))

  -- The six natives that set a callback.
  unfoldable pub socket_set_callback : CallbackEvent → ℤ → (function cookie : ℤ) → Native
  unfolding with_socket
  socket_set_callback event handle function cookie = with_socket handle (λ p w. (
    returned (pos 1),
    c.set_callback p event
        (record { function = sourcemod.function_by_id function; cookie = cookie }) w,
  ))

  -- The natives that fill a buffer also give the plugin's memory from the buffer on.
  abbrev copied : List ℕ → Option (List ℕ) → Answer × List ℕ
  copied memory none = (fault, memory)
  copied memory (some m) = (returned (pos 1), m)

  -- `name` is what `gethostname` gives, `none` where it fails.
  unfoldable pub socket_get_host_name : Option (List ℕ) → ℤ → List ℕ → Answer × List ℕ
  socket_get_host_name (some name) size memory = copied memory (copy_out name size memory)
  socket_get_host_name none size memory = elim (overwrite (0 ∷ []) memory) [
    | none ↦ (fault, memory)
    | some m ↦ (returned (pos 0), m)
  ]

  abbrev pub local_address : ℕ → W → List ℕ
  local_address p w =
      if eqb_type (c.socket_type p w) SocketType.unix
      then c.path p w
      else (c.local_endpoint p w).address

  unfoldable pub socket_get_local_address : ℤ → ℤ → List ℕ → W → Answer × List ℕ
  socket_get_local_address handle size memory w = elim (sourcemod.read_handle handle w) [
    | none ↦ (invalid_handle, memory)
    | some p ↦ copied memory (copy_out (local_address p w) size memory)
  ]

  unfoldable pub socket_get_local_port : ℤ → Native
  unfolding with_socket
  socket_get_local_port handle = with_socket handle (λ p w.
      if eqb_type (c.socket_type p w) SocketType.unix
      then (returned (pos 0), w)
      else (returned (pos (c.local_endpoint p w).port), w))
