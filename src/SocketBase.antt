-- ===== src/SocketBase.antt =====
-- src/include/socket/SocketBase.h and src/impl/socket/SocketBase.cpp: what every socket has. The system
-- calls are parameters; each call that the code makes is a value of `SockOpt`.
pub mod Options
pub mod Pending
use sm_ext_socket.Base.{
  ℕ, ◌+◌, ◌-◌, ◌*◌, ◌/◌, ◌%◌, Bool, true, false, Option, none, some, List, [], ◌∷◌, ◌++◌, map, ◌==◌,
  ltb, if◌then◌else◌,
}
use sm_ext_socket.Base.Int.{ℤ, pos, negsuc, eqb_ℤ, ltb_ℤ, nonzero}
use sm_ext_socket.SocketTypes.{
  SocketType, SocketOption, CallbackEvent, event_index, PendingOption, broadcast, reuse_addr,
  keep_alive, linger, oob_inline, send_buffer, receive_buffer, dont_route, receive_low_watermark,
  receive_timeout, send_low_watermark, send_timeout,
}

-- A plugin's function is its number.
pub record CallbackInfo : Type 0 where
  pub function : Option ℕ
  pub cookie : ℤ

abbrev pub no_callback : CallbackInfo
no_callback = record { function = none; cookie = pos 0 }

-- `options` has `max_options` cells.
pub record SocketBase : Type 0 where
  pub socket_type : SocketType
  pub callbacks : CallbackEvent → CallbackInfo
  pub pending_options : List PendingOption
  pub deleted : Bool
  pub options : ℕ → ℤ
  pub sm_handle : ℤ

abbrev pub max_options : ℕ
max_options = 32

unfoldable pub new_base : SocketType → SocketBase
new_base t = record {
  socket_type = t;
  callbacks = λ _. no_callback;
  pending_options = [];
  deleted = false;
  options = λ _. pos 0;
  sm_handle = pos 0;
}

-- `GetCallback` returns a reference: it is read through `callbacks`, and written here.
unfoldable pub set_callback : SocketBase → CallbackEvent → CallbackInfo → SocketBase
set_callback b event info = record b {
  callbacks = λ e. if event_index event == event_index e then info else b.callbacks e;
}

-- The cell of an option. The cast of a negative number to `size_t` is far out of range.
unfoldable pub option_index : SocketOption → Option ℕ
option_index (pos n) = if ltb n max_options then some n else none
option_index (negsuc n) = none

unfoldable pub get_option : SocketBase → SocketOption → ℤ
get_option b option = elim (option_index option) [ none ↦ pos 0 | some i ↦ b.options i ]

unfoldable pub mark_deleted : SocketBase → SocketBase
mark_deleted b = record b { deleted = true }

unfoldable pub store_option : SocketBase → SocketOption → ℤ → SocketBase
store_option b option value = elim (option_index option) [
  | none ↦ b
  | some i ↦ record b { options = λ j. if i == j then value else b.options j }
]

unfoldable pub queue_option : SocketBase → SocketOption → ℤ → SocketBase
queue_option b option value =
    let b' = store_option b option value in
    record b' {
      pending_options = b'.pending_options ++ record { option = option; value = value } ∷ [];
    }

-- The destructor marks the object and empties its queue.
unfoldable pub destroy_base : SocketBase → SocketBase
unfolding mark_deleted
destroy_base b = record (mark_deleted b) { pending_options = [] }

-- What `setsockopt` is called with: the option of the system, and the value at the pointer.
pub data SockOpt : Type 0 where
  set_bool : SocketOption → Bool → SockOpt
  set_int : SocketOption → ℤ → SockOpt
  set_timeout : SocketOption → ℤ → ℤ → SockOpt
  set_linger : Bool → ℤ → SockOpt

-- `/` and `%` of C++ round towards zero.
unfoldable pub quot_ℤ : ℤ → ℕ → ℤ
quot_ℤ (pos n) k = pos (n / k)
quot_ℤ (negsuc n) k = if (n + 1) / k == 0 then pos 0 else negsuc ((n + 1) / k - 1)

unfoldable pub rem_ℤ : ℤ → ℕ → ℤ
rem_ℤ (pos n) k = pos (n % k)
rem_ℤ (negsuc n) k = if (n + 1) % k == 0 then pos 0 else negsuc ((n + 1) % k - 1)

unfoldable pub scale : ℤ → ℕ → ℤ
scale (pos n) k = pos (n * k)
scale (negsuc n) k = if k == 0 then pos 0 else negsuc ((n + 1) * k - 1)

-- A time in milliseconds as seconds and microseconds.
unfoldable pub timeout : SocketOption → ℤ → SockOpt
unfolding quot_ℤ rem_ℤ scale
timeout option value = set_timeout option (quot_ℤ value 1000) (scale (rem_ℤ value 1000) 1000)

-- The `switch` of `SetSocketOption`, with both watermark options of the system defined; `none` is
-- its default.
unfoldable pub sock_opt : SocketOption → ℤ → Option SockOpt
unfolding timeout
sock_opt option value =
    if eqb_ℤ option broadcast
    then some (set_bool broadcast (nonzero value))
    else if eqb_ℤ option reuse_addr
    then some (set_bool reuse_addr (nonzero value))
    else if eqb_ℤ option keep_alive
    then some (set_bool keep_alive (nonzero value))
    else if eqb_ℤ option dont_route
    then some (set_bool dont_route (nonzero value))
    else if eqb_ℤ option oob_inline
    then some (set_bool oob_inline (nonzero value))
    else if eqb_ℤ option send_buffer
    then some (set_int send_buffer value)
    else if eqb_ℤ option receive_buffer
    then some (set_int receive_buffer value)
    else if eqb_ℤ option receive_low_watermark
    then some (set_int receive_low_watermark value)
    else if eqb_ℤ option send_low_watermark
    then some (set_int send_low_watermark value)
    else if eqb_ℤ option receive_timeout
    then some (timeout receive_timeout value)
    else if eqb_ℤ option send_timeout
    then some (timeout send_timeout value)
    else if eqb_ℤ option linger
    then some (set_linger (ltb_ℤ (pos 0) value) value)
    else none

-- `setsockopt` answers whether it succeeded. A descriptor of -1 is `none`.
module _ (setsockopt : ℕ → SockOpt → Bool) where
  unfoldable pub set_socket_option : Option ℕ → SocketOption → ℤ → Bool
  unfolding sock_opt
  set_socket_option none option value = false
  set_socket_option (some fd) option value = elim (sock_opt option value) [
    | none ↦ false
    | some call ↦ setsockopt fd call
  ]

-- The calls of the loop of `ApplyPendingOptions`, oldest first.
unfoldable pub pending_calls : List PendingOption → List SockOpt
unfolding sock_opt
pending_calls [] = []
pending_calls (p ∷ ps) =
    let rest = pending_calls ps in
    elim (sock_opt p.option p.value) [ none ↦ rest | some call ↦ call ∷ rest ]

-- `uv_fileno` gives the descriptor of a handle, or fails. The calls are made on that descriptor, and
-- their answers are not read. `none` for the handle is the null pointer.
unfoldable pub apply_pending_options :
    (ℕ → Option ℕ) → Option ℕ → SocketBase → SocketBase × List (ℕ × SockOpt)
apply_pending_options fileno none b = (b, [])
apply_pending_options fileno (some handle) b = elim (fileno handle) [
  | none ↦ (b, [])
  | some fd ↦ (
    record b { pending_options = [] },
    map (λ call. (fd, call)) (pending_calls b.pending_options),
  )
]
