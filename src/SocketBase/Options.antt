-- ===== src/SocketBase/Options.antt =====
-- The option cells of src/include/socket/SocketBase.h, and the values that `SetSocketOption` of
-- src/impl/socket/SocketBase.cpp hands to the system.
use sm_ext_socket.Base.{◌+◌, ◌*◌, ◌<◌, ◌≡◌, refl, Bool, false, ◌&&◌, arith, ltb, if◌then◌else◌}
use sm_ext_socket.Base.Int.{ℤ, pos, negsuc, pos_part, neg_part, eqb_ℤ}
use sm_ext_socket.SocketTypes.{SocketOption}
use sm_ext_socket.SocketBase.{
  SocketBase, max_options, option_index, get_option, store_option, set_timeout, quot_ℤ, rem_ℤ,
  scale, timeout,
}

-- Whether an option has a cell.
abbrev pub has_cell : SocketOption → Bool
has_cell (pos n) = ltb n max_options
has_cell (negsuc n) = false

-- After `StoreOption`, `GetOption` reads the value at the option stored, if it has one of the 32
-- cells, and what it read before at any other.
pub get_option-store_option :
    (b : SocketBase) (o p : SocketOption) (v : ℤ)
    → get_option (store_option b o v) p ≡ (if eqb_ℤ o p && has_cell o then v else get_option b p)
unfolding get_option store_option option_index
get_option-store_option b (pos n) (pos m) v = ground arith
get_option-store_option b (pos n) (negsuc m) v = ground arith
get_option-store_option b (negsuc n) (pos m) v = ground arith
get_option-store_option b (negsuc n) (negsuc m) v = ground arith

-- A `timeval` of so many seconds and microseconds stands for these milliseconds, with the sign of
-- both parts, and fewer microseconds than a second has.
pub record IsMillis (value seconds micros : ℤ) : Type 0 where
  pub positive : pos_part seconds * 1000000 + pos_part micros ≡ pos_part value * 1000
  pub negative : neg_part seconds * 1000000 + neg_part micros ≡ neg_part value * 1000
  pub small : pos_part micros + neg_part micros < 1000000

-- The `timeval` of both timeout options is exactly the milliseconds asked for, of either sign.
pub timeout-IsMillis :
    (option : SocketOption) (value : ℤ)
    → (seconds : ℤ) × (micros : ℤ) × (timeout option value ≡ set_timeout option seconds micros)
      × IsMillis value seconds micros
unfolding timeout
timeout-IsMillis option value =
    (quot_ℤ value 1000, scale (rem_ℤ value 1000) 1000, refl, parts value)
  where
    parts : (v : ℤ) → IsMillis v (quot_ℤ v 1000) (scale (rem_ℤ v 1000) 1000)
    parts (pos n) = omega arith
    parts (negsuc n) = ground arith
