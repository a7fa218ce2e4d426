-- ===== src/Uv/Calls.antt =====
-- Counting calls: how often a handle is closed, how often a resolver's result is freed, and how many
-- requests libuv takes.
use sm_ext_socket.Base.{
  ℕ, ◌+◌, ◌≡◌, refl, sym, ap, append-nil, append_assoc, not, some, List, [], ◌∷◌, ◌++◌, map, arith,
  ◌==◌, if◌then◌else◌,
}
use sm_ext_socket.Base.Int.{nonzero}
use sm_ext_socket.SocketTypes.{GlobalOptions}
use sm_ext_socket.SocketBase.{SockOpt, apply_pending_options}
use sm_ext_socket.Uv.{
  UvCall, close, free_addrinfo, set_sock_opt, tcp_connect, udp_send, Uv, World, apply_options,
  close_once,
}

-- How often `uv_close` is called on a handle in these calls.
unfoldable pub closes : ℕ → List UvCall → ℕ
closes h [] = 0
closes h (close k ∷ cs) = (if k == h then 1 else 0) + closes h cs
closes h (_ ∷ cs) = closes h cs

pub closes-append : (h : ℕ) (cs ds : List UvCall) → closes h (cs ++ ds) ≡ closes h cs + closes h ds
unfolding closes
closes-append h [] ds = omega arith
closes-append h (close k ∷ cs) ds = omega (arith, closes-append h cs ds)
closes-append h (_ ∷ cs) ds = closes-append h cs ds

-- libuv says that a handle is closing exactly when it was closed before.
abbrev pub KnowsClosing : Uv → Type 0
KnowsClosing uv = (calls : List UvCall) (h : ℕ) → uv.is_closing calls h ≡ not (closes h calls == 0)

-- How often these calls free the result at a place.
unfoldable pub frees : ℕ → List UvCall → ℕ
frees p [] = 0
frees p (free_addrinfo q ∷ cs) = (if q == p then 1 else 0) + frees p cs
frees p (_ ∷ cs) = frees p cs

pub frees-append : (p : ℕ) (cs ds : List UvCall) → frees p (cs ++ ds) ≡ frees p cs + frees p ds
unfolding frees
frees-append p [] ds = omega arith
frees-append p (free_addrinfo q ∷ cs) ds = omega (arith, frees-append p cs ds)
frees-append p (_ ∷ cs) ds = frees-append p cs ds

frees-options :
    (p : ℕ) (cs : List (ℕ × SockOpt))
    → frees p (map (λ (c : ℕ × SockOpt). set_sock_opt c.0 c.1) cs) ≡ 0
unfolding frees
frees-options p [] = refl
frees-options p (c ∷ cs) = frees-options p cs

-- How many requests libuv takes in one of the two calls that take one of the code's: the answer 0 says
-- that it did.
unfoldable pub taken : Uv → List UvCall → UvCall → ℕ
taken uv before (tcp_connect h a) = if nonzero (uv.result before (tcp_connect h a)) then 0 else 1
taken uv before (udp_send h b a) = if nonzero (uv.result before (udp_send h b a)) then 0 else 1
taken uv before _ = 0

-- How many it takes in these calls, made after others.
unfoldable pub taken_in : Uv → (before : List UvCall) → List UvCall → ℕ
taken_in uv before [] = 0
taken_in uv before (c ∷ cs) = taken uv before c + taken_in uv (before ++ c ∷ []) cs

pub taken_in-append :
    (uv : Uv) (before cs ds : List UvCall)
    → taken_in uv before (cs ++ ds) ≡ taken_in uv before cs + taken_in uv (before ++ cs) ds
unfolding taken_in
taken_in-append uv before [] ds =
    omega (arith, ap (λ b. taken_in uv b ds) (sym (append-nil before)))
taken_in-append uv before (c ∷ cs) ds = omega (
  arith,
  taken_in-append uv (before ++ c ∷ []) cs ds,
  ap (λ b. taken_in uv b ds) (append_assoc before (c ∷ []) cs),
)

pub taken_in-snoc :
    (uv : Uv) (cs : List UvCall) (c : UvCall)
    → taken_in uv [] (cs ++ c ∷ []) ≡ taken_in uv [] cs + taken uv cs c
unfolding taken_in
taken_in-snoc uv cs c = omega (arith, taken_in-append uv [] cs (c ∷ []))

taken_in-options :
    (uv : Uv) (before : List UvCall) (cs : List (ℕ × SockOpt))
    → taken_in uv before (map (λ (c : ℕ × SockOpt). set_sock_opt c.0 c.1) cs) ≡ 0
unfolding taken_in taken
taken_in-options uv before [] = refl
taken_in-options uv before (c ∷ cs) =
    omega (arith, taken_in-options uv (before ++ set_sock_opt c.0 c.1 ∷ []) cs)

module _ {S J : Type 0} (uv : Uv) (g : GlobalOptions) where
  pub frees-apply_options :
      (p h : ℕ) (w : World S J) → frees p (apply_options uv g h w).calls ≡ frees p w.calls
  unfolding apply_options
  frees-apply_options p h w =
      let done = (apply_pending_options (uv.fileno w.calls) (some h) w.base).1 in
      omega (
        arith,
        frees-append p w.calls (map (λ (c : ℕ × SockOpt). set_sock_opt c.0 c.1) done),
        frees-options p done,
      )

  pub taken_in-apply_options :
      (h : ℕ) (w : World S J)
      → taken_in uv [] (apply_options uv g h w).calls ≡ taken_in uv [] w.calls
  unfolding apply_options
  taken_in-apply_options h w =
      let done = (apply_pending_options (uv.fileno w.calls) (some h) w.base).1 in
      omega (
        arith,
        taken_in-append uv [] w.calls (map (λ (c : ℕ × SockOpt). set_sock_opt c.0 c.1) done),
        taken_in-options uv w.calls done,
      )

  pub contexts-apply_options :
      (h : ℕ) (w : World S J) → (apply_options uv g h w).contexts ≡ w.contexts
  unfolding apply_options
  contexts-apply_options h w = refl

  -- `close_once` closes its handle if nobody has, and no other.
  pub closes-close_once :
      KnowsClosing uv
      → (h k : ℕ) (w : World S J)
      → closes h (close_once uv g k w).calls
        ≡ closes h w.calls + (if k == h then (if closes k w.calls == 0 then 1 else 0) else 0)
  unfolding close_once closes
  closes-close_once closing h k w =
      ground (arith, closing w.calls k, closes-append h w.calls (close k ∷ []))
