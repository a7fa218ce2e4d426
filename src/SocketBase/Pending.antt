-- ===== src/SocketBase/Pending.antt =====
-- The queue of options that wait for a handle: src/impl/socket/SocketBase.cpp.
use sm_ext_socket.Base.{
  ℕ, ◌≡◌, refl, ◌∙◌, ap, Option, none, some, List, [], ◌∷◌, ◌++◌, map, arith, if◌then◌else◌, ◌&&◌,
}
use sm_ext_socket.Base.Int.{ℤ, eqb_ℤ-refl}
use sm_ext_socket.SocketTypes.{SocketOption, PendingOption}
use sm_ext_socket.SocketBase.{
  SocketBase, SockOpt, sock_opt, get_option, store_option, queue_option, pending_calls,
  apply_pending_options,
}
use sm_ext_socket.SocketBase.Options.{has_cell, get_option-store_option}

-- The call for one option, if it has one.
abbrev pub call_of : SocketOption → ℤ → List SockOpt
call_of option value = elim (sock_opt option value) [ none ↦ [] | some call ↦ call ∷ [] ]

pub pending_calls-snoc :
    (ps : List PendingOption) (p : PendingOption)
    → pending_calls (ps ++ p ∷ []) ≡ pending_calls ps ++ call_of p.option p.value
unfolding pending_calls
pending_calls-snoc [] p = ground arith
pending_calls-snoc (q ∷ ps) p = ground (arith, pending_calls-snoc ps p)

pub pending-store_option :
    (b : SocketBase) (o : SocketOption) (v : ℤ)
    → (store_option b o v).pending_options ≡ b.pending_options
unfolding store_option
pending-store_option b o v = ground arith

get_option-pending :
    (b : SocketBase) (o : SocketOption) (ps : List PendingOption)
    → get_option (record b { pending_options = ps }) o ≡ get_option b o
unfolding get_option
get_option-pending b o ps = refl

-- An option queued on a socket reads back at once, and once the socket has a handle with descriptor
-- `fd` the calls are those of the options queued before, then its own, all on `fd`, and none waits
-- any more.
pub apply-queue_option :
    (b : SocketBase) (o : SocketOption) (v : ℤ) (fileno : ℕ → Option ℕ) (handle fd : ℕ)
    → fileno handle ≡ some fd
    → let (b', calls) = apply_pending_options fileno (some handle) (queue_option b o v) in
      (get_option b' o ≡ (if has_cell o then v else get_option b o))
      × (b'.pending_options ≡ [])
      × (calls ≡ map (λ call. (fd, call)) (pending_calls b.pending_options ++ call_of o v))
unfolding apply_pending_options queue_option
apply-queue_option b o v fileno handle fd e =
    rw (e, apply_pending_options)
      (
        get_option-pending (store_option b o v) o []
            ∙ get_option-store_option b o o v
            ∙ ap (λ t. if t && has_cell o then v else get_option b o) (eqb_ℤ-refl o),
        refl,
        rw (pending-store_option b o v) (
            ap (map (λ call. (fd, call)))
              (pending_calls-snoc b.pending_options (record { option = o; value = v }))),
      )

-- Where the handle has no descriptor, or there is no handle, every option goes on waiting and no call
-- is made.
pub apply_pending_options-keep :
    (b : SocketBase) (fileno : ℕ → Option ℕ) (handle : Option ℕ)
    → ((h : ℕ) → handle ≡ some h → fileno h ≡ none)
    → apply_pending_options fileno handle b ≡ (b, [])
unfolding apply_pending_options
apply_pending_options-keep b fileno none no_fd = refl
apply_pending_options-keep b fileno (some h) no_fd = rw (no_fd h refl, apply_pending_options)
