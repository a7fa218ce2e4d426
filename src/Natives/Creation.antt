-- ===== src/Natives/Creation.antt =====
-- `SocketCreate` of src/natives/socket_natives.cpp, on the socket manager.
use sm_ext_socket.Base.{
  ℕ, ◌≡◌, refl, true, false, Option, none, some, List, ◌==◌, arith, if◌then◌else◌, ◌⊎◌, inl, inr,
  Bool-cases, Option-cases, ◌∙◌,
}
use sm_ext_socket.Base.Int.{ℤ, pos, nonzero, eqb_ℤ}
use sm_ext_socket.Base.Text.{codes}
use sm_ext_socket.SocketTypes.{SocketType}
use sm_ext_socket.SocketManager.{Lifecycle, SocketManager, create_socket, destroy_socket}
use sm_ext_socket.SocketManager.Tracking.{Tracked, create_socket-Tracked, destroy_socket-Tracked}
use sm_ext_socket.Natives.{Answer, returned, thrown}

-- `CreateHandle` of SourceMod for the socket at an address: 0 if it fails, and then an error's text.
pub record Handles (E : Type 0) : Type 0 where
  pub create_handle : ℕ → E → ℤ × E
  pub failure : ℕ → E → List ℕ

abbrev pub type_of : ℤ → Option SocketType
type_of type =
    if eqb_ℤ type (pos 1)
    then some SocketType.tcp
    else if eqb_ℤ type (pos 2)
    then some SocketType.udp
    else if eqb_ℤ type (pos 3)
    then some SocketType.unix
    else none

module _ {X E : Type 0} (ops : Lifecycle X E) (handles : Handles E) (object : SocketType → X)
    (set_handle : ℤ → X → X) where
  abbrev pub put : ℕ → X → (ℕ → Option X) → ℕ → Option X
  put p x heap q = if p == q then some x else heap q

  -- The new socket of this type gets a handle, or is destroyed again.
  unfoldable pub create_of_type :
      SocketType → SocketManager X E → Option (Answer × SocketManager X E)
  create_of_type type m =
      let (p, m1) = create_socket ops (object type) m in
      let (handle, env) = handles.create_handle p m1.env in
      let m2 : SocketManager X E = record m1 { env = env } in
      if nonzero handle
      then some
          (returned handle, record m2 { heap = put p (set_handle handle (object type)) m2.heap })
      else elim (destroy_socket ops p m2) [
        | none ↦ none
        | some m3 ↦ some (thrown (handles.failure p m1.env), m3)
      ]

  unfoldable pub socket_create : ℤ → SocketManager X E → Option (Answer × SocketManager X E)
  unfolding create_of_type
  socket_create type m = elim (type_of type) [
    | none ↦ some (thrown (codes "Invalid protocol specified"), m)
    | some t ↦ create_of_type t m
  ]

  -- What creation comes to: a handle and its object on the heap, or an error and the heap as it was.
  abbrev pub Created : ℤ → SocketManager X E → Answer → SocketManager X E → Type 0
  Created type m a m' =
      ((t : SocketType) × (h : ℤ) × (a ≡ returned h)
        × (type_of type ≡ some t)
        × (h ≡ (handles.create_handle m.next m.env).0)
        × (nonzero h ≡ true)
        × ((q : ℕ) → m'.heap q ≡ put m.next (set_handle h (object t)) m.heap q))
      ⊎ ((text : List ℕ) × (a ≡ thrown text)
          × ((type_of type ≡ none) ⊎ (nonzero (handles.create_handle m.next m.env).0 ≡ false))
          × ((q : ℕ) → m'.heap q ≡ m.heap q))

  put-Tracked :
      (p : ℕ) (x y : X) (m : SocketManager X E)
      → m.heap p ≡ some x
      → Tracked m
      → Tracked (record m { heap = put p y m.heap })
  put-Tracked p x y m there t = record {
    same = λ q. ground (arith, t.same q, there);
    unused = λ q h. ground (arith, t.unused q h, there);
    null = ground (arith, t.null, there);
    begun = t.begun;
  }

  create_of_type-Tracked :
      (type : ℤ) (t : SocketType) (m : SocketManager X E)
      → type_of type ≡ some t
      → Tracked m
      → (a : Answer) × (m' : SocketManager X E) × (create_of_type t m ≡ some (a, m'))
        × Tracked m'
        × Created type m a m'
  unfolding create_of_type create_socket
  create_of_type-Tracked type t m known tracked =
      let (p, m1) = create_socket ops (object t) m in
      let tracked1 : Tracked m1 = create_socket-Tracked ops (object t) m tracked in
      let (handle, env) = handles.create_handle p m1.env in
      let m2 : SocketManager X E = record m1 { env = env } in
      let tracked2 : Tracked m2 = record {
        same = tracked1.same;
        unused = tracked1.unused;
        null = tracked1.null;
        begun = tracked1.begun;
      } in
      let there : m2.heap p ≡ some (object t) = ground arith in
      elim (Bool-cases (nonzero handle)) [
        | inl good ↦ (
          returned handle,
          record m2 { heap = put p (set_handle handle (object t)) m2.heap },
          rw (good, create_of_type) refl,
          put-Tracked p (object t) (set_handle handle (object t)) m2 there tracked2,
          inl (t, handle, refl, known, refl, good, λ q. ground arith),
        )
        | inr failed ↦
            let (m3, destroyed, tracked3, heap, _) =
              destroy_socket-Tracked ops p (object t) m2 tracked2 there in
            (
              thrown (handles.failure p m1.env),
              m3,
              rw (failed, destroyed, create_of_type) refl,
              tracked3,
              inr (_, refl, inr failed, λ q. heap q ∙ ground (arith, tracked.unused m.next)),
            )
      ]

  -- Whatever type is asked for, and whether or not SourceMod makes a handle, creation gives an answer and
  -- the set stays that of the objects on the heap. A type that is not one of the three, or a handle
  -- that fails, throws and leaves the heap as it was; else the answer is the handle, and one new
  -- object of that type, which holds it, is on the heap.
  pub socket_create-Tracked :
      (type : ℤ) (m : SocketManager X E)
      → Tracked m
      → (a : Answer) × (m' : SocketManager X E) × (socket_create type m ≡ some (a, m'))
        × Tracked m'
        × Created type m a m'
  unfolding socket_create
  socket_create-Tracked type m tracked = elim (Option-cases (type_of type)) [
    | inl unknown ↦ (
      thrown (codes "Invalid protocol specified"),
      m,
      rw (unknown, socket_create) refl,
      tracked,
      inr (_, refl, inl unknown, λ q. refl),
    )
    | inr (t, known) ↦
        let (a, m', run, kept, made) = create_of_type-Tracked type t m known tracked in
        (a, m', rw (known, socket_create) run, kept, made)
  ]
