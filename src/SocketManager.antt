-- ===== src/SocketManager.antt =====
-- src/include/core/SocketManager.h and src/impl/core/SocketManager.cpp: the set of sockets, and the objects
-- on the heap. The model is generic in what a socket is, and in what its destructor and the event loop
-- act on, the environment.
pub mod Tracking
use sm_ext_socket.Base.{
  ℕ, ◌+◌, ◌==◌, Bool, true, false, Option, none, some, List, [], ◌∷◌, if◌then◌else◌,
}

-- `heap` gives the object at an address, `none` where there is none or it was deleted. `sockets` is the
-- set; its order is of no meaning. Address 0 is the null pointer.
pub record SocketManager (X E : Type 0) : Type 0 where
  pub sockets : List ℕ
  pub heap : ℕ → Option X
  pub next : ℕ
  pub env : E

abbrev pub erase : ℕ → List ℕ → List ℕ
erase p [] = []
erase p (q ∷ qs) = if q == p then qs else q ∷ erase p qs

-- What the manager calls: `MarkDeleted`, the destructor, and the two ends of the event loop.
pub record Lifecycle (X E : Type 0) : Type 0 where
  pub mark_deleted : X → X
  pub dispose : X → E → E
  pub start_loop : E → E
  pub stop_loop : E → E

module _ {X E : Type 0} (ops : Lifecycle X E) where
  unfoldable pub new_manager : E → SocketManager X E
  new_manager env = record { sockets = []; heap = λ _. none; next = 1; env = env }

  unfoldable pub start : SocketManager X E → SocketManager X E
  start m = record m { env = ops.start_loop m.env }

  unfoldable pub stop : SocketManager X E → SocketManager X E
  stop m = record m { env = ops.stop_loop m.env }

  -- `CreateSocket` with the new object.
  unfoldable pub create_socket : X → SocketManager X E → ℕ × SocketManager X E
  create_socket x m = (
    m.next,
    record m {
      sockets = m.next ∷ m.sockets;
      heap = λ p. if m.next == p then some x else m.heap p;
      next = m.next + 1;
    },
  )

  abbrev pub clear : (ℕ → Option X) → ℕ → ℕ → Option X
  clear heap p q = if p == q then none else heap q

  -- `delete`: the destructor runs, and the memory is free. `none` is a delete of no object.
  unfoldable pub delete_socket : ℕ → SocketManager X E → Option (SocketManager X E)
  delete_socket p m = elim (m.heap p) [
    | none ↦ none
    | some x ↦ some (record m { heap = clear m.heap p; env = ops.dispose x m.env })
  ]

  -- The object is marked before it is taken out of the set and deleted.
  unfoldable pub destroy_socket : ℕ → SocketManager X E → Option (SocketManager X E)
  unfolding delete_socket
  destroy_socket p m = if p == 0 then some m else elim (m.heap p) [
    | none ↦ none
    | some x ↦ delete_socket p (record m {
      heap = λ q. if p == q then some (ops.mark_deleted x) else m.heap q;
      sockets = erase p m.sockets;
    })
  ]

  unfoldable pub delete_all : List ℕ → SocketManager X E → Option (SocketManager X E)
  unfolding delete_socket
  delete_all [] m = some m
  delete_all (p ∷ ps) m = elim (delete_socket p m) [ none ↦ none | some m' ↦ delete_all ps m' ]

  unfoldable pub shutdown : SocketManager X E → Option (SocketManager X E)
  unfolding delete_all stop
  shutdown m = elim (delete_all m.sockets (stop m)) [
    | none ↦ none
    | some m' ↦ some (record m' { sockets = [] })
  ]

  -- The destructor.
  unfoldable pub destroy_manager : SocketManager X E → Option (SocketManager X E)
  unfolding shutdown
  destroy_manager m = elim m.sockets [ [] ↦ some m | p ∷ ps ↦ shutdown m ]
