-- ===== src/SocketManager/Tracking.antt =====
-- The set of src/impl/core/SocketManager.cpp holds each object on the heap, once.
use sm_ext_socket.Base.{
  ℕ, ◌+◌, ◌-◌, ◌≤◌, ◌<◌, ◌≡◌, refl, ◌==◌, Option, none, some, List, [], ◌∷◌, if◌then◌else◌, arith,
  Option-cases, inl, inr,
}
use sm_ext_socket.SocketManager.{
  Lifecycle, SocketManager, erase, clear, create_socket, delete_socket, destroy_socket, delete_all,
  shutdown, stop,
}

abbrev pub count : ℕ → List ℕ → ℕ
count p [] = 0
count p (q ∷ qs) = (if q == p then 1 else 0) + count p qs

abbrev pub held : {X : Type 0} → Option X → ℕ
held none = 0
held (some x) = 1

-- An address is in the set once if there is an object at it, and else not at all.
pub record Tracked {X E : Type 0} (m : SocketManager X E) : Type 0 where
  pub same : (p : ℕ) → count p m.sockets ≡ held (m.heap p)
  pub unused : (p : ℕ) → m.next ≤ p → m.heap p ≡ none
  pub null : m.heap 0 ≡ none
  pub begun : 0 < m.next

count-erase :
    (p q : ℕ) (xs : List ℕ) → count q (erase p xs) ≡ count q xs - (if p == q then 1 else 0)
count-erase p q [] = ground arith
count-erase p q (x ∷ xs) = ground (arith, count-erase p q xs)

module _ {X E : Type 0} (ops : Lifecycle X E) where
  pub create_socket-Tracked :
      (x : X) (m : SocketManager X E) → Tracked m → Tracked (create_socket ops x m).1
  unfolding create_socket
  create_socket-Tracked x m t = record {
    same = λ p. ground (arith, t.same p, t.unused m.next);
    unused = λ p h. ground (arith, t.unused p);
    null = ground (arith, t.null, t.begun);
    begun = omega arith;
  }

  -- If the set holds each object on the heap once, destroying a socket that is there marks it, runs its
  -- destructor, and takes it, and no other, out of the set and off the heap.
  pub destroy_socket-Tracked :
      (p : ℕ) (x : X) (m : SocketManager X E)
      → Tracked m
      → m.heap p ≡ some x
      → (m' : SocketManager X E) × (destroy_socket ops p m ≡ some m')
        × Tracked m'
        × ((q : ℕ) → m'.heap q ≡ (if p == q then none else m.heap q))
        × (m'.env ≡ ops.dispose (ops.mark_deleted x) m.env)
  unfolding destroy_socket delete_socket
  destroy_socket-Tracked p x m t there = (
    record m {
      sockets = erase p m.sockets;
      heap = clear ops (λ q. if p == q then some (ops.mark_deleted x) else m.heap q) p;
      env = ops.dispose (ops.mark_deleted x) m.env;
    },
    ground (arith, t.null),
    record {
      same = λ q. ground (arith, t.same q, count-erase p q m.sockets);
      unused = λ q h. ground (arith, t.unused q);
      null = ground (arith, t.null);
      begun = t.begun;
    },
    λ q. ground arith,
    refl,
  )

  delete_all-clear :
      (ps : List ℕ) (m : SocketManager X E)
      → ((p : ℕ) → count p ps ≡ held (m.heap p))
      → (m' : SocketManager X E) × (delete_all ops ps m ≡ some m') × ((p : ℕ) → m'.heap p ≡ none)
  unfolding delete_all delete_socket
  delete_all-clear [] m same = (m, refl, λ p. ground (arith, same p))
  delete_all-clear (p ∷ ps) m same = elim (Option-cases (m.heap p)) [
    | inl gone ↦ absurd (ground (arith, same p))
    | inr (x, there) ↦
        let m1 : SocketManager X E = record m {
          heap = clear ops m.heap p;
          env = ops.dispose x m.env;
        } in
        let (m', done, empty) = delete_all-clear ps m1 (λ q. ground (arith, same q, same p)) in
        (m', rw (there, delete_all, delete_socket) done, empty)
  ]

  -- If the set holds each object on the heap once, `Shutdown` stops the loop and deletes every object,
  -- each once: none is left, and the set is empty.
  pub shutdown-clear :
      (m : SocketManager X E)
      → Tracked m
      → (m' : SocketManager X E) × (shutdown ops m ≡ some m')
        × (m'.sockets ≡ [])
        × ((p : ℕ) → m'.heap p ≡ none)
  unfolding shutdown stop
  shutdown-clear m t =
      let (m', done, empty) = delete_all-clear m.sockets (stop ops m) t.same in
      (record m' { sockets = [] }, rw (done, shutdown), refl, empty)
