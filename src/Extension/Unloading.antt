-- ===== src/Extension/Unloading.antt =====
-- What unloading the extension of src/extension.cpp leaves.
use sm_ext_socket.Base.{
  ℕ, ◌≡◌, ◌≢◌, refl, ◌∙◌, false, none, some, List, [], ◌∷◌, All, ◌==◌, if◌then◌else◌, arith,
}
use sm_ext_socket.SocketManager.{SocketManager, Lifecycle}
use sm_ext_socket.SocketManager.Tracking.{Tracked, destroy_socket-Tracked, shutdown-clear}
use sm_ext_socket.Extension.{Extension, on_handle_destroy, remove_type, on_unload}

-- No address twice.
abbrev pub Distinct : List ℕ → Type 0
Distinct [] = Unit
Distinct (p ∷ ps) = All (λ q. p ≢ q) ps × Distinct ps

abbrev pub OnHeap : {X E : Type 0} → SocketManager X E → ℕ → Type 0
OnHeap {X} m p = (x : X) × (m.heap p ≡ some x)

module _ {X E : Type 0} (ops : Lifecycle X E) where
  OnHeap-rest :
      (p : ℕ) (ps : List ℕ) (m m' : SocketManager X E)
      → ((q : ℕ) → m'.heap q ≡ (if p == q then none else m.heap q))
      → All (λ q. p ≢ q) ps
      → All (OnHeap m) ps
      → All (OnHeap m') ps
  OnHeap-rest p [] m m' heap other there = tt
  OnHeap-rest p (q ∷ qs) m m' heap (ne, other) ((x, at), there) =
      ((x, heap q ∙ ground (arith, ne, at)), OnHeap-rest p qs m m' heap other there)

  remove_type-Tracked :
      (ps : List ℕ) (m : SocketManager X E)
      → Tracked m
      → Distinct ps
      → All (OnHeap m) ps
      → (m' : SocketManager X E) × (remove_type ops ps m ≡ some m') × Tracked m'
  unfolding remove_type on_handle_destroy
  remove_type-Tracked [] m t distinct there = (m, refl, t)
  remove_type-Tracked (p ∷ ps) m t (other, distinct) ((x, at), there) =
      let (m1, run, t1, heap, _) = destroy_socket-Tracked ops p x m t at in
      let (m', rest, t') =
        remove_type-Tracked ps m1 t1 distinct (OnHeap-rest p ps m m1 heap other there) in
      let null : (p == 0) ≡ false = ground (arith, t.null, at) in
      (m', rw (null, run, remove_type, on_handle_destroy) rest, t')

  -- If the set holds each object on the heap once, and the handles that are open are of objects on the
  -- heap, one each: unloading deletes every socket, with a handle or without, and none twice. No
  -- handle, no socket and no frame hook is left.
  pub on_unload-clear :
      (e : Extension X E)
      → Tracked e.manager
      → Distinct e.objects
      → All (OnHeap e.manager) e.objects
      → (e' : Extension X E) × (on_unload ops e ≡ some e')
        × (e'.hooked ≡ false)
        × (e'.objects ≡ [])
        × (e'.manager.sockets ≡ [])
        × ((p : ℕ) → e'.manager.heap p ≡ none)
  unfolding on_unload
  on_unload-clear e t distinct there =
      let (m, removed, t') = remove_type-Tracked e.objects e.manager t distinct there in
      let (m', done, empty, clear) = shutdown-clear ops m t' in
      (
        record e { hooked = false; objects = []; manager = m' },
        rw (removed, done, on_unload) refl,
        refl,
        refl,
        empty,
        clear,
      )
