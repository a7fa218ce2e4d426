-- ===== src/Spsc/Steps.antt =====
-- Each access of the two threads to the ring of src/include/lockfree/SPSCQueue.h keeps its layout.
use sm_ext_socket.Base.{
  ℕ, suc, ◌+◌, ◌%◌, ◌≤◌, ◌<◌, ◌≡◌, subst, List, ◌∷◌, [], ◌++◌, none, some, arith, add-zero,
  length-append,
}
use sm_ext_socket.Spsc.{Spsc, update, refresh_head, store, publish, refresh_tail, destroy, release}
use sm_ext_socket.Spsc.Window.{Stored, Stored-extend, Stored-shrink, Raw-extend, Raw-shrink}
use sm_ext_socket.Spsc.Layout.{Counters, Layout, masked-mod}

module _ {ℓ} {A : Type ℓ} {k : Counters} {q : Spsc A} {live : List A} where
  pub refresh_head-Layout :
      {taken placed : ℕ}
      → Layout k taken placed q live
      → Layout (record k { seen_head = k.head }) taken placed (refresh_head q) live
  unfolding refresh_head
  refresh_head-Layout v = record {
    cap = v.cap;
    head_at = v.head_at;
    tail_at = v.tail_at;
    seen_head_at = v.head_at;
    seen_tail_at = v.seen_tail_at;
    stale_head = omega arith;
    ahead = v.ahead;
    stale_tail = v.stale_tail;
    bounded = omega arith;
    count = v.count;
    stored = v.stored;
    unused = v.unused;
  }

  pub refresh_tail-Layout :
      {taken placed : ℕ}
      → Layout k taken placed q live
      → Layout (record k { seen_tail = k.tail }) taken placed (refresh_tail q) live
  unfolding refresh_tail
  refresh_tail-Layout v = record {
    cap = v.cap;
    head_at = v.head_at;
    tail_at = v.tail_at;
    seen_head_at = v.seen_head_at;
    seen_tail_at = v.tail_at;
    stale_head = v.stale_head;
    ahead = omega arith;
    stale_tail = omega arith;
    bounded = v.bounded;
    count = v.count;
    stored = v.stored;
    unused = v.unused;
  }

  pub store-Layout :
      {taken : ℕ} (x : A) → Layout k taken 0 q live → Layout k taken 1 (store q x) (live ++ x ∷ [])
  unfolding store
  store-Layout {taken} x v = record {
    cap = v.cap;
    head_at = v.head_at;
    tail_at = v.tail_at;
    seen_head_at = v.seen_head_at;
    seen_tail_at = v.seen_tail_at;
    stale_head = v.stale_head;
    ahead = v.ahead;
    stale_tail = v.stale_tail;
    bounded = v.bounded;
    count = omega (arith, length-append live (x ∷ []));
    stored = rw v.tail_at (
        Stored-extend q.slots q.capacity (k.head + taken) k.tail x live (omega arith) (omega arith)
          v.stored);
    unused = rw v.tail_at (λ i p.
        Raw-extend q.slots q.capacity k.tail (k.head + taken + q.capacity) (some x) (omega arith)
          (λ j r. v.unused j (omega arith)) i (omega arith));
  }

  -- A publish moves the tail over the item that was stored, if a slot stays free.
  pub publish-Layout :
      {taken : ℕ}
      → k.tail + 1 < k.seen_head + q.capacity
      → Layout k taken 1 q live
      → Layout (record k { tail = suc k.tail }) taken 0 (publish q) live
  unfolding publish
  publish-Layout {taken} room v = record {
    cap = v.cap;
    head_at = v.head_at;
    tail_at = masked-mod q k.tail q.tail v.cap v.tail_at;
    seen_head_at = v.seen_head_at;
    seen_tail_at = v.seen_tail_at;
    stale_head = v.stale_head;
    ahead = v.ahead;
    stale_tail = omega arith;
    bounded = omega arith;
    count = omega arith;
    stored = v.stored;
    unused = λ i p. v.unused i (omega arith);
  }

  -- A release moves the head over the item that was destroyed, if the consumer has seen it published.
  pub release-Layout :
      {placed : ℕ}
      → k.head < k.seen_tail
      → Layout k 1 placed q live
      → Layout (record k { head = suc k.head }) 0 placed (release q) live
  unfolding release
  release-Layout {placed} seen v = record {
    cap = v.cap;
    head_at = masked-mod q k.head q.head v.cap v.head_at;
    tail_at = v.tail_at;
    seen_head_at = v.seen_head_at;
    seen_tail_at = v.seen_tail_at;
    stale_head = omega arith;
    ahead = seen;
    stale_tail = v.stale_tail;
    bounded = v.bounded;
    count = omega arith;
    stored = subst (λ n. Stored q.slots q.capacity n live) (omega arith) v.stored;
    unused = λ i p r. v.unused i p (omega arith);
  }

module _ {ℓ} {A : Type ℓ} {k : Counters} {q : Spsc A} {placed : ℕ} {x : A} {rest : List A}
    (v : Layout k 0 placed q (x ∷ rest)) where
  -- The consumer finds the first live item in the slot at `head`.
  pub head_item : q.slots q.head ≡ some x
  head_item =
      rw v.head_at (subst (λ n. q.slots (n % q.capacity) ≡ some x) (add-zero k.head) v.stored.0)

  pub destroy-Layout : placed ≤ 1 → Layout k 1 placed (destroy q) rest
  unfolding destroy
  destroy-Layout few = record {
    cap = v.cap;
    head_at = v.head_at;
    tail_at = v.tail_at;
    seen_head_at = v.seen_head_at;
    seen_tail_at = v.seen_tail_at;
    stale_head = v.stale_head;
    ahead = v.ahead;
    stale_tail = v.stale_tail;
    bounded = v.bounded;
    count = omega arith;
    stored = rw v.head_at (
        subst (λ n. Stored (update q.slots (k.head % q.capacity) none) q.capacity n rest)
          (omega arith)
          (Stored-shrink q.slots q.capacity k.head rest (omega arith)
            (subst (λ n. Stored q.slots q.capacity n rest) (omega arith) v.stored.1)));
    unused = rw v.head_at (λ i p r.
        Raw-shrink q.slots q.capacity (k.tail + placed) k.head (λ j a b. v.unused j a (omega arith))
          i p (omega arith));
  }
