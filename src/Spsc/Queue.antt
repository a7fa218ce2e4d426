-- ===== src/Spsc/Queue.antt =====
-- One thread at a time, the ring of src/include/lockfree/SPSCQueue.h is a bounded first-in
-- first-out list.
use sm_ext_socket.Base.{
  ℕ, ◌+◌, ◌-◌, ◌<◌, ◌≡◌, refl, inl, inr, Bool, true, false, List, [], ◌∷◌, ◌++◌, arith, ltb, lt→ltb,
  ge→ltb, ◌==◌, if◌then◌else◌, Bool-cases, length,
}
use sm_ext_socket.Spsc.{
  Spsc, IsCapacity, Taken, nothing, item, new, next_tail, refresh_head, store, publish,
  refresh_tail, destroy, release, try_enqueue, take_head, try_dequeue,
}
use sm_ext_socket.Spsc.Layout.{Counters, Layout, full_test, room_test, none_test, some_test}
use sm_ext_socket.Spsc.Steps.{
  refresh_head-Layout, refresh_tail-Layout, store-Layout, publish-Layout, head_item, destroy-Layout,
  release-Layout,
}

abbrev pub no_counts : Counters
no_counts = record { seen_head = 0; head = 0; seen_tail = 0; tail = 0 }

module _ {ℓ} {A : Type ℓ} where
  -- The promise: a list of fewer than `c` items.
  abbrev pub push : ℕ → List A → A → List A × Bool
  push c xs x = if ltb (length xs) (c - 1) then (xs ++ x ∷ [], true) else (xs, false)

  abbrev pub pop : List A → Taken A × List A
  pop [] = (nothing, [])
  pop (x ∷ xs) = (item x, xs)

  -- No access is under way, and the queue holds these items.
  abbrev pub Represents : Spsc A → List A → Type ℓ
  Represents q xs = (k : Counters) × Layout k 0 0 q xs

  pub new-Layout : (c : ℕ) → IsCapacity c → Layout {A = A} no_counts 0 0 (new c) []
  unfolding new
  new-Layout c valid = record {
    cap = valid;
    head_at = omega arith;
    tail_at = omega arith;
    seen_head_at = omega arith;
    seen_tail_at = omega arith;
    stale_head = omega arith;
    ahead = omega arith;
    stale_tail = omega arith;
    bounded = omega (arith, valid.big);
    count = omega arith;
    stored = tt;
    unused = λ i p r. refl;
  }

  pub new-Represents : (c : ℕ) → IsCapacity c → Represents (new c) []
  new-Represents c valid = (no_counts, new-Layout c valid)

  pub Represents-few : (q : Spsc A) (xs : List A) → Represents q xs → length xs < q.capacity
  Represents-few q xs (k, v) = omega (arith, v.count, v.bounded, v.stale_head)

  -- A result of `try_enqueue` on a queue of these items, as the promise has it.
  pub record Enqueued (q : Spsc A) (xs : List A) (x : A) (r : Spsc A × Bool) : Type ℓ where
    pub answer : r.1 ≡ (push q.capacity xs x).1
    pub same_capacity : r.0.capacity ≡ q.capacity
    pub holds : Represents r.0 (push q.capacity xs x).0

  -- The producer's two accesses after its test let it through.
  put-Enqueued :
      {k : Counters} {q : Spsc A} {xs : List A} (x : A)
      → Layout k 0 0 q xs
      → (next_tail q == q.cached_head) ≡ false
      → Enqueued q xs x (publish (store q x), true)
  put-Enqueued {k} {q} {xs} x v e = record {
    answer = rw fits;
    same_capacity = unfold publish store in refl;
    holds = rw fits (_, publish-Layout room (store-Layout x v));
  }
    where
      room : k.tail + 1 < k.seen_head + (store q x).capacity
      room = unfold store in room_test v e

      fits : ltb (length xs) (q.capacity - 1) ≡ true
      fits = lt→ltb _ _ (omega (arith, room_test v e))

  full-Enqueued :
      {k : Counters} {q : Spsc A} {xs : List A} (x : A)
      → Layout k 0 0 q xs
      → k.seen_head ≡ k.head
      → (next_tail q == q.cached_head) ≡ true
      → Enqueued q xs x (q, false)
  full-Enqueued {k} {q} {xs} x v fresh e = record {
    answer = rw full;
    same_capacity = refl;
    holds = rw full (k, v);
  }
    where
      full : ltb (length xs) (q.capacity - 1) ≡ false
      full = ge→ltb _ _ (omega (arith, full_test v e))

  refreshed-Enqueued :
      (q : Spsc A) (xs : List A) (x : A) (r : Spsc A × Bool)
      → Enqueued (refresh_head q) xs x r
      → Enqueued q xs x r
  unfolding refresh_head
  refreshed-Enqueued q xs x r h = record {
    answer = h.answer;
    same_capacity = h.same_capacity;
    holds = h.holds;
  }

  -- `try_enqueue` appends its item and answers true if fewer than `Capacity - 1` items are queued,
  -- and else answers false and leaves them as they were.
  pub try_enqueue-Enqueued :
      (q : Spsc A) (xs : List A) (x : A) → Represents q xs → Enqueued q xs x (try_enqueue q x)
  unfolding try_enqueue
  try_enqueue-Enqueued q xs x (k, v) = elim (Bool-cases (next_tail q == q.cached_head)) [
    | inr room ↦ rw (room, try_enqueue) (put-Enqueued x v room)
    | inl stale ↦ elim (Bool-cases (next_tail (refresh_head q) == (refresh_head q).cached_head)) [
      | inr room ↦
          rw (stale, room, try_enqueue)
            (refreshed-Enqueued q xs x _ (put-Enqueued x (refresh_head-Layout v) room))
      | inl full ↦
          rw (stale, full, try_enqueue)
            (refreshed-Enqueued q xs x _ (full-Enqueued x (refresh_head-Layout v) refl full))
    ]
  ]

  -- A result of `try_dequeue` on a queue of these items, as the promise has it.
  pub record Dequeued (q : Spsc A) (xs : List A) (r : Taken A × Spsc A) : Type ℓ where
    pub answer : r.0 ≡ (pop xs).0
    pub same_capacity : r.1.capacity ≡ q.capacity
    pub holds : Represents r.1 (pop xs).1

  take-Dequeued :
      {k : Counters} {q : Spsc A} (xs : List A)
      → Layout k 0 0 q xs
      → (q.head == q.cached_tail) ≡ false
      → Dequeued q xs (take_head (q.slots q.head) q)
  take-Dequeued [] v e = absurd (omega (arith, some_test v e))
  take-Dequeued {k} {q} (x ∷ rest) v e = rw (head_item v) (record {
    answer = unfold take_head in refl;
    same_capacity = unfold take_head release destroy in refl;
    holds =
        unfold take_head in (_, release-Layout (some_test v e) (destroy-Layout v (omega arith)));
  })

  none-Dequeued :
      {k : Counters} {q : Spsc A} (xs : List A)
      → Layout k 0 0 q xs
      → k.seen_tail ≡ k.tail
      → (q.head == q.cached_tail) ≡ true
      → Dequeued q xs (nothing, q)
  none-Dequeued {k} {q} [] v fresh e = record {
    answer = refl;
    same_capacity = refl;
    holds = (k, v);
  }
  none-Dequeued (x ∷ rest) v fresh e = absurd (omega (arith, none_test v e))

  refreshed-Dequeued :
      (q : Spsc A) (xs : List A) (r : Taken A × Spsc A)
      → Dequeued (refresh_tail q) xs r
      → Dequeued q xs r
  unfolding refresh_tail
  refreshed-Dequeued q xs r h = record {
    answer = h.answer;
    same_capacity = h.same_capacity;
    holds = h.holds;
  }

  -- `try_dequeue` takes the oldest item, finds nothing exactly when none is queued, and never reads
  -- a raw slot.
  pub try_dequeue-Dequeued :
      (q : Spsc A) (xs : List A) → Represents q xs → Dequeued q xs (try_dequeue q)
  unfolding try_dequeue
  try_dequeue-Dequeued q xs (k, v) = elim (Bool-cases (q.head == q.cached_tail)) [
    | inr left ↦ rw (left, try_dequeue) (take-Dequeued xs v left)
    | inl stale ↦ elim (Bool-cases ((refresh_tail q).head == (refresh_tail q).cached_tail)) [
      | inr left ↦
          rw (stale, left, try_dequeue)
            (refreshed-Dequeued q xs _ (take-Dequeued xs (refresh_tail-Layout v) left))
      | inl none ↦
          rw (stale, none, try_dequeue)
            (refreshed-Dequeued q xs _ (none-Dequeued xs (refresh_tail-Layout v) refl none))
    ]
  ]
