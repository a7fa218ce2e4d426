-- ===== src/Spsc/Interleaving/Fifo.antt =====
-- In every interleaving the consumer receives what the producer sent, in order.
use sm_ext_socket.Base.{
  ℕ, ◌<◌, ◌≤◌, ◌≡◌, ◌≢◌, refl, sym, ap, ◌∙◌, List, [], ◌∷◌, ◌++◌, arith, length, length-append,
  subst, append_assoc,
}
use sm_ext_socket.Spsc.{
  IsCapacity, new, refresh_head, store, publish, refresh_tail, destroy, release,
}
use sm_ext_socket.Spsc.Layout.{Counters}
use sm_ext_socket.Spsc.Queue.{no_counts, new-Layout}
use sm_ext_socket.Spsc.Interleaving.{
  Producer, Consumer, Machine, Turn, produce, consume, start, producer_step, load_step,
  consumer_step, step, run,
}
use sm_ext_socket.Spsc.Interleaving.Invariant.{placed, taken, HasItem, Inv, Good}
use sm_ext_socket.Spsc.Interleaving.ProducerTurn.{producer_step-Good}
use sm_ext_socket.Spsc.Interleaving.ConsumerTurn.{consumer_step-Good}

module _ {ℓ} {A : Type ℓ} where
  step-Good : (t : Turn A) (m : Machine A) → Good m → Good (step t m)
  unfolding step
  step-Good (produce x) m (k, live, v) = producer_step-Good m.producer x m v
  step-Good consume m (k, live, v) = consumer_step-Good m.consumer m v

  run-Good : (ts : List (Turn A)) (m : Machine A) → Good m → Good (run ts m)
  unfolding run
  run-Good [] m v = v
  run-Good (t ∷ ts) m v = run-Good ts (step t m) (step-Good t m v)

  start-Good : (c : ℕ) → IsCapacity c → Good {A = A} (start c)
  unfolding start
  start-Good c valid = (
    no_counts,
    [],
    record {
      layout = new-Layout c valid;
      room = tt;
      available = tt;
      in_order = refl;
      all_sent = refl;
    },
  )

  -- A list that two lists begin, the shorter begins the longer.
  prefix_of :
      (a b c d : List A) → a ++ b ≡ c ++ d → length a ≤ length c → (r : List A) × (c ≡ a ++ r)
  prefix_of [] b c d e h = (c, refl)
  prefix_of (x ∷ a) b [] d e h = absurd (omega arith)
  prefix_of (x ∷ a) b (y ∷ c) d e h =
      let (r, f) = prefix_of a b c d (ground arith) (omega arith) in (r, ground arith)

  capacity-producer_step :
      (p : Producer A) (x : A) (m : Machine A)
      → (producer_step p x m).queue.capacity ≡ m.queue.capacity
  unfolding producer_step refresh_head store publish
  capacity-producer_step Producer.ready x m = ground arith
  capacity-producer_step _ x m = ground arith

  capacity-consumer_step :
      (p : Consumer A) (m : Machine A) → (consumer_step p m).queue.capacity ≡ m.queue.capacity
  unfolding consumer_step load_step refresh_tail destroy release
  capacity-consumer_step Consumer.ready m = ground arith
  capacity-consumer_step _ m = ground arith

  capacity-run : (ts : List (Turn A)) (m : Machine A) → (run ts m).queue.capacity ≡ m.queue.capacity
  unfolding run step
  capacity-run [] m = refl
  capacity-run (produce x ∷ ts) m =
      capacity-run ts (producer_step m.producer x m) ∙ capacity-producer_step m.producer x m
  capacity-run (consume ∷ ts) m =
      capacity-run ts (consumer_step m.consumer m) ∙ capacity-consumer_step m.consumer m

  -- Two threads that use a new queue of capacity `c` in any order: what the consumer has received is
  -- the first of what the producer has sent, in order, fewer than `c` items are on their way, and the
  -- consumer has never read a raw slot.
  pub run-fifo :
      (c : ℕ) (ts : List (Turn A))
      → IsCapacity c
      → let m = run ts (start c) in
        (rest : List A) × (m.sent ≡ m.received ++ rest)
        × (length rest < c)
        × (m.consumer ≢ Consumer.crashed)
  run-fifo c ts valid =
      let (k, live, v) = run-Good ts (start c) (start-Good c valid) in
      conclude (run ts (start c)) v (capacity-run ts (start c) ∙ unfold start new in refl)
    where
      conclude :
          (m : Machine A) {k : Counters} {live : List A}
          → Inv k live m.queue m.producer m.consumer m.sent m.received
          → m.queue.capacity ≡ c
          → (rest : List A) × (m.sent ≡ m.received ++ rest)
            × (length rest < c)
            × (m.consumer ≢ Consumer.crashed)
      conclude m {k} {live} v e =
          let order = v.in_order ∙ append_assoc m.received (taken m.consumer) live in
          let all_received : k.head ≡ length m.received = omega (
            arith,
            ap length order,
            length-append m.sent (placed m.producer),
            length-append m.received (taken m.consumer ++ live),
            length-append (taken m.consumer) live,
            v.all_sent,
            v.layout.count,
          ) in
          let (rest, split) =
            prefix_of m.received (taken m.consumer ++ live) m.sent (placed m.producer) (sym order)
              (omega arith) in
          let sizes = ap length split ∙ length-append m.received rest in
          (
            rest,
            split,
            omega arith,
            λ bad. subst (λ s. HasItem s k.head k.seen_tail) bad v.available,
          )
