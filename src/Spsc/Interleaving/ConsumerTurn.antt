-- ===== src/Spsc/Interleaving/ConsumerTurn.antt =====
-- A turn of the consumer keeps the invariant of the interleavings.
use sm_ext_socket.Base.{
  ◌≤◌, sym, ap, ◌∙◌, inl, inr, List, [], ◌∷◌, ◌++◌, append_assoc, append-nil, arith, ◌==◌,
  Bool-cases, length,
}
use sm_ext_socket.Spsc.{refresh_tail, destroy, release}
use sm_ext_socket.Spsc.Layout.{Counters, some_test}
use sm_ext_socket.Spsc.Steps.{refresh_tail-Layout, head_item, destroy-Layout, release-Layout}
use sm_ext_socket.Spsc.Interleaving.{Producer, Consumer, Machine, load_step, consumer_step}
use sm_ext_socket.Spsc.Interleaving.Invariant.{placed, Inv, Good}

module _ {ℓ} {A : Type ℓ} where
  placed-le-one : (p : Producer A) → length (placed p) ≤ 1
  placed-le-one Producer.ready = omega arith
  placed-le-one _ = omega arith

  load_step-Good :
      {k : Counters} {live : List A} (m : Machine A)
      → Inv k live m.queue m.producer Consumer.load m.sent m.received
      → Good (load_step (m.queue.slots m.queue.head) m)
  unfolding load_step
  load_step-Good {k} {live = []} m v =
      absurd (omega (arith, v.available, v.layout.count, v.layout.stale_tail, v.all_sent))
  load_step-Good {k} {live = x ∷ rest} m v = rw (head_item v.layout) (
    k,
    rest,
    record {
      layout = destroy-Layout v.layout (placed-le-one m.producer);
      room = unfold destroy in v.room;
      available = v.available;
      in_order = v.in_order ∙ simp (append-nil, append_assoc);
      all_sent = v.all_sent;
    },
  )

  -- The consumer's turn.
  pub consumer_step-Good :
      (c : Consumer A) {k : Counters} {live : List A} (m : Machine A)
      → Inv k live m.queue m.producer c m.sent m.received
      → Good (consumer_step c m)
  unfolding consumer_step
  consumer_step-Good Consumer.ready {k} {live} m v =
      elim (Bool-cases (m.queue.head == m.queue.cached_tail)) [
        | inl none_left ↦
            rw (none_left, consumer_step)
              (
                k,
                live,
                record {
                  layout = v.layout;
                  room = v.room;
                  available = tt;
                  in_order = v.in_order;
                  all_sent = v.all_sent;
                },
              )
        | inr some_left ↦
            rw (some_left, consumer_step)
              (
                k,
                live,
                record {
                  layout = v.layout;
                  room = v.room;
                  available = some_test v.layout some_left;
                  in_order = v.in_order;
                  all_sent = v.all_sent;
                },
              )
      ]
  consumer_step-Good Consumer.reload {k} {live} m v =
      let w = refresh_tail-Layout v.layout in
      elim (Bool-cases ((refresh_tail m.queue).head == (refresh_tail m.queue).cached_tail)) [
        | inl none_left ↦
            rw (none_left, consumer_step)
              (
                _,
                live,
                record {
                  layout = w;
                  room = unfold refresh_tail in v.room;
                  available = tt;
                  in_order = v.in_order;
                  all_sent = v.all_sent;
                },
              )
        | inr some_left ↦
            rw (some_left, consumer_step)
              (
                _,
                live,
                record {
                  layout = w;
                  room = unfold refresh_tail in v.room;
                  available = some_test w some_left;
                  in_order = v.in_order;
                  all_sent = v.all_sent;
                },
              )
      ]
  consumer_step-Good Consumer.load m v = load_step-Good m v
  consumer_step-Good (Consumer.give_back x) {k} {live} m v = (
    _,
    live,
    record {
      layout = release-Layout v.available v.layout;
      room = unfold release in v.room;
      available = tt;
      in_order = v.in_order ∙ ap (λ l. l ++ live) (sym (append-nil (m.received ++ x ∷ [])));
      all_sent = v.all_sent;
    },
  )
  consumer_step-Good Consumer.crashed m v = absurd v.available
