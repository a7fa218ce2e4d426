-- ===== src/Spsc/Interleaving/ProducerTurn.antt =====
-- A turn of the producer keeps the invariant of the interleavings.
use sm_ext_socket.Base.{
  sym, ap, ◌∙◌, inl, inr, List, [], ◌∷◌, ◌++◌, append_assoc, append-nil, arith, ◌==◌, Bool-cases,
  length-append,
}
use sm_ext_socket.Spsc.{next_tail, refresh_head, store}
use sm_ext_socket.Spsc.Layout.{Counters, room_test}
use sm_ext_socket.Spsc.Steps.{refresh_head-Layout, store-Layout, publish-Layout}
use sm_ext_socket.Spsc.Interleaving.{Producer, Machine, producer_step}
use sm_ext_socket.Spsc.Interleaving.Invariant.{taken, Inv, Good}

module _ {ℓ} {A : Type ℓ} where
  -- The producer's turn, at each place that it can stand at.
  pub producer_step-Good :
      (p : Producer A) (x : A) {k : Counters} {live : List A} (m : Machine A)
      → Inv k live m.queue p m.consumer m.sent m.received
      → Good (producer_step p x m)
  unfolding producer_step
  producer_step-Good Producer.ready x {k} {live} m v =
      elim (Bool-cases (next_tail m.queue == m.queue.cached_head)) [
        | inl full ↦
            rw (full, producer_step)
              (
                k,
                live,
                record {
                  layout = v.layout;
                  room = tt;
                  available = v.available;
                  in_order = v.in_order;
                  all_sent = v.all_sent;
                },
              )
        | inr free ↦
            rw (free, producer_step)
              (
                k,
                live,
                record {
                  layout = v.layout;
                  room = room_test v.layout free;
                  available = v.available;
                  in_order = v.in_order;
                  all_sent = v.all_sent;
                },
              )
      ]
  producer_step-Good (Producer.reload y) x {k} {live} m v =
      let w = refresh_head-Layout v.layout in
      elim (Bool-cases (next_tail (refresh_head m.queue) == (refresh_head m.queue).cached_head)) [
        | inl full ↦
            rw (full, producer_step)
              (
                _,
                live,
                record {
                  layout = w;
                  room = tt;
                  available = v.available;
                  in_order = v.in_order;
                  all_sent = v.all_sent;
                },
              )
        | inr free ↦
            rw (free, producer_step)
              (
                _,
                live,
                record {
                  layout = w;
                  room = room_test w free;
                  available = v.available;
                  in_order = v.in_order;
                  all_sent = v.all_sent;
                },
              )
      ]
  producer_step-Good (Producer.construct y) x {k} {live} m v = (
    k,
    live ++ y ∷ [],
    record {
      layout = store-Layout y v.layout;
      room = unfold store in v.room;
      available = v.available;
      in_order =
          ap (λ l. l ++ y ∷ []) (sym (append-nil m.sent) ∙ v.in_order)
          ∙ append_assoc (m.received ++ taken m.consumer) live (y ∷ []);
      all_sent = v.all_sent;
    },
  )
  producer_step-Good (Producer.announce y) x {k} {live} m v = (
    _,
    live,
    record {
      layout = publish-Layout v.room v.layout;
      room = tt;
      available = v.available;
      in_order = append-nil (m.sent ++ y ∷ []) ∙ v.in_order;
      all_sent = omega (arith, length-append m.sent (y ∷ []), v.all_sent);
    },
  )
