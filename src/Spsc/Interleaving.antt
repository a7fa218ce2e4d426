-- ===== src/Spsc/Interleaving.antt =====
-- src/include/lockfree/SPSCQueue.h under two threads: `try_enqueue` and `try_dequeue` cut at every
-- access to an index of the other thread, in any order. The release stores and acquire loads of the
-- code make a schedule of these accesses, one after the other, what the threads can observe.
pub mod Invariant
pub mod ProducerTurn
pub mod ConsumerTurn
pub mod Fifo
use sm_ext_socket.Base.{
  ℕ, ◌+◌, Bool, true, false, Option, none, some, List, [], ◌∷◌, ◌++◌, ◌==◌, if◌then◌else◌,
}
use sm_ext_socket.Spsc.{
  Spsc, new, next_tail, refresh_head, store, publish, refresh_tail, destroy, release,
}

-- Where the producer stands in `try_enqueue`, with the item that it was called with.
pub data Producer {ℓ} (A : Type ℓ) : Type ℓ where
  ready : Producer A
  reload : A → Producer A
  construct : A → Producer A
  announce : A → Producer A

-- Where the consumer stands in `try_dequeue`. It is `crashed` once it has read a raw slot.
pub data Consumer {ℓ} (A : Type ℓ) : Type ℓ where
  ready : Consumer A
  reload : Consumer A
  load : Consumer A
  give_back : A → Consumer A
  crashed : Consumer A

-- `sent` and `received` list the items of the calls that returned true, oldest first; `refused` and
-- `missed` the number of those that returned false.
pub record Machine {ℓ} (A : Type ℓ) : Type ℓ where
  pub queue : Spsc A
  pub producer : Producer A
  pub consumer : Consumer A
  pub sent : List A
  pub received : List A
  pub refused : ℕ
  pub missed : ℕ

-- Whose turn it is. An idle producer begins a call with the item that its turn names.
pub data Turn {ℓ} (A : Type ℓ) : Type ℓ where
  produce : A → Turn A
  consume : Turn A

module _ {ℓ} {A : Type ℓ} where
  pub start : ℕ → Machine A
  start c = record {
    queue = new c;
    producer = Producer.ready;
    consumer = Consumer.ready;
    sent = [];
    received = [];
    refused = 0;
    missed = 0;
  }

  pub producer_step : Producer A → A → Machine A → Machine A
  producer_step Producer.ready x m =
      if next_tail m.queue == m.queue.cached_head
      then record m { producer = Producer.reload x }
      else record m { producer = Producer.construct x }
  producer_step (Producer.reload x) _ m =
      let q = refresh_head m.queue in
      if next_tail q == q.cached_head
      then record m { queue = q; producer = Producer.ready; refused = m.refused + 1 }
      else record m { queue = q; producer = Producer.construct x }
  producer_step (Producer.construct x) _ m = record m {
    queue = store m.queue x;
    producer = Producer.announce x;
  }
  producer_step (Producer.announce x) _ m = record m {
    queue = publish m.queue;
    producer = Producer.ready;
    sent = m.sent ++ x ∷ [];
  }

  load_step : Option A → Machine A → Machine A
  load_step none m = record m { consumer = Consumer.crashed }
  load_step (some x) m = record m { queue = destroy m.queue; consumer = Consumer.give_back x }

  pub consumer_step : Consumer A → Machine A → Machine A
  unfolding load_step
  consumer_step Consumer.ready m =
      if m.queue.head == m.queue.cached_tail
      then record m { consumer = Consumer.reload }
      else record m { consumer = Consumer.load }
  consumer_step Consumer.reload m =
      let q = refresh_tail m.queue in
      if q.head == q.cached_tail
      then record m { queue = q; consumer = Consumer.ready; missed = m.missed + 1 }
      else record m { queue = q; consumer = Consumer.load }
  consumer_step Consumer.load m = load_step (m.queue.slots m.queue.head) m
  consumer_step (Consumer.give_back x) m = record m {
    queue = release m.queue;
    consumer = Consumer.ready;
    received = m.received ++ x ∷ [];
  }
  consumer_step Consumer.crashed m = m

  pub step : Turn A → Machine A → Machine A
  unfolding producer_step consumer_step
  step (produce x) m = producer_step m.producer x m
  step consume m = consumer_step m.consumer m

  pub run : List (Turn A) → Machine A → Machine A
  unfolding step
  run [] m = m
  run (t ∷ ts) m = run ts (step t m)
