-- ===== src/Tests/Queues.antt =====
-- Concrete rings of src/include/lockfree/SPSCQueue.h and loops of src/impl/core/EventLoop.cpp.
use sm_ext_socket.Spsc.{Spsc, destroy_queue}
use sm_ext_socket.Spsc.Teardown.{destroy_queue-Represents}
use sm_ext_socket.Base.{◌<◌, none, some}
use sm_ext_socket.Base.{ℕ, ◌+◌, ◌<◌, ◌≡◌, ◌≢◌, refl, List, [], ◌∷◌, ◌++◌, some, arith, length}
use sm_ext_socket.Spsc.{Spsc, IsCapacity, new, try_enqueue, try_dequeue}
use sm_ext_socket.Spsc.Queue.{
  Represents, new-Represents, Enqueued, try_enqueue-Enqueued, Dequeued, try_dequeue-Dequeued,
}
use sm_ext_socket.Spsc.Interleaving.{Turn, produce, consume, Machine, Consumer, start, run}
use sm_ext_socket.Spsc.Interleaving.Fifo.{run-fifo}
use sm_ext_socket.EventLoop.{EventLoop, fresh, post, on_async}
use sm_ext_socket.EventLoop.Drain.{Posted, post-Posted, run_jobs, on_async_lem}

four : IsCapacity 4
four = record { big = omega arith; power = refl }

-- Two items sent, the consumer's accesses between the producer's.
abbrev turns : List (Turn ℕ)
turns =
    produce 7
    ∷ consume
    ∷ produce 7
    ∷ produce 7
    ∷ consume
    ∷ produce 8
    ∷ produce 8
    ∷ consume
    ∷ produce 8
    ∷ consume
    ∷ consume
    ∷ []

abbrev end : Machine ℕ
end = run turns (start 4)

run-fifo_example :
    (rest : List ℕ) × (end.sent ≡ end.received ++ rest)
    × (length rest < 4)
    × (end.consumer ≢ Consumer.crashed)
run-fifo_example = run-fifo 4 turns four

-- A ring of four slots that holds the second of these lists.
abbrev none_held : List ℕ
none_held = []

abbrev five : List ℕ
five = 5 ∷ []

abbrev ring : Spsc ℕ
ring = (try_enqueue (new 4) 5).0

ring-Enqueued : Enqueued (new 4) none_held 5 (try_enqueue (new 4) 5)
ring-Enqueued = try_enqueue-Enqueued (new 4) none_held 5 (new-Represents 4 four)

ring-Represents : Represents ring five
unfolding new
ring-Represents = ring-Enqueued.holds

try_enqueue-Enqueued_example : Enqueued ring five 6 (try_enqueue ring 6)
try_enqueue-Enqueued_example = try_enqueue-Enqueued ring five 6 ring-Represents

try_dequeue-Dequeued_example : Dequeued ring five (try_dequeue ring)
try_dequeue-Dequeued_example = try_dequeue-Dequeued ring five ring-Represents

-- A loop whose jobs add a number, with 5 queued.
abbrev loop : EventLoop ℕ
loop = record fresh { jobs = ring; wrappers = 1; wakeups = 1 }

post-Posted_example : Posted loop five 6 (post loop 6)
post-Posted_example = post-Posted loop five 6 ring-Represents refl

abbrev add : ℕ → ℕ → ℕ
add j s = s + j

on_async_lem_example :
    (l : EventLoop ℕ) × (on_async add loop 10 ≡ some (l, run_jobs add five 10))
    × Represents l.jobs none_held
    × (l.wrappers ≡ 0)
on_async_lem_example = on_async_lem add five loop 10 ring-Represents refl

destroy_queue-Represents_example :
    (r : Spsc ℕ) × (destroy_queue ring ≡ some (five, r))
    × ((i : ℕ) → i < ring.capacity → r.slots i ≡ none)
destroy_queue-Represents_example = destroy_queue-Represents ring five ring-Represents
