-- ===== src/Spsc/Layout.antt =====
-- The indices of the ring of src/include/lockfree/SPSCQueue.h as absolute counters, and what its slots
-- hold: each access of the two threads keeps the layout.
use sm_ext_socket.Base.{
  ℕ, suc, ◌+◌, ◌%◌, ◌≤◌, ◌<◌, ◌≡◌, ap, ◌∙◌, List, true, false, arith, dec_lt, ℕ_discrete, ◌==◌,
  length, mod-add-mod, add-mod_right,
}
use sm_ext_socket.Base.Mask.{bit_and-mask}
use sm_ext_socket.Spsc.{Spsc, IsCapacity, masked, next_tail}
use sm_ext_socket.Spsc.Window.{mod-ne, Stored, Raw}

-- How many items each index stands for, over the queue's whole life.
pub record Counters : Type 0 where
  pub seen_head : ℕ
  pub head : ℕ
  pub seen_tail : ℕ
  pub tail : ℕ

-- `taken` items are moved out and not yet released, `placed` stored and not yet published.
pub record Layout {ℓ} {A : Type ℓ} (k : Counters) (taken placed : ℕ) (q : Spsc A) (live : List A)
    : Type ℓ where
  pub cap : IsCapacity q.capacity
  pub head_at : q.head ≡ k.head % q.capacity
  pub tail_at : q.tail ≡ k.tail % q.capacity
  pub seen_head_at : q.cached_head ≡ k.seen_head % q.capacity
  pub seen_tail_at : q.cached_tail ≡ k.seen_tail % q.capacity
  pub stale_head : k.seen_head ≤ k.head
  pub ahead : k.head ≤ k.seen_tail
  pub stale_tail : k.seen_tail ≤ k.tail
  pub bounded : k.tail < k.seen_head + q.capacity
  pub count : k.tail + placed ≡ k.head + taken + length live
  pub stored : Stored q.slots q.capacity (k.head + taken) live
  pub unused : Raw q.slots q.capacity (k.tail + placed) (k.head + taken + q.capacity)

-- Masking an index is stepping its counter.
pub masked-mod {ℓ} :
    {A : Type ℓ} (q : Spsc A) (n i : ℕ)
    → IsCapacity q.capacity
    → i ≡ n % q.capacity
    → masked q (i + 1) ≡ suc n % q.capacity
unfolding masked
masked-mod q n i cap e =
    bit_and-mask q.capacity (i + 1) (omega (arith, cap.big)) cap.power
    ∙ ap (λ k. (k + 1) % q.capacity) e
    ∙ mod-add-mod n q.capacity 1
    ∙ ap (λ k. k % q.capacity) (omega arith)

module _ {ℓ} {A : Type ℓ} {k : Counters} {q : Spsc A} {live : List A} {taken placed : ℕ}
    (v : Layout k taken placed q live) where
  next_tail_at : next_tail q ≡ suc k.tail % q.capacity
  next_tail_at = masked-mod q k.tail q.tail v.cap v.tail_at

  -- What the producer's test says of the counters.
  pub full_test : (next_tail q == q.cached_head) ≡ true → k.tail + 1 ≡ k.seen_head + q.capacity
  full_test e = elim (dec_lt (suc k.tail) (k.seen_head + q.capacity)) [
    | yes room ↦ absurd (
        mod-ne q.capacity k.seen_head (suc k.tail) (omega arith) room
          (ground (arith, next_tail_at, v.seen_head_at)))
    | no other ↦ omega arith
  ]

  pub room_test : (next_tail q == q.cached_head) ≡ false → k.tail + 1 < k.seen_head + q.capacity
  room_test e = elim (ℕ_discrete (suc k.tail) (k.seen_head + q.capacity)) [
    | yes full ↦ absurd (
        ground (
          arith,
          next_tail_at,
          v.seen_head_at,
          add-mod_right k.seen_head q.capacity,
          ap (λ n. n % q.capacity) full,
        ))
    | no other ↦ omega arith
  ]

  -- What the consumer's test says of them.
  pub none_test : (q.head == q.cached_tail) ≡ true → k.head ≡ k.seen_tail
  none_test e = elim (dec_lt k.head k.seen_tail) [
    | yes some_left ↦ absurd (
        mod-ne q.capacity k.head k.seen_tail some_left (omega arith)
          (ground (arith, v.head_at, v.seen_tail_at)))
    | no other ↦ omega arith
  ]

  pub some_test : (q.head == q.cached_tail) ≡ false → k.head < k.seen_tail
  some_test e = elim (ℕ_discrete k.head k.seen_tail) [
    | yes none_left ↦
        absurd (ground (arith, v.head_at, v.seen_tail_at, ap (λ n. n % q.capacity) none_left))
    | no other ↦ omega arith
  ]
