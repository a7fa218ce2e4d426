-- ===== src/Spsc.antt =====
-- src/include/lockfree/SPSCQueue.h: the single-producer single-consumer ring. One function for each
-- access that the two threads can interleave at, and the member functions composed of these.
pub mod Window
pub mod Layout
pub mod Steps
pub mod Queue
pub mod Observers
pub mod Interleaving
pub mod Teardown
use sm_ext_socket.Base.{
  ℕ, zero, suc, ◌+◌, ◌-◌, ◌%◌, ◌^◌, ◌≡◌, ◌<◌, bit_and, Bool, true, false, Option, none, some, List,
  [], ◌∷◌, ◌==◌, if◌then◌else◌,
}

-- A slot is `none` while its storage is raw: not yet constructed, or destroyed.
pub record Spsc {ℓ} (A : Type ℓ) : Type ℓ where
  pub capacity : ℕ
  pub tail : ℕ
  pub cached_head : ℕ
  pub head : ℕ
  pub cached_tail : ℕ
  pub slots : ℕ → Option A

-- The two `static_assert`s on the template parameter.
pub record IsCapacity (c : ℕ) : Type 0 where
  pub big : 1 < c
  pub power : bit_and c (c - 1) ≡ 0

-- What `try_dequeue` finds. `raw` is a read of a slot that holds no object, which C++ leaves
-- undefined.
pub data Taken {ℓ} (A : Type ℓ) : Type ℓ where
  nothing : Taken A
  item : A → Taken A
  raw : Taken A

module _ {ℓ} {A : Type ℓ} where
  abbrev pub update : (ℕ → Option A) → ℕ → Option A → ℕ → Option A
  update f p v q = if p == q then v else f q

  unfoldable pub new : ℕ → Spsc A
  new c = record {
    capacity = c;
    tail = 0;
    cached_head = 0;
    head = 0;
    cached_tail = 0;
    slots = λ _. none;
  }

  -- `i & kMask`.
  pub masked : Spsc A → ℕ → ℕ
  masked q i = bit_and i (q.capacity - 1)

  -- The producer's accesses.
  abbrev pub next_tail : Spsc A → ℕ
  next_tail q = masked q (q.tail + 1)

  pub refresh_head : Spsc A → Spsc A
  refresh_head q = record q { cached_head = q.head }

  pub store : Spsc A → A → Spsc A
  store q x = record q { slots = update q.slots q.tail (some x) }

  pub publish : Spsc A → Spsc A
  publish q = record q { tail = next_tail q }

  -- The consumer's accesses.
  pub refresh_tail : Spsc A → Spsc A
  refresh_tail q = record q { cached_tail = q.tail }

  -- The item is moved out and its slot destroyed.
  pub destroy : Spsc A → Spsc A
  destroy q = record q { slots = update q.slots q.head none }

  pub release : Spsc A → Spsc A
  release q = record q { head = masked q (q.head + 1) }

  pub try_enqueue : Spsc A → A → Spsc A × Bool
  try_enqueue q x =
      if next_tail q == q.cached_head
      then (let r = refresh_head q in
          if next_tail r == r.cached_head then (r, false) else (publish (store r x), true))
      else (publish (store q x), true)

  -- The rest of `try_dequeue`, at what the slot at `head` holds.
  pub take_head : Option A → Spsc A → Taken A × Spsc A
  take_head none q = (raw, q)
  take_head (some x) q = (item x, release (destroy q))

  pub try_dequeue : Spsc A → Taken A × Spsc A
  try_dequeue q =
      if q.head == q.cached_tail
      then (let r = refresh_tail q in
          if r.head == r.cached_tail then (nothing, r) else take_head (r.slots r.head) r)
      else take_head (q.slots q.head) q

  pub empty : Spsc A → Bool
  empty q = q.head == q.tail

  -- The `size_t` difference wraps.
  pub size_approx : Spsc A → ℕ
  size_approx q = masked q ((2 ^ 64 + q.tail - q.head) % 2 ^ 64)

  pub usable_capacity : Spsc A → ℕ
  usable_capacity q = q.capacity - 1

  -- The loop of the destructor, whose local `head` and `tail` are the members `head` and `cached_tail`
  -- here. It gives the items that it destroyed. `none` means that a raw slot was destroyed, or that
  -- the fuel ran out.
  unfoldable pub destroy_items : ℕ → Spsc A → Option (List A × Spsc A)
  destroy_items zero q = none
  destroy_items (suc fuel) q =
      let rest = destroy_items fuel (release (destroy q)) in
      if q.head == q.cached_tail then some ([], q) else elim (q.slots q.head) [
        | none ↦ none
        | some x ↦ elim rest [ none ↦ none | some (xs, r) ↦ some (x ∷ xs, r) ]
      ]

  -- The destructor. The queue's capacity is fuel enough.
  unfoldable pub destroy_queue : Spsc A → Option (List A × Spsc A)
  unfolding destroy_items
  destroy_queue q = destroy_items q.capacity (refresh_tail q)
