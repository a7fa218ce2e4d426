-- ===== src/Spsc/Interleaving/Invariant.antt =====
-- What holds at every moment of the interleavings of Spsc/Interleaving.antt.
use sm_ext_socket.Base.{ℕ, ◌+◌, ◌<◌, ◌≡◌, List, [], ◌∷◌, ◌++◌, length}
use sm_ext_socket.Spsc.{Spsc}
use sm_ext_socket.Spsc.Layout.{Counters, Layout}
use sm_ext_socket.Spsc.Interleaving.{Producer, Consumer, Machine}

module _ {ℓ} {A : Type ℓ} where
  -- The item stored and not yet published.
  abbrev pub placed : Producer A → List A
  placed Producer.ready = []
  placed (Producer.reload x) = []
  placed (Producer.construct x) = []
  placed (Producer.announce x) = x ∷ []

  -- The item moved out whose slot is not yet given back.
  abbrev pub taken : Consumer A → List A
  taken Consumer.ready = []
  taken Consumer.reload = []
  taken Consumer.load = []
  taken (Consumer.give_back x) = x ∷ []
  taken Consumer.crashed = []

  -- What the producer knows once its test let it through, and the consumer likewise.
  abbrev pub HasRoom : Producer A → ℕ → ℕ → Type 0
  HasRoom Producer.ready tail limit = Unit
  HasRoom (Producer.reload x) tail limit = Unit
  HasRoom (Producer.construct x) tail limit = tail + 1 < limit
  HasRoom (Producer.announce x) tail limit = tail + 1 < limit

  abbrev pub HasItem : Consumer A → ℕ → ℕ → Type 0
  HasItem Consumer.ready head seen = Unit
  HasItem Consumer.reload head seen = Unit
  HasItem Consumer.load head seen = head < seen
  HasItem (Consumer.give_back x) head seen = head < seen
  HasItem Consumer.crashed head seen = ⊥

  -- Every item sent is received, in the consumer's hands or in the queue, in this order, and each
  -- side holds what its place in the call lets it rely on.
  pub record Inv (k : Counters) (live : List A) (q : Spsc A) (p : Producer A) (c : Consumer A)
      (sent received : List A) : Type ℓ where
    pub layout : Layout k (length (taken c)) (length (placed p)) q live
    pub room : HasRoom p k.tail (k.seen_head + q.capacity)
    pub available : HasItem c k.head k.seen_tail
    pub in_order : sent ++ placed p ≡ received ++ taken c ++ live
    pub all_sent : k.tail ≡ length sent

  abbrev pub Good : Machine A → Type ℓ
  Good m =
      (k : Counters) × (live : List A) × Inv k live m.queue m.producer m.consumer m.sent m.received
