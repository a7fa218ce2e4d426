-- ===== src/CallbackManager/Buffers/Receive.antt =====
-- `EnqueueReceive` of src/impl/core/CallbackManager.cpp on a heap that the data queue owns.
use sm_ext_socket.Base.{
  ℕ, suc, ◌+◌, ◌≡◌, refl, ◌∙◌, inl, inr, true, false, none, some, List, [], ◌∷◌, ◌++◌, append_assoc,
  subst, arith, ◌==◌, if◌then◌else◌, length, ltb, Bool-cases,
}
use sm_ext_socket.SocketTypes.{RemoteEndpoint, GlobalOptions}
use sm_ext_socket.Spsc.{Spsc, try_enqueue}
use sm_ext_socket.Spsc.Queue.{push}
use sm_ext_socket.CallbackManager.{
  DataEvent, Memory, allocate, free, CallbackManager, data_queue_full, no_memory, release_block,
  enqueue_receive,
}
use sm_ext_socket.CallbackManager.Contents.{Waiting, Queue, Holds, logged}
use sm_ext_socket.CallbackManager.Enqueue.{put_Queue, Settled, log_error-Settled}
use sm_ext_socket.CallbackManager.Buffers.{
  HasBlock, Blocks, Rising, Held, Owned, Held-range, Blocks-agree,
}

Rising-snoc :
    (lo hi : ℕ) (ds : List DataEvent) (d : DataEvent)
    → d.block ≡ hi
    → Rising lo hi ds
    → Rising lo (hi + 1) (ds ++ d ∷ [])
Rising-snoc lo hi [] d e r = omega arith
Rising-snoc lo hi (c ∷ ds) d e r = (r.0, Rising-snoc (suc c.block) hi ds d e r.1)

Rising-grow : (lo hi : ℕ) (ds : List DataEvent) → Rising lo hi ds → Rising lo (hi + 1) ds
Rising-grow lo hi [] r = omega arith
Rising-grow lo hi (d ∷ ds) r = (r.0, Rising-grow (suc d.block) hi ds r.1)

Held-snoc : (p : ℕ) (ds : List DataEvent) (d : DataEvent) → Held p ds → Held p (ds ++ d ∷ [])
Held-snoc p (c ∷ ds) d (inl e) = inl e
Held-snoc p (c ∷ ds) d (inr h) = inr (Held-snoc p ds d h)
Held-snoc p [] d h = absurd h

Held-last : (p : ℕ) (ds : List DataEvent) (d : DataEvent) → d.block ≡ p → Held p (ds ++ d ∷ [])
Held-last p [] d e = inl e
Held-last p (c ∷ ds) d e = inr (Held-last p ds d e)

Blocks-snoc :
    (h : Memory) (ds : List DataEvent) (d : DataEvent) (bytes : List ℕ)
    → Blocks h ds
    → HasBlock h d bytes
    → Blocks h (ds ++ d ∷ [])
Blocks-snoc h [] d bytes b c = ((bytes, c), tt)
Blocks-snoc h (e ∷ ds) d bytes b c = (b.0, Blocks-snoc h ds d bytes b.1 c)

-- A new block, given to an event behind the others.
allocate-Owned :
    (h : Memory) (ds : List DataEvent) (d : DataEvent) (bytes : List ℕ)
    → d.block ≡ h.next
    → d.length ≡ length bytes
    → Owned h ds
    → Owned (allocate h (bytes ++ 0 ∷ [])).1 (ds ++ d ∷ [])
unfolding allocate
allocate-Owned h ds d bytes at counted o = record {
  blocks =
      Blocks-snoc _ ds d bytes
        (Blocks-agree h _ ds (λ p held. ground (arith, Held-range p 0 h.next ds o.rising held))
          o.blocks)
        (record { there = ground arith; counted = counted });
  rising = Rising-snoc 0 h.next ds d at o.rising;
  no_leak = λ p. elim (o.no_leak p) [
    | inl e ↦ ground (arith, Held-last p ds d)
    | inr held ↦ inr (Held-snoc p ds d held)
  ];
}

-- A new block that is freed again leaves the heap to the same events.
allocate-free :
    (h : Memory) (ds : List DataEvent) (bytes : List ℕ)
    → Owned h ds
    → let (p, h1) = allocate h bytes in (h2 : Memory) × (free h1 p ≡ some h2) × Owned h2 ds
unfolding allocate free
allocate-free h ds bytes o =
    let h2 : Memory = record {
      next = h.next + 1;
      blocks = λ q. if h.next == q then none else (if h.next == q then some bytes else h.blocks q);
    } in
    (
      h2,
      ground arith,
      record {
        blocks =
            Blocks-agree h h2 ds (λ p held. ground (arith, Held-range p 0 h.next ds o.rising held))
              o.blocks;
        rising = Rising-grow 0 h.next ds o.rising;
        no_leak = λ p. ground (arith, o.no_leak p);
      },
    )

-- What a data event of these bytes is, at the next address of the heap.
abbrev pub data_event : ℕ → List ℕ → RemoteEndpoint → Memory → DataEvent
data_event socket bytes sender h = record {
  socket = socket;
  block = h.next;
  length = length bytes;
  sender = sender;
}

module _ (g : GlobalOptions) (socket : ℕ) (bytes : List ℕ) (sender : RemoteEndpoint)
    (m : CallbackManager) (w : Waiting) (h : Holds m w) where
  abbrev event : DataEvent
  event = data_event socket bytes sender m.memory

  -- With no memory the data is dropped, and debug mode logs that. The heap stays as it was.
  pub enqueue_receive-no_memory :
      Settled
        (enqueue_receive g false socket bytes sender m)
        w
        (logged g m.log false no_memory)
        m.memory
  unfolding enqueue_receive
  enqueue_receive-no_memory = log_error-Settled g no_memory m w h

  with_data :
      (mem : Memory)
      → (ds : List DataEvent) → (q : Spsc DataEvent) → Queue 1024 q ds
      → Holds (record m { memory = mem; data_queue = q }) (record w { receives = ds })
  with_data mem ds q kept = record {
    connect_queue = h.connect_queue;
    disconnect_queue = h.disconnect_queue;
    listen_queue = h.listen_queue;
    incoming_queue = h.incoming_queue;
    data_queue = kept;
    error_queue = h.error_queue;
  }

  abbrev stored : DataEvent
  stored = record event { block = (allocate m.memory (bytes ++ 0 ∷ [])).0 }

  taken_in :
      (hand : List DataEvent)
      → Owned m.memory (hand ++ w.receives)
      → ltb (length w.receives) 1023 ≡ true
      → stored.block ≡ m.memory.next
      → let m' = enqueue_receive g true socket bytes sender m in
        Owned m'.memory (hand ++ (push 1024 w.receives stored).0)
        × Holds m' (record w { receives = (push 1024 w.receives stored).0 })
        × (m'.log ≡ logged g m.log true data_queue_full)
  unfolding enqueue_receive
  taken_in hand o room at =
      let (kept, answer) = put_Queue 1024 m.data_queue w.receives stored h.data_queue in
      let ok : (try_enqueue m.data_queue stored).1 ≡ true = answer ∙ rw room in
      (
        rw (ok, room, enqueue_receive)
            (subst (Owned _) (append_assoc hand w.receives (stored ∷ []))
              (allocate-Owned m.memory (hand ++ w.receives) stored bytes at refl o)),
        rw (ok, enqueue_receive) (with_data _ (push 1024 w.receives stored).0 _ kept),
        rw (ok, enqueue_receive),
      )

  turned_away :
      (hand : List DataEvent)
      → Owned m.memory (hand ++ w.receives)
      → ltb (length w.receives) 1023 ≡ false
      → let m' = enqueue_receive g true socket bytes sender m in
        Owned m'.memory (hand ++ (push 1024 w.receives stored).0)
        × Holds m' (record w { receives = (push 1024 w.receives stored).0 })
        × (m'.log ≡ logged g m.log false data_queue_full)
  unfolding enqueue_receive
  turned_away hand o full =
      let (kept, answer) = put_Queue 1024 m.data_queue w.receives stored h.data_queue in
      let dropped : (try_enqueue m.data_queue stored).1 ≡ false = answer ∙ rw full in
      let (h2, freed, o2) = allocate-free m.memory (hand ++ w.receives) (bytes ++ 0 ∷ []) o in
      let s =
        log_error-Settled g data_queue_full
          (record m { memory = h2; data_queue = (try_enqueue m.data_queue stored).0 })
          (record w { receives = (push 1024 w.receives stored).0 })
          (with_data h2 (push 1024 w.receives stored).0 _ kept) in
      (
        rw (dropped, full, enqueue_receive, release_block, freed, s.memory_is) o2,
        rw (dropped, enqueue_receive, release_block, freed) s.holds,
        rw (dropped, enqueue_receive, release_block, freed) s.log_is,
      )

  -- The same while the events of `hand` are being executed, whose blocks are still theirs.
  pub enqueue_receive-Owned_behind :
      (hand : List DataEvent)
      → Owned m.memory (hand ++ w.receives)
      → let m' = enqueue_receive g true socket bytes sender m in
        let (ds, taken) = push 1024 w.receives event in
        Owned m'.memory (hand ++ ds)
        × Holds m' (record w { receives = ds })
        × (m'.log ≡ logged g m.log taken data_queue_full)
  unfolding allocate
  enqueue_receive-Owned_behind hand o = elim (Bool-cases (ltb (length w.receives) 1023)) [
    | inl room ↦ let (a, b, c) = taken_in hand o room refl in (a, b, rw room c)
    | inr full ↦ let (a, b, c) = turned_away hand o full in (a, b, rw full c)
  ]

  -- With memory, a copy of the data and a zero byte goes into a block of its own, whose event is put
  -- behind the others if the data queue has room. Else the block is freed again, the event dropped,
  -- and that is logged in debug mode. Either way every block of the heap is that of one event.
  pub enqueue_receive-Owned :
      Owned m.memory w.receives
      → let m' = enqueue_receive g true socket bytes sender m in
        let (ds, taken) = push 1024 w.receives event in
        Owned m'.memory ds
        × Holds m' (record w { receives = ds })
        × (m'.log ≡ logged g m.log taken data_queue_full)
  unfolding allocate
  enqueue_receive-Owned o = enqueue_receive-Owned_behind [] o

  -- The block of the new event holds the data and a zero byte.
  pub enqueue_receive-block :
      ltb (length w.receives) 1023 ≡ true
      → (enqueue_receive g true socket bytes sender m).memory.blocks m.memory.next
        ≡ some (bytes ++ 0 ∷ [])
  unfolding enqueue_receive allocate
  enqueue_receive-block room =
      let (_, answer) = put_Queue 1024 m.data_queue w.receives stored h.data_queue in
      let ok : (try_enqueue m.data_queue stored).1 ≡ true = answer ∙ rw room in
      rw (ok, enqueue_receive) (ground arith)
