-- ===== src/CallbackManager/Buffers.antt =====
-- Who owns a block of received data: `EnqueueReceive` of src/impl/core/CallbackManager.cpp makes it, the
-- data queue holds it, and `ExecuteReceive` frees it.
pub mod Receive
use sm_ext_socket.Base.{
  ℕ, suc, ◌+◌, ◌<◌, ◌≤◌, ◌≡◌, ◌≢◌, refl, ◌∙◌, ◌⊎◌, inl, inr, Option, none, some, List, [], ◌∷◌,
  ◌++◌, arith, ◌==◌, if◌then◌else◌, length, dec_lt, ℕ_discrete,
}
use sm_ext_socket.CallbackManager.{DataEvent, Memory, allocate, free}

-- The event's block is there, and holds as many bytes as it says and a zero byte.
pub record HasBlock (h : Memory) (d : DataEvent) (bytes : List ℕ) : Type 0 where
  pub there : h.blocks d.block ≡ some (bytes ++ 0 ∷ [])
  pub counted : d.length ≡ length bytes

abbrev pub Blocks : Memory → List DataEvent → Type 0
Blocks h [] = Unit
Blocks h (d ∷ ds) = ((bytes : List ℕ) × HasBlock h d bytes) × Blocks h ds

-- The blocks' addresses rise from `lo` on and stay below `hi`: no two events share one.
abbrev pub Rising : ℕ → ℕ → List DataEvent → Type 0
Rising lo hi [] = lo ≤ hi
Rising lo hi (d ∷ ds) = (lo ≤ d.block) × Rising (suc d.block) hi ds

abbrev pub Held : ℕ → List DataEvent → Type 0
Held p [] = ⊥
Held p (d ∷ ds) = (d.block ≡ p) ⊎ Held p ds

-- The blocks of the heap are those of these events, one each.
pub record Owned (h : Memory) (ds : List DataEvent) : Type 0 where
  pub blocks : Blocks h ds
  pub rising : Rising 0 h.next ds
  pub no_leak : (p : ℕ) → (h.blocks p ≡ none) ⊎ Held p ds

pub Rising-weaken :
    (lo lo' hi : ℕ) (ds : List DataEvent) → lo ≤ lo' → Rising lo' hi ds → Rising lo hi ds
Rising-weaken lo lo' hi [] h r = omega arith
Rising-weaken lo lo' hi (d ∷ ds) h r = (omega arith, r.1)

pub Held-range :
    (p lo hi : ℕ) (ds : List DataEvent) → Rising lo hi ds → Held p ds → (lo ≤ p) × (p < hi)
Held-range p lo hi [] r h = absurd h
Held-range p lo hi (d ∷ ds) r (inl e) = let above = Rising-le (suc d.block) hi ds r.1 in omega arith
  where
    Rising-le : (lo hi : ℕ) (ds : List DataEvent) → Rising lo hi ds → lo ≤ hi
    Rising-le lo hi [] r = r
    Rising-le lo hi (d ∷ ds) r = omega (arith, Rising-le (suc d.block) hi ds r.1)
Held-range p lo hi (d ∷ ds) r (inr h) = omega (arith, Held-range p (suc d.block) hi ds r.1 h)

-- A heap that agrees at the blocks of these events holds them as well.
pub Blocks-agree :
    (h h' : Memory) (ds : List DataEvent)
    → ((p : ℕ) → Held p ds → h'.blocks p ≡ h.blocks p)
    → Blocks h ds
    → Blocks h' ds
Blocks-agree h h' [] same b = tt
Blocks-agree h h' (d ∷ ds) same ((bytes, b), bs) = (
  (bytes, record { there = same d.block (inl refl) ∙ b.there; counted = b.counted }),
  Blocks-agree h h' ds (λ p q. same p (inr q)) bs,
)

-- A block past the end of the heap is none's.
pub next_free : (h : Memory) (ds : List DataEvent) → Owned h ds → h.blocks h.next ≡ none
next_free h ds o = elim (o.no_leak h.next) [
  | inl e ↦ e
  | inr held ↦ absurd (omega (arith, Held-range h.next 0 h.next ds o.rising held))
]

-- Freeing the first event's block succeeds, and leaves the heap to the others.
pub free-Owned :
    (h : Memory) (d : DataEvent) (ds : List DataEvent)
    → Owned h (d ∷ ds)
    → (h' : Memory) × (free h d.block ≡ some h') × Owned h' ds
unfolding free
free-Owned h d ds o =
    let ((bytes, b), bs) = o.blocks in
    let h' : Memory = record h { blocks = λ q. if d.block == q then none else h.blocks q } in
    (
      h',
      rw (b.there, free),
      record {
        blocks =
            Blocks-agree h h' ds
              (λ p held. ground (arith, Held-range p (suc d.block) h.next ds o.rising.1 held)) bs;
        rising = Rising-weaken 0 (suc d.block) h.next ds (omega arith) o.rising.1;
        no_leak = λ p. ground (arith, o.no_leak p);
      },
    )
