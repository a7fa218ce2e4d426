-- ===== src/Spsc/Teardown.antt =====
-- The destructor of src/include/lockfree/SPSCQueue.h.
use sm_ext_socket.Base.{
  ℕ, zero, suc, ◌+◌, ◌-◌, ◌%◌, ◌<◌, ◌≡◌, refl, sym, ap, ◌∙◌, false, Option, none, some, List, [],
  ◌∷◌, arith, dec_lt, ◌==◌, Bool-cases, inl, inr, length, mod-lt, mod-eq_of_lt, mod-add-mod,
  add-mod_right,
}
use sm_ext_socket.Spsc.{Spsc, refresh_tail, destroy, release, destroy_items, destroy_queue}
use sm_ext_socket.Spsc.Window.{Raw}
use sm_ext_socket.Spsc.Layout.{Counters, Layout, none_test, some_test}
use sm_ext_socket.Spsc.Steps.{refresh_tail-Layout, head_item, destroy-Layout, release-Layout}
use sm_ext_socket.Spsc.Queue.{Represents, Represents-few}

-- A round of raw slots is all of them.
Raw-round {ℓ} :
    {A : Type ℓ} (slots : ℕ → Option A) (c lo i : ℕ)
    → i < c
    → Raw slots c lo (lo + c)
    → slots i ≡ none
Raw-round slots c lo i below raw = elim (dec_lt i (lo % c)) [
  | no ahead ↦
      ap slots (
        sym (
          sym (mod-add-mod lo c (i - lo % c))
          ∙ ap (λ n. n % c) (omega arith)
          ∙ mod-eq_of_lt {n = i} {m = c} below))
      ∙ raw (lo + (i - lo % c)) (omega arith) (omega arith)
  | yes behind ↦
      ap slots (
        sym (
          sym (mod-add-mod lo c (i + c - lo % c))
          ∙ ap (λ n. n % c) (omega (arith, mod-lt lo {m = c} (omega arith)))
          ∙ add-mod_right i c
          ∙ mod-eq_of_lt {n = i} {m = c} below))
      ∙ raw (lo + (i + c - lo % c)) (omega (arith, mod-lt lo {m = c} (omega arith)))
          (omega (arith, mod-lt lo {m = c} (omega arith)))
]

module _ {ℓ} {A : Type ℓ} where
  abbrev Emptied : List A → (capacity : ℕ) → Option (List A × Spsc A) → Type ℓ
  Emptied xs c result =
      (r : Spsc A) × (result ≡ some (xs, r)) × ((i : ℕ) → i < c → r.slots i ≡ none)

  stopped-Emptied :
      (k : Counters) (q : Spsc A)
      → Layout k 0 0 q []
      → k.seen_tail ≡ k.tail
      → (fuel : ℕ) → Emptied [] q.capacity (destroy_items (suc fuel) q)
  unfolding destroy_items
  stopped-Emptied k q v seen fuel = elim (Bool-cases (q.head == q.cached_tail)) [
    | inr left ↦ absurd (omega (arith, some_test v left, v.count, v.stale_tail))
    | inl done ↦ (
      q,
      rw (done, destroy_items) refl,
      λ i below.
          Raw-round q.slots q.capacity k.head i below
            (λ n lo hi. v.unused n (omega (arith, v.count)) (omega arith)),
    )
  ]

  destroy_items-Emptied :
      (fuel : ℕ) (xs : List A) (k : Counters) (q : Spsc A)
      → Layout k 0 0 q xs
      → k.seen_tail ≡ k.tail
      → length xs < fuel
      → Emptied xs q.capacity (destroy_items fuel q)
  unfolding destroy_items
  destroy_items-Emptied zero xs k q v seen enough = absurd (omega (arith, enough))
  destroy_items-Emptied (suc fuel) [] k q v seen enough = stopped-Emptied k q v seen fuel
  destroy_items-Emptied (suc fuel) (x ∷ xs) k q v seen enough =
      let (r, run, raw) =
        destroy_items-Emptied fuel xs _ (release (destroy q)) (later v) seen
          (omega (arith, enough)) in
      (r, rw (more v, head_item v, run, destroy_items) refl, λ i h. raw i (same_size i h))
    where
      more : Layout k 0 0 q (x ∷ xs) → (q.head == q.cached_tail) ≡ false
      more v = elim (Bool-cases (q.head == q.cached_tail)) [
        | inl done ↦ absurd (omega (arith, none_test v done, v.count, seen))
        | inr left ↦ left
      ]

      later :
          Layout k 0 0 q (x ∷ xs)
          → Layout (record k { head = suc k.head }) 0 0 (release (destroy q)) xs
      later v = release-Layout (some_test v (more v)) (destroy-Layout v (omega arith))

      same_size : (i : ℕ) → i < q.capacity → i < (release (destroy q)).capacity
      same_size i h = unfold release destroy in h

  -- The destructor destroys the items that are queued, each once and oldest first, destroys no raw
  -- slot, and leaves every slot raw.
  pub destroy_queue-Represents :
      (q : Spsc A) (xs : List A)
      → Represents q xs
      → (r : Spsc A) × (destroy_queue q ≡ some (xs, r))
        × ((i : ℕ) → i < q.capacity → r.slots i ≡ none)
  unfolding destroy_queue refresh_tail
  destroy_queue-Represents q xs (k, v) =
      destroy_items-Emptied q.capacity xs _ (refresh_tail q) (refresh_tail-Layout v) refl
        (Represents-few q xs (k, v))
