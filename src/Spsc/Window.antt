-- ===== src/Spsc/Window.antt =====
-- What the slots of the ring of src/include/lockfree/SPSCQueue.h hold, from a counter on: a window
-- of items, and raw storage.
use sm_ext_socket.Base.{
  ℕ, suc, ◌+◌, ◌-◌, ◌%◌, ◌≤◌, ◌<◌, ◌≡◌, ◌≢◌, sym, ap, ◌∙◌, Option, none, some, List, [], ◌∷◌, ◌++◌,
  arith, dec_lt, ℕ_discrete, length, mod-lt, mod-eq_of_lt, mod-add-mod, mod-eq-sub-mod,
  add-mod_right,
}
use sm_ext_socket.Spsc.{update}

-- Two counters less than a round apart have different indices.
pub mod-ne : (c a b : ℕ) → a < b → b < a + c → a % c ≢ b % c
mod-ne c a b p q e = elim (dec_lt (a % c + d) c) [
  | yes under ↦ omega (arith, shift, mod-eq_of_lt {n = a % c + d} {m = c} under)
  | no over ↦ omega (
    arith,
    shift,
    mod-lt a {m = c} (omega arith),
    mod-eq-sub-mod {n = a % c + d} {m = c} (omega arith),
    mod-eq_of_lt {n = a % c + d - c} {m = c} (omega (arith, mod-lt a {m = c} (omega arith))),
  )
]
  where
    d : ℕ
    d = b - a

    shift : (a % c + d) % c ≡ b % c
    shift = mod-add-mod a c d ∙ ap (λ k. k % c) (omega arith)

module _ {ℓ} {A : Type ℓ} where
  -- The slots from counter `n` on hold these items.
  abbrev pub Stored : (ℕ → Option A) → ℕ → ℕ → List A → Type ℓ
  Stored slots c n [] = Unit
  Stored slots c n (x ∷ xs) = (slots (n % c) ≡ some x) × Stored slots c (suc n) xs

  -- The slots of the counters from `lo` below `hi` are raw.
  abbrev pub Raw : (ℕ → Option A) → ℕ → ℕ → ℕ → Type ℓ
  Raw slots c lo hi = (i : ℕ) → lo ≤ i → i < hi → slots (i % c) ≡ none

  pub update_self : (f : ℕ → Option A) (p : ℕ) (v : Option A) → update f p v p ≡ v
  update_self f p v = ground arith

  pub update_ne : (f : ℕ → Option A) (p q : ℕ) (v : Option A) → p ≢ q → update f p v q ≡ f q
  update_ne f p q v h = ground arith

  -- A write at a counter outside the stored window, less than a round away, changes none of it.
  Stored-update_after :
      (f : ℕ → Option A) (c n i : ℕ) (v : Option A) (xs : List A)
      → n + length xs ≤ i
      → i < n + c
      → Stored f c n xs
      → Stored (update f (i % c) v) c n xs
  Stored-update_after f c n i v [] h r s = tt
  Stored-update_after f c n i v (x ∷ xs) h r s = (
    update_ne f (i % c) (n % c) v (λ e. mod-ne c n i (omega arith) r (sym e)) ∙ s.0,
    Stored-update_after f c (suc n) i v xs (omega arith) (omega arith) s.1,
  )

  Stored-update_before :
      (f : ℕ → Option A) (c n i : ℕ) (v : Option A) (xs : List A)
      → i < n
      → n + length xs ≤ i + c
      → Stored f c n xs
      → Stored (update f (i % c) v) c n xs
  Stored-update_before f c n i v [] h r s = tt
  Stored-update_before f c n i v (x ∷ xs) h r s = (
    update_ne f (i % c) (n % c) v (mod-ne c i n h (omega arith)) ∙ s.0,
    Stored-update_before f c (suc n) i v xs (omega arith) (omega arith) s.1,
  )

  Stored-snoc :
      (f : ℕ → Option A) (c n : ℕ) (x : A) (xs : List A)
      → Stored f c n xs
      → f ((n + length xs) % c) ≡ some x
      → Stored f c n (xs ++ x ∷ [])
  Stored-snoc f c n x [] s e = (ap (λ k. f (k % c)) (omega arith) ∙ e, tt)
  Stored-snoc f c n x (y ∷ xs) s e =
      (s.0, Stored-snoc f c (suc n) x xs s.1 (ap (λ k. f (k % c)) (omega arith) ∙ e))

  -- Writing just past the window extends it.
  pub Stored-extend :
      (f : ℕ → Option A) (c n i : ℕ) (x : A) (xs : List A)
      → n + length xs ≡ i
      → i < n + c
      → Stored f c n xs
      → Stored (update f (i % c) (some x)) c n (xs ++ x ∷ [])
  Stored-extend f c n i x xs e r s =
      Stored-snoc (update f (i % c) (some x)) c n x xs
        (Stored-update_after f c n i (some x) xs (omega arith) r s)
        (rw e (update_self f (i % c) (some x)))

  -- Destroying the first item leaves the rest.
  pub Stored-shrink :
      (f : ℕ → Option A) (c n : ℕ) (xs : List A)
      → length xs < c
      → Stored f c (suc n) xs
      → Stored (update f (n % c) none) c (suc n) xs
  Stored-shrink f c n xs r s =
      Stored-update_before f c (suc n) n none xs (omega arith) (omega arith) s

  pub Raw-extend :
      (f : ℕ → Option A) (c lo hi : ℕ) (v : Option A)
      → hi ≤ lo + c
      → Raw f c lo hi
      → Raw (update f (lo % c) v) c (suc lo) hi
  Raw-extend f c lo hi v r raw i p q =
      update_ne f (lo % c) (i % c) v (mod-ne c lo i p (omega arith)) ∙ raw i (omega arith) q

  pub Raw-shrink :
      (f : ℕ → Option A) (c lo n : ℕ)
      → Raw f c lo (n + c)
      → Raw (update f (n % c) none) c lo (suc n + c)
  Raw-shrink f c lo n raw i p q = elim (ℕ_discrete i (n + c)) [
    | yes e ↦ rw (e, add-mod_right n c) (update_self f (n % c) none)
    | no ne ↦ ground (arith, raw i p (omega arith))
  ]
