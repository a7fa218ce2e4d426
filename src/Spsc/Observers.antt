-- ===== src/Spsc/Observers.antt =====
-- `empty`, `size_approx` and `capacity` of src/include/lockfree/SPSCQueue.h, read while no access
-- is under way.
use sm_ext_socket.Base.{
  ℕ, ◌+◌, ◌-◌, ◌%◌, ◌^◌, ◌≤◌, ◌<◌, ◌≡◌, ap, ◌∙◌, List, arith, ◌==◌, length, dec_lt, mod-lt,
  mod-eq_of_lt, mod-add-mod, mod-eq-sub-mod, add-mod_right, ℕ_discrete, sym, bit_and, ◌⊎◌, inl, inr,
}
use sm_ext_socket.Base.Mask.{bit_and-mask, pow-mod-mask}
use sm_ext_socket.Spsc.{Spsc, masked, empty, size_approx, usable_capacity}
use sm_ext_socket.Spsc.Window.{mod-ne}
use sm_ext_socket.Spsc.Queue.{Represents}

module _ {ℓ} {A : Type ℓ} (q : Spsc A) where
  -- `empty` answers true exactly when no item is queued.
  pub empty-nil : (xs : List A) → Represents q xs → empty q ≡ (length xs == 0)
  unfolding empty
  empty-nil xs (k, v) = elim (ℕ_discrete (length xs) 0) [
    | yes e ↦ ground (arith, v.head_at, v.tail_at, ap (λ n. n % q.capacity) (same e))
    | no ne ↦
        ground
          (arith, v.head_at, v.tail_at, mod-ne q.capacity k.head k.tail (omega arith) (omega arith))
  ]
    where
      same : length xs ≡ 0 → k.head ≡ k.tail
      same e = omega arith

  -- The indices differ by the number of items, going round at the capacity.
  indices :
      (xs : List A) (r : Represents q xs)
      → (q.head < q.capacity)
        × (q.tail < q.capacity)
        × (length xs < q.capacity)
        × ((q.head + length xs ≡ q.tail) ⊎ (q.head + length xs ≡ q.tail + q.capacity))
  indices xs (k, v) = (inside_head, inside_tail, few, apart)
    where
      inside_head : q.head < q.capacity
      inside_head = rw v.head_at (mod-lt k.head (omega (arith, v.cap.big)))

      inside_tail : q.tail < q.capacity
      inside_tail = rw v.tail_at (mod-lt k.tail (omega (arith, v.cap.big)))

      few : length xs < q.capacity
      few = omega arith

      shift : (q.head + length xs) % q.capacity ≡ q.tail
      shift =
          rw (v.head_at, v.tail_at)
            (mod-add-mod k.head q.capacity (length xs) ∙ ap (λ n. n % q.capacity) (omega arith))

      apart : (q.head + length xs ≡ q.tail) ⊎ (q.head + length xs ≡ q.tail + q.capacity)
      apart = elim (dec_lt (q.head + length xs) q.capacity) [
        | yes under ↦ inl (omega (arith, shift, mod-eq_of_lt under))
        | no over ↦ inr (
            omega (
              arith,
              shift,
              mod-eq-sub-mod {n = q.head + length xs} {m = q.capacity} (omega arith),
              mod-eq_of_lt {n = q.head + length xs - q.capacity} {m = q.capacity}
                  (omega (arith, inside_head, few)),
            ))
      ]

  -- The wrapped difference of two indices, masked.
  wrapped_mod :
      (c h t : ℕ) → h < c → t < h → c ≤ 2 ^ 64 → 2 ^ 64 % c ≡ 0 → (2 ^ 64 + t - h) % c ≡ c + t - h
  wrapped_mod c h t p r small whole =
      sym (add-mod_right (2 ^ 64 + t - h) c)
      ∙ ap (λ n. n % c) regroup
      ∙ sym (mod-add-mod (2 ^ 64) c (c + t - h))
      ∙ ap (λ n. (n + (c + t - h)) % c) whole
      ∙ mod-eq_of_lt {n = 0 + (c + t - h)} (omega arith)
      ∙ omega arith
    where
      regroup : 2 ^ 64 + t - h + c ≡ 2 ^ 64 + (c + t - h)
      regroup = omega arith

  -- If the capacity is at most 2^64, `size_approx` is the number of items queued, which is at most
  -- `capacity()`, and below `Capacity`.
  pub size_approx-length :
      (xs : List A)
      → q.capacity ≤ 2 ^ 64
      → Represents q xs
      → (size_approx q ≡ length xs) × (length xs ≤ usable_capacity q)
  unfolding size_approx usable_capacity masked
  size_approx-length xs small (k, v) = (size, omega (arith, v.cap.big))
    where
      at :
          (q.head < q.capacity)
          × (q.tail < q.capacity)
          × (length xs < q.capacity)
          × ((q.head + length xs ≡ q.tail) ⊎ (q.head + length xs ≡ q.tail + q.capacity))
      at = indices xs (k, v)

      size : bit_and ((2 ^ 64 + q.tail - q.head) % 2 ^ 64) (q.capacity - 1) ≡ length xs
      size = bit_and-mask q.capacity _ (omega (arith, v.cap.big)) v.cap.power ∙ elim at.3 [
        | inl e ↦ ap (λ n. n % q.capacity) (omega (arith, at.1, at.2)) ∙ mod-eq_of_lt at.2
        | inr e ↦
            ap (λ n. n % q.capacity) (mod-eq_of_lt (omega (arith, at.0, at.2)))
            ∙ wrapped_mod q.capacity q.head q.tail at.0 (omega (arith, at.2)) small
                (pow-mod-mask 64 q.capacity (omega (arith, v.cap.big)) small v.cap.power)
            ∙ omega (arith, at.2)
      ]
