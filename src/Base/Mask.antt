-- ===== src/Base/Mask.antt =====
-- Masking by a power of two is the remainder: what `x & (Capacity - 1)` means under the
-- `static_assert`s of src/include/lockfree/SPSCQueue.h.
use Prim.Native.Nat.{
  ℕ, zero, suc, ◌+◌, ◌-◌, ◌*◌, ◌/◌, ◌%◌, ◌^◌, ◌≤◌, ◌<◌, min, bit_and, digits, bit_and-bitwise,
}
use mathlib.Core.Path.{◌≡◌, refl, sym, ap, ◌∙◌, ◌≡⟨◌⟩◌, ◌∎}
use mathlib.Core.Logic.{◌⊎◌, inl, inr}
use native.Mathlib.Nat.{div-add-mod, mod-lt, mod-eq_of_lt, mul-add-mod_self_left, pow-suc}
use native.Mathlib.Decide.{ℕ_discrete}
use native.Mathlib.Omega.{arith}

-- Induction on the binary digits of a number.
below_halves :
    (P : ℕ → Type 0) → P 0 → ((a : ℕ) → P (suc a / 2) → P (suc a)) → (bound a : ℕ) → a < bound → P a
below_halves P base up zero a h = absurd (omega arith)
below_halves P base up (suc bound) zero h = base
below_halves P base up (suc bound) (suc a) h =
    up a (below_halves P base up bound (suc a / 2) (omega arith))

by_halves : (P : ℕ → Type 0) → P 0 → ((a : ℕ) → P (suc a / 2) → P (suc a)) → (a : ℕ) → P a
by_halves P base up a = below_halves P base up (suc a) a (omega arith)

-- The count of digits that the operation starts with may be any that is large enough.
enough_digits :
    (bound count a b : ℕ)
    → count < bound
    → a ≤ count
    → digits (λ d. zero) min count a b ≡ bit_and a b
enough_digits zero count a b h q = absurd (omega arith)
enough_digits (suc bound) zero a b h q = rw (zero_of q) (sym (bit_and-bitwise 0 b))
  where
    zero_of : a ≤ 0 → a ≡ 0
    zero_of l = omega arith
enough_digits (suc bound) (suc count) zero b h q = sym (bit_and-bitwise 0 b)
enough_digits (suc bound) (suc count) (suc a) b h q =
    ap (λ r. r * 2 + min (suc a % 2) (b % 2))
      (enough_digits bound count (suc a / 2) (b / 2) (omega arith) (omega arith)
        ∙ sym (enough_digits bound a (suc a / 2) (b / 2) (omega arith) (omega arith)))
    ∙ sym (bit_and-bitwise (suc a) b)

-- A conjunction in its lowest digit and the others.
lowest_digit : (a b : ℕ) → bit_and a b ≡ min (a % 2) (b % 2) + 2 * bit_and (a / 2) (b / 2)
lowest_digit zero b = omega (arith, bit_and-bitwise 0 b, bit_and-bitwise 0 (b / 2))
lowest_digit (suc a) b =
    bit_and-bitwise (suc a) b
    ∙ ap (λ r. r * 2 + min (suc a % 2) (b % 2))
        (enough_digits (suc a) a (suc a / 2) (b / 2) (omega arith) (omega arith))
    ∙ omega arith

nothing_shared : (a : ℕ) → bit_and a 0 ≡ 0
nothing_shared =
    by_halves (λ a. bit_and a 0 ≡ 0) refl (λ a h. omega (arith, lowest_digit (suc a) 0, h))

all_shared : (a : ℕ) → bit_and a a ≡ a
all_shared =
    by_halves (λ a. bit_and a a ≡ a) refl (λ a h. omega (arith, lowest_digit (suc a) (suc a), h))

-- An odd number above one shares a digit with its predecessor.
odd_excluded : (c : ℕ) → 1 < c → c % 2 ≡ 1 → bit_and c (c - 1) ≡ 0 → ⊥
odd_excluded c p odd h = omega (arith, lowest_digit c (c - 1), all_shared (c / 2), halves)
  where
    halves : bit_and (c / 2) ((c - 1) / 2) ≡ bit_and (c / 2) (c / 2)
    halves = ap (bit_and (c / 2)) (omega arith)

-- For an even number the mask halves with it.
even_halves :
    (c : ℕ)
    → 0 < c
    → c % 2 ≡ 0
    → (x : ℕ) → bit_and x (c - 1) ≡ bit_and (x / 2) (c / 2 - 1) * 2 + x % 2
even_halves c p even x = omega (arith, lowest_digit x (c - 1), halves)
  where
    halves : bit_and (x / 2) ((c - 1) / 2) ≡ bit_and (x / 2) (c / 2 - 1)
    halves = ap (bit_and (x / 2)) (omega arith)

-- The remainder by an even number, from the remainder of the half.
even_mod : (m x : ℕ) → 0 < m → x % (2 * m) ≡ (x / 2) % m * 2 + x % 2
even_mod m x p =
    x % (2 * m)
    ≡⟨ ap (λ k. k % (2 * m)) split ⟩ (2 * m * (x / 2 / m) + (x / 2 % m * 2 + x % 2)) % (2 * m)
    ≡⟨ mul-add-mod_self_left (2 * m) (x / 2 / m) _ ⟩ (x / 2 % m * 2 + x % 2) % (2 * m)
    ≡⟨ mod-eq_of_lt (omega (arith, mod-lt (x / 2) p)) ⟩ x / 2 % m * 2 + x % 2 ∎
  where
    split : x ≡ 2 * m * (x / 2 / m) + (x / 2 % m * 2 + x % 2)
    split = omega (arith, div-add-mod (x / 2) m)

mask_fuel : (n c x : ℕ) → c ≤ n → 0 < c → bit_and c (c - 1) ≡ 0 → bit_and x (c - 1) ≡ x % c
mask_fuel zero c x h p power = absurd (omega arith)
mask_fuel (suc n) c x h p power = elim (parity c) [
  | inl even ↦ omega (
    arith,
    even_halves c p even x,
    mask_fuel n (c / 2) (x / 2) (omega arith) (omega arith) (omega (arith, even_halves c p even c)),
    even_mod (c / 2) x (omega arith),
    ap (λ k. x % k) (doubled even),
  )
  | inr odd ↦ elim (ℕ_discrete c 1) [
    | yes e ↦ rw e (omega (arith, nothing_shared x))
    | no ne ↦ absurd (odd_excluded c (omega arith) odd power)
  ]
]
  where
    parity : (k : ℕ) → (k % 2 ≡ 0) ⊎ (k % 2 ≡ 1)
    parity k = omega arith

    doubled : c % 2 ≡ 0 → c ≡ 2 * (c / 2)
    doubled even = omega arith

-- If a number above zero shares no digit with its predecessor, masking by the predecessor is the
-- remainder.
pub bit_and-mask : (c x : ℕ) → 0 < c → bit_and c (c - 1) ≡ 0 → bit_and x (c - 1) ≡ x % c
bit_and-mask c x p power = mask_fuel c c x (omega arith) p power

-- Such a number divides every power of two that it does not exceed.
pub pow-mod-mask : (n c : ℕ) → 0 < c → c ≤ 2 ^ n → bit_and c (c - 1) ≡ 0 → 2 ^ n % c ≡ 0
pow-mod-mask zero c p h power = rw (one_of h) (omega arith)
  where
    one_of : c ≤ 2 ^ 0 → c ≡ 1
    one_of q = omega arith
pow-mod-mask (suc n) c p h power = elim (parity c) [
  | inl even ↦ omega (
    arith,
    even_mod (c / 2) (2 ^ suc n) (omega arith),
    pow-mod-mask n (c / 2) (omega arith) (omega (arith, doubled))
        (omega (arith, even_halves c p even c)),
    ap (λ k. k % (c / 2)) halved,
    doubled,
    ap (λ k. 2 ^ suc n % k) (twice even),
  )
  | inr odd ↦ elim (ℕ_discrete c 1) [
    | yes e ↦ rw e (omega arith)
    | no ne ↦ absurd (odd_excluded c (omega arith) odd power)
  ]
]
  where
    parity : (k : ℕ) → (k % 2 ≡ 0) ⊎ (k % 2 ≡ 1)
    parity k = omega arith

    doubled : 2 ^ suc n ≡ 2 ^ n * 2
    doubled = pow-suc 2 n

    halved : 2 ^ suc n / 2 ≡ 2 ^ n
    halved = omega (arith, doubled)

    twice : c % 2 ≡ 0 → c ≡ 2 * (c / 2)
    twice even = omega arith
