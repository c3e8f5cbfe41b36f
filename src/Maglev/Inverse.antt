-- ===== src/Maglev/Inverse.antt =====
-- Arithmetic modulo a prime ring size (katran/lib/CHHelpers.h: "ring_size must be prime number").
use katran.Base.{ℕ, zero, suc, ◌+◌, ◌-◌, ◌*◌, ◌%◌, ◌/◌, ◌≤◌, ◌<◌, ◌≡◌, refl, sym, ap, ◌∙◌, arith}
use katran.Base.{◌⊎◌, inl, inr}
use native.Mathlib.Nat.{mod-lt, add-mul-mod_self_left, div-add-mod, mod-eq_of_lt}

pub record IsPrime (p : ℕ) : Type 0 where
  pub two_le : 2 ≤ p
  pub factor : (a b : ℕ) → a * b ≡ p → (a ≡ 1) ⊎ (b ≡ 1)

Nat-cases : (n : ℕ) → (n ≡ 0) ⊎ (1 ≤ n)
Nat-cases zero = inl refl
Nat-cases (suc n) = inr (omega arith)

one-cases : (n : ℕ) → 1 ≤ n → (n ≡ 1) ⊎ (2 ≤ n)
one-cases zero h = omega arith
one-cases (suc zero) h = inl refl
one-cases (suc (suc n)) h = inr (omega arith)

-- One step of Euclid's algorithm for the inverse, from r * b = 1 modulo p with p = a * q + r.
inverse_step :
    (c a q r b : ℕ) → a * q + r ≡ suc c → (r * b) % suc c ≡ 1 → (a * (q * b * c)) % suc c ≡ 1
inverse_step c a q r b e k =
    let poly : a * (q * b * c) + suc c * (r * b) ≡ r * b + suc c * (b * c) =
      omega (arith, ap (λ x. c * b * x) e) in
    sym (add-mul-mod_self_left (a * (q * b * c)) (suc c) (r * b))
    ∙ ap (λ x. x % suc c) poly
    ∙ add-mul-mod_self_left (r * b) (suc c) (b * c)
    ∙ k

-- A step that is not 1 does not divide the prime.
remainder_pos : (c a : ℕ) → IsPrime (suc c) → 2 ≤ a → a < suc c → 1 ≤ suc c % a
remainder_pos c a prime l h = elim (Nat-cases (suc c % a)) [
  | inl z ↦ elim (prime.factor a (suc c / a) (omega (arith, div-add-mod (suc c) a, z))) [
    | inl one ↦ omega arith
    | inr one ↦ omega (arith, div-add-mod (suc c) a, z, ap (λ x. a * x) one)
  ]
  | inr pos ↦ pos
]

-- Every step below a prime has an inverse.
inverse_below :
    (c : ℕ)
    → IsPrime (suc c)
    → (n a : ℕ) → a ≤ n
    → 1 ≤ a
    → a < suc c
    → (b : ℕ) × ((a * b) % suc c ≡ 1)
inverse_below c prime zero a l u h = (zero, omega arith)
inverse_below c prime (suc n) a l u h = elim (one-cases a u) [
  | inl one ↦ (1, omega (arith, prime.two_le, mod-eq_of_lt))
  | inr two ↦
      let ih =
        inverse_below c prime n (suc c % a) (omega (arith, mod-lt (suc c) {m = a}))
          (remainder_pos c a prime two h) (omega (arith, mod-lt (suc c) {m = a})) in
      (
        suc c / a * ih.0 * c,
        inverse_step c a (suc c / a) (suc c % a) ih.0 (div-add-mod (suc c) a) ih.1,
      )
]

-- The multiples of the prime in the two products, cast out.
walk-eq :
    (p offset skip i d b q m q2 : ℕ)
    → p * q + m ≡ d * b
    → p * q2 + 1 ≡ skip * b
    → offset + d ≡ i + p
    → (offset + m * skip) % p ≡ i % p
walk-eq p offset skip i d b q m q2 e f g =
    let poly : (offset + m * skip) + p * (q * skip) ≡ i + p * (1 + d * q2) =
      omega (arith, ap (λ x. x * skip) e, ap (λ x. d * x) f) in
    sym (add-mul-mod_self_left (offset + m * skip) p (q * skip))
    ∙ ap (λ x. x % p) poly
    ∙ add-mul-mod_self_left i p (1 + d * q2)

-- The walk from any offset by a step below the prime visits every position.
pub visits :
    (c : ℕ)
    → IsPrime (suc c)
    → (offset skip i : ℕ) → offset < suc c
    → 1 ≤ skip
    → skip < suc c
    → i < suc c
    → (m : ℕ) × ((m < suc c) × ((offset + m * skip) % suc c ≡ i))
visits c prime offset skip i o l h u =
    let inv = inverse_below c prime skip skip (omega arith) l h in
    let d = i + suc c - offset in
    let db = d * inv.0 in
    (
      db % suc c,
      (
        mod-lt db (omega arith),
        walk-eq (suc c) offset skip i d inv.0 (db / suc c) (db % suc c) (skip * inv.0 / suc c)
              (div-add-mod db (suc c)) (omega (arith, div-add-mod (skip * inv.0) (suc c), inv.1))
              (omega arith)
            ∙ mod-eq_of_lt u,
      ),
    )
