-- ===== src/Base/Masks.antt =====
-- `&` with a low mask as a remainder, and `|` of disjoint fields as a sum.
use Prim.Native.Nat.{ℕ, zero, suc, ◌+◌, ◌-◌, ◌*◌, ◌/◌, ◌%◌, ◌^◌, ◌≤◌, ◌<◌, min, max}
use Prim.Native.Nat.{bit_and, bit_or, bitwise, digits, bit_and-bitwise, bit_or-bitwise}
use mathlib.Core.Path.{◌≡◌, refl, ap}
use native.Mathlib.Nat.{pow-suc, one-le-pow}
use mathlib.Core.Bool.{Bool, true, ◌&&◌}
use native.Mathlib.Omega.{arith}
use katran.Base.Tests.{◌==◌, ==→eq}

-- A digit-wise operation: `f` on two digits, `z` for the rest once the first number has run out.
module _ (z : ℕ → ℕ) (f : ℕ → ℕ → ℕ) where
  spare_count : (n m a b : ℕ) → a ≤ n → n ≤ m → digits z f m a b ≡ digits z f n a b
  spare_count zero zero zero b few more = refl
  spare_count zero (suc m) zero b few more = refl
  spare_count (suc n) (suc m) zero b few more = refl
  spare_count (suc n) (suc m) (suc a) b few more =
      ap (λ t. t * 2 + f (suc a % 2) (b % 2))
        (spare_count n m (suc a / 2) (b / 2) (omega arith) (omega arith))
  spare_count zero _ (suc a) b few more = absurd (omega arith)
  spare_count (suc n) zero _ b few more = absurd (omega arith)

  module _ (rest : (b : ℕ) → z b ≡ z (b / 2) * 2 + f 0 (b % 2)) where
    lowest_digit : (a b : ℕ) → bitwise z f a b ≡ bitwise z f (a / 2) (b / 2) * 2 + f (a % 2) (b % 2)
    lowest_digit zero b = rest b
    lowest_digit (suc a) b =
        ap (λ t. t * 2 + f (suc a % 2) (b % 2))
          (spare_count (suc a / 2) a (suc a / 2) (b / 2) (omega arith) (omega arith))

lowest_and : (a b : ℕ) → bit_and a b ≡ bit_and (a / 2) (b / 2) * 2 + min (a % 2) (b % 2)
lowest_and a b =
    let low = lowest_digit (λ b. 0) min (λ b. omega arith) a b in
    rw (bit_and-bitwise a b, bit_and-bitwise (a / 2) (b / 2)) low

lowest_or : (a b : ℕ) → bit_or a b ≡ bit_or (a / 2) (b / 2) * 2 + max (a % 2) (b % 2)
lowest_or a b =
    let low = lowest_digit (λ b. b) max (λ b. omega arith) a b in
    rw (bit_or-bitwise a b, bit_or-bitwise (a / 2) (b / 2)) low

doubled : (q k : ℕ) → q * 2 ^ suc k ≡ q * 2 ^ k * 2
doubled q k = omega (arith, ap (λ t. q * t) (pow-suc 2 k))

-- `(q << k) | r` is a sum when `r` fits in `k` bits. The count `n` is for the digits of `q`.
or_zero : (n q : ℕ) → q ≤ n → bit_or q 0 ≡ q
or_zero _ zero small = refl
or_zero (suc n) (suc q) small =
    ground (arith, lowest_or (suc q) 0, or_zero n (suc q / 2) (omega arith))
or_zero zero (suc q) small = absurd (omega arith)

and_zero : (n q : ℕ) → q ≤ n → bit_and q 0 ≡ 0
and_zero _ zero small = refl
and_zero (suc n) (suc q) small =
    omega (arith, lowest_and (suc q) 0, and_zero n (suc q / 2) (omega arith))
and_zero zero (suc q) small = absurd (omega arith)

pub bit_or_fields : (k q r : ℕ) → r < 2 ^ k → bit_or (q * 2 ^ k) r ≡ q * 2 ^ k + r
bit_or_fields k q r fits = by_fields k r fits
  where
    by_fields : (k r : ℕ) → r < 2 ^ k → bit_or (q * 2 ^ k) r ≡ q * 2 ^ k + r
    by_fields zero zero fits = ground (arith, or_zero q q)
    by_fields zero (suc r) fits = absurd (omega arith)
    by_fields (suc k) r fits = ground (
      arith,
      doubled q k,
      lowest_or (q * 2 ^ suc k) r,
      by_fields k (r / 2) (omega (arith, pow-suc 2 k)),
    )

-- A mask of `k` low bits is the remainder by `2 ^ k`.
pub bit_and_mask : (k a : ℕ) → bit_and a (2 ^ k - 1) ≡ a % 2 ^ k
bit_and_mask k a = ground (arith, one-le-pow k 2, kept k (a / 2 ^ k) (a % 2 ^ k))
  where
    kept : (k q r : ℕ) → r < 2 ^ k → bit_and (q * 2 ^ k + r) (2 ^ k - 1) ≡ r
    kept zero q zero fits = ground (arith, and_zero q q)
    kept zero q (suc r) fits = absurd (omega arith)
    kept (suc k) q r fits =
        let mask = 2 ^ suc k - 1 in
        let below = kept k q (r / 2) (omega (arith, pow-suc 2 k)) in
        ground (arith, pow-suc 2 k, doubled q k, lowest_and (q * 2 ^ suc k + r) mask, below)

passes : ℕ → (ℕ → Bool) → Bool
passes zero test = true
passes (suc n) test = test n && passes n test

passes_at : (n x : ℕ) (test : ℕ → Bool) → x < n → passes n test ≡ true → test x ≡ true
unfolding passes
passes_at (suc n) x test few all = ground (arith, passes_at n x test)
passes_at zero x test few all = absurd (omega arith)

on_bytes : (test : ℕ → Bool) (x : ℕ) → passes 256 test ≡ true → x < 256 → test x ≡ true
on_bytes test x all few = passes_at 256 x test few all

high_bit_table : passes 256 (λ x. bit_and x 0x80 == x / 128 * 128) ≡ true
unfolding passes
high_bit_table = refl

pub bit_and_high_bit : (x : ℕ) → x < 256 → bit_and x 0x80 ≡ x / 128 * 128
bit_and_high_bit x h = ==→eq _ _ (on_bytes _ x high_bit_table h)

bits_4_5_table : passes 256 (λ x. bit_and x 0x30 == x / 16 % 4 * 16) ≡ true
unfolding passes
bits_4_5_table = refl

pub bit_and_bits_4_5 : (x : ℕ) → x < 256 → bit_and x 0x30 ≡ x / 16 % 4 * 16
bit_and_bits_4_5 x h = ==→eq _ _ (on_bytes _ x bits_4_5_table h)

high_half_table : passes 256 (λ x. bit_and x 0xf0 == x / 16 * 16) ≡ true
unfolding passes
high_half_table = refl

pub bit_and_high_half : (x : ℕ) → x < 256 → bit_and x 0xf0 ≡ x / 16 * 16
bit_and_high_half x h = ==→eq _ _ (on_bytes _ x high_half_table h)
