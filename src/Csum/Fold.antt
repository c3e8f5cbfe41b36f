-- ===== src/Csum/Fold.antt =====
-- What four rounds of `csum_fold_helper` give.
use katran.Base.{ℕ, suc, ◌+◌, ◌-◌, ◌%◌, ◌/◌, ◌≤◌, ◌<◌, ◌^◌, ◌≡◌, refl, arith, bit_and_mask, ◌==◌}
use katran.Base.{if◌then◌else◌}
use katran.Csum.{fold_round, fold_rounds, csum_fold_helper}

-- The one's complement sum: the representative of the class modulo 65535 that is 0 only for 0.
abbrev pub ones_sum : ℕ → ℕ
ones_sum n = if n == 0 then 0 else suc ((n - 1) % 65535)

fold_round-eq : (c : ℕ) → fold_round c ≡ c % 65536 + c / 65536
unfolding fold_round
fold_round-eq c = ground (arith, bit_and_mask 16 c)

ones_sum-fold_round : (c : ℕ) → ones_sum (fold_round c) ≡ ones_sum c
ones_sum-fold_round c = ground (arith, fold_round-eq c)

-- Four rounds are enough for 64 bits.
fold_rounds-le : (c : ℕ) → c < 2 ^ 64 → fold_rounds 4 c ≤ 65535
unfolding fold_rounds
fold_rounds-le c h = omega (arith, fold_round-eq)

ones_sum-fold_rounds : (c : ℕ) → ones_sum (fold_rounds 4 c) ≡ ones_sum c
unfolding fold_rounds
ones_sum-fold_rounds c = omega (arith, ones_sum-fold_round)

ones_sum_small : (c : ℕ) → c ≤ 65535 → ones_sum c ≡ c
ones_sum_small c h = ground arith

csum_fold_helper-eq : (c : ℕ) → csum_fold_helper c ≡ 65535 - fold_rounds 4 c % 65536
unfolding csum_fold_helper
csum_fold_helper-eq c = refl

-- `csum_fold_helper` of any 64-bit sum is the complement of its one's complement sum.
pub csum_fold_helper_lem : (c : ℕ) → c < 2 ^ 64 → csum_fold_helper c + ones_sum c ≡ 65535
csum_fold_helper_lem c h = omega (
  arith,
  csum_fold_helper-eq c,
  fold_rounds-le c h,
  ones_sum-fold_rounds c,
  ones_sum_small (fold_rounds 4 c) (fold_rounds-le c h),
)
