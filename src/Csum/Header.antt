-- ===== src/Csum/Header.antt =====
-- A header whose check field is computed over the header with the field zero is valid.
use katran.Base.{ℕ, ◌+◌, ◌%◌, ◌^◌, ◌<◌, ◌≡◌, arith}
use katran.Xdp.{Xdp, u16_at, put16, IsBytes}
use katran.Xdp.Bytes.{u16_at-lt, u16_at-put16_self, u16_at-put16_ne}
use katran.Csum.{csum_fold_helper}
use katran.Csum.Fold.{ones_sum, csum_fold_helper_lem}
use katran.Csum.Words.{words_sum}

-- The ten words of the IPv4 header at `i` add up to 65535 in one's complement, as RFC 791 asks.
abbrev pub IsChecked : Xdp → ℕ → Type 0
IsChecked x i = ones_sum (words_sum 10 x i) ≡ 65535

pub words_sum-lt : (x : Xdp) (i : ℕ) → IsBytes x → words_sum 10 x i < 655360
unfolding words_sum
words_sum-lt x i h = omega (
  arith,
  u16_at-lt x i h,
  u16_at-lt x (i + 2) h,
  u16_at-lt x (i + 2 + 2) h,
  u16_at-lt x (i + 2 + 2 + 2) h,
  u16_at-lt x (i + 2 + 2 + 2 + 2) h,
  u16_at-lt x (i + 2 + 2 + 2 + 2 + 2) h,
  u16_at-lt x (i + 2 + 2 + 2 + 2 + 2 + 2) h,
  u16_at-lt x (i + 2 + 2 + 2 + 2 + 2 + 2 + 2) h,
  u16_at-lt x (i + 2 + 2 + 2 + 2 + 2 + 2 + 2 + 2) h,
  u16_at-lt x (i + 2 + 2 + 2 + 2 + 2 + 2 + 2 + 2 + 2) h,
)

pub words_sum-pos : (x : Xdp) (i : ℕ) → 0 < x.byte i → 0 < words_sum 10 x i
unfolding words_sum u16_at
words_sum-pos x i h = omega arith

-- The sum after a write to the check field.
pub words_sum-put16_check :
    (x : Xdp) (i v : ℕ)
    → words_sum 10 (put16 x (i + 10) v) i + u16_at x (i + 10) ≡ words_sum 10 x i + v % 2 ^ 16
unfolding words_sum
words_sum-put16_check x i v = grind (arith, u16_at-put16_self x (i + 10) v, u16_at-put16_ne)

complement_is_checked :
    (w t : ℕ) → 0 < w → w < 655360 → t + ones_sum w ≡ 65535 → ones_sum (w + t) ≡ 65535
complement_is_checked w t p b e = ground arith

pub put_check-IsChecked :
    (x : Xdp) (i : ℕ)
    → IsBytes x
    → u16_at x (i + 10) ≡ 0
    → 0 < words_sum 10 x i
    → IsChecked (put16 x (i + 10) (csum_fold_helper (words_sum 10 x i))) i
put_check-IsChecked x i h z p =
    let w = words_sum 10 x i in
    let t = csum_fold_helper w in
    let small : w < 655360 = words_sum-lt x i h in
    let complement : t + ones_sum w ≡ 65535 = csum_fold_helper_lem w (omega arith) in
    let sum : words_sum 10 (put16 x (i + 10) t) i ≡ w + t =
      omega (arith, words_sum-put16_check x i t) in
    rw sum (complement_is_checked w t p small complement)
