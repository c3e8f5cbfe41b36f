-- ===== src/Helpers/Ttl.antt =====
-- The TTL of an inner IPv4 header and its checksum.
use katran.Base.{
  ℕ, ◌+◌, ◌-◌, ◌/◌, ◌%◌, ◌^◌, ◌≤◌, ◌<◌, ◌≡◌, ◌≢◌, false, refl, arith, u8, bit_and_mask,
}
use katran.Base.{none, inr}
use katran.Xdp.{Xdp, u16_at, put8, put16, IsBytes}
use katran.Xdp.Bytes.{u16_at-lt, u16_at-put8_ne, put8-len}
use katran.Run.{State, done}
use katran.Run.Bounds.{Leaves}
use katran.Csum.Words.{words_sum}
use katran.Csum.Fold.{ones_sum}
use katran.Csum.Header.{IsChecked, words_sum-put16_check}
use katran.Helpers.{decrement_ttl, adjusted_check}

adjusted_check-eq : (c : ℕ) → c < 65536 → adjusted_check c ≡ (c + 1) % 65536 + (c + 1) / 65536
unfolding adjusted_check
adjusted_check-eq c h = omega (arith, bit_and_mask 16 (c + 1))

-- The packet after a decrement that goes on.
abbrev aged : Xdp → ℕ → Xdp
aged x i =
    put16 (put8 x (i + 8) (u8 (x.byte (i + 8) + 255))) (i + 10) (adjusted_check (u16_at x (i + 10)))

decrement_ttl_v4_run :
    (i : ℕ) (s : State)
    → i + 20 ≤ s.xdp.len
    → u8 (s.xdp.byte (i + 8) + 255) ≢ 0
    → decrement_ttl i false s ≡ done none (record s { xdp = aged s.xdp i })
unfolding decrement_ttl
decrement_ttl_v4_run i s h n = grind (arith, put8-len, u16_at-put8_ne)

words_sum-put8_ttl :
    (x : Xdp) (i v : ℕ)
    → words_sum 10 (put8 x (i + 8) v) i + x.byte (i + 8) ≡ words_sum 10 x i + v % 2 ^ 8
unfolding words_sum u16_at put8
words_sum-put8_ttl x i v = ground arith

words_sum-ge : (x : Xdp) (i : ℕ) → x.byte (i + 8) + u16_at x (i + 10) ≤ words_sum 10 x i
unfolding words_sum u16_at
words_sum-ge x i = ground arith

-- One's complement arithmetic: a word goes down by one and the checksum up by one.
step_checksum :
    (t c a w : ℕ)
    → c < 65536
    → 2 ≤ t
    → t + c ≤ w
    → a ≡ (c + 1) % 65536 + (c + 1) / 65536
    → ones_sum w ≡ 65535
    → ones_sum (w + a - 1 - c) ≡ 65535
step_checksum t c a w hc ht hw ha h = ground arith

aged-IsChecked :
    (x : Xdp) (i : ℕ) → IsBytes x → 2 ≤ x.byte (i + 8) → IsChecked x i → IsChecked (aged x i) i
aged-IsChecked x i h t ok =
    let c = u16_at x (i + 10) in
    let y = put8 x (i + 8) (u8 (x.byte (i + 8) + 255)) in
    let lt : c < 65536 = u16_at-lt x (i + 10) h in
    let a = adjusted_check c in
    let a_eq : a ≡ (c + 1) % 65536 + (c + 1) / 65536 = adjusted_check-eq c lt in
    let sum : words_sum 10 (aged x i) i ≡ words_sum 10 x i + a - 1 - c = omega (
      arith,
      words_sum-put16_check y i a,
      words_sum-put8_ttl x i (u8 (x.byte (i + 8) + 255)),
      u16_at-put8_ne x (i + 8) (u8 (x.byte (i + 8) + 255)) (i + 10) (inr (omega arith)),
      words_sum-ge x i,
      h (i + 8),
    ) in
    rw sum (step_checksum (x.byte (i + 8)) c a (words_sum 10 x i) lt t (words_sum-ge x i) a_eq ok)

aged-ttl : (x : Xdp) (i : ℕ) → (aged x i).byte (i + 8) ≡ u8 (x.byte (i + 8) + 255)
unfolding put8 put16
aged-ttl x i = ground arith

-- The bytes of the header that a decrement may change are the TTL and the two of the checksum.
aged-elsewhere :
    (x : Xdp) (i j : ℕ) → j ≢ i + 8 → j ≢ i + 10 → j ≢ i + 11 → (aged x i).byte j ≡ x.byte j
unfolding put8 put16
aged-elsewhere x i j a b c = ground arith

-- What `decrement_ttl` does to the IPv4 header at `i` of `x`.
pub record IsAged (i : ℕ) (x y : Xdp) : Type 0 where
  pub ttl : y.byte (i + 8) + 1 ≡ x.byte (i + 8)
  pub checked : IsChecked y i
  pub elsewhere : (j : ℕ) → j ≢ i + 8 → j ≢ i + 10 → j ≢ i + 11 → y.byte j ≡ x.byte j

-- An IPv4 header inside the packet, with a valid checksum and a TTL of two or more, has the TTL one
-- less and a valid checksum after `decrement_ttl`, and no other byte changes.
pub decrement_ttl-IsAged :
    (i : ℕ) (s : State)
    → IsBytes s.xdp
    → i + 20 ≤ s.xdp.len
    → 2 ≤ s.xdp.byte (i + 8)
    → IsChecked s.xdp i
    → Leaves (λ a s'. (a ≡ none) × IsAged i s.xdp s'.xdp) (decrement_ttl i false s)
decrement_ttl-IsAged i s h room t ok =
    let left : u8 (s.xdp.byte (i + 8) + 255) ≢ 0 = omega (arith, h (i + 8)) in
    rw (decrement_ttl_v4_run i s room left) (
      refl,
      record {
        ttl = omega (arith, aged-ttl s.xdp i, h (i + 8));
        checked = aged-IsChecked s.xdp i h t ok;
        elsewhere = aged-elsewhere s.xdp i;
      },
    )

wrapped_checksum :
    (c a w : ℕ)
    → c < 65536
    → c ≤ w
    → a ≡ (c + 1) % 65536 + (c + 1) / 65536
    → ones_sum w ≡ 65535
    → ones_sum (w + 255 + a - c) ≢ 65535
wrapped_checksum c a w hc hw ha h = ground arith

aged_zero-unchecked :
    (x : Xdp) (i : ℕ) → IsBytes x → x.byte (i + 8) ≡ 0 → IsChecked x i → ¬ (IsChecked (aged x i) i)
aged_zero-unchecked x i h z ok =
    let c = u16_at x (i + 10) in
    let y = put8 x (i + 8) (u8 (x.byte (i + 8) + 255)) in
    let lt : c < 65536 = u16_at-lt x (i + 10) h in
    let a = adjusted_check c in
    let a_eq : a ≡ (c + 1) % 65536 + (c + 1) / 65536 = adjusted_check-eq c lt in
    let sum : words_sum 10 (aged x i) i ≡ words_sum 10 x i + 255 + a - c = omega (
      arith,
      words_sum-put16_check y i a,
      words_sum-put8_ttl x i (u8 (x.byte (i + 8) + 255)),
      u16_at-put8_ne x (i + 8) (u8 (x.byte (i + 8) + 255)) (i + 10) (inr (omega arith)),
      words_sum-ge x i,
    ) in
    rw sum (wrapped_checksum c a (words_sum 10 x i) lt (omega (arith, words_sum-ge x i)) a_eq ok)

-- A TTL of zero wraps: `decrement_ttl` goes on with a TTL of 255 and a checksum that is not valid.
pub decrement_ttl_wraps :
    (i : ℕ) (s : State)
    → IsBytes s.xdp
    → i + 20 ≤ s.xdp.len
    → s.xdp.byte (i + 8) ≡ 0
    → IsChecked s.xdp i
    → Leaves
        (λ a s'. (a ≡ none) × (s'.xdp.byte (i + 8) ≡ 255) × ¬ (IsChecked s'.xdp i))
        (decrement_ttl i false s)
decrement_ttl_wraps i s h room z ok =
    let left : u8 (s.xdp.byte (i + 8) + 255) ≢ 0 = omega arith in
    rw (decrement_ttl_v4_run i s room left)
      (refl, omega (arith, aged-ttl s.xdp i), aged_zero-unchecked s.xdp i h z ok)
