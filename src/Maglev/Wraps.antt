-- ===== src/Maglev/Wraps.antt =====
-- The walk of GenerateMaglevHash (katran/lib/CHHelpers.cpp) with the default ring size and the
-- largest step, whose 32-bit products wrap.
use katran.Base.{
  ℕ, zero, suc, ◌+◌, ◌*◌, ◌%◌, ◌<◌, ◌≡◌, ◌≢◌, refl, sym, ap, ◌∙◌, true, arith, u32, none,
}
use katran.Maglev.{Ring, taken, slot, seek, Walker, k_default_ch_ring_size}

product_wraps : (n : ℕ) → u32 (n * 65536) ≡ n % 65536 * 65536
product_wraps n = omega arith

misses : (o m : ℕ) → o < 65536 → m < 65536 → (o + m * 65536) % 65537 ≢ suc o
misses o m h l e = omega arith

no_carry : (o m : ℕ) → o < 65536 → m < 65536 → u32 (o + m * 65536) ≡ o + m * 65536
no_carry o m h l = omega arith

skips_one :
    (w : Walker) (n : ℕ)
    → w.skip ≡ 65536
    → w.offset < 65536
    → slot k_default_ch_ring_size w n ≢ suc w.offset
unfolding slot
skips_one w n e h s =
    let m = n % 65536 in
    let l : m < 65536 = omega arith in
    misses w.offset m h l (
      sym (ap (λ x. x % 65537) (no_carry w.offset m h l))
      ∙ sym (ap (λ x. u32 (w.offset + x) % 65537) (ap (λ x. u32 (n * x)) e ∙ product_wraps n))
      ∙ s)

-- With the default ring size of 65537, an endpoint whose offset is below 65536 and whose skip is
-- 65536 never reaches the slot after its offset: when no other slot is free, no number of steps of
-- the `while` loop finds a free one.
pub seek_stuck :
    (fuel : ℕ) (ring : Ring) (w : Walker)
    → w.skip ≡ 65536
    → w.offset < 65536
    → ((k : ℕ) → k ≢ suc w.offset → taken (ring k) ≡ true)
    → seek fuel k_default_ch_ring_size ring w ≡ none
unfolding seek slot
seek_stuck zero ring w e h t = refl
seek_stuck (suc fuel) ring w e h t = grind (
  arith,
  t (slot k_default_ch_ring_size w w.next) (skips_one w w.next e h),
  seek_stuck fuel ring (record w { next = suc w.next }) e h t,
)
