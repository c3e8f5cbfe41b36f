-- ===== src/Maglev/Count.antt =====
-- How many slots of a ring are taken: what `runs` counts.
use katran.Base.{ℕ, zero, suc, ◌≤◌, ◌<◌, ◌≡◌, refl, true, false, if◌then◌else◌, Bool-cases, arith}
use katran.Base.{inl, inr}
use katran.Maglev.{Ring, taken, put, free_slot}

unfoldable pub taken_count : Ring → ℕ → ℕ
taken_count ring zero = 0
taken_count ring (suc n) =
    let below = taken_count ring n in if taken (ring n) then suc below else below

pub taken_count-le : (ring : Ring) (n : ℕ) → taken_count ring n ≤ n
unfolding taken_count
taken_count-le ring zero = omega arith
taken_count-le ring (suc n) = ground (arith, taken_count-le ring n)

-- A ring that is not full has a free slot.
pub free_below :
    (ring : Ring) (n : ℕ) → taken_count ring n < n → (k : ℕ) × ((k < n) × (taken (ring k) ≡ false))
unfolding taken_count
free_below ring zero h = (zero, (h, grind arith))
free_below ring (suc n) h = elim (Bool-cases (taken (ring n))) [
  | inl t ↦ let (k, (l, f)) = free_below ring n (ground arith) in (k, (omega arith, f))
  | inr f ↦ (n, (omega arith, f))
]

-- A full ring has none.
pub full_taken : (ring : Ring) (n k : ℕ) → taken_count ring n ≡ n → k < n → taken (ring k) ≡ true
unfolding taken_count
full_taken ring zero k e h = grind arith
full_taken ring (suc n) k e h = ground (arith, taken_count-le ring n, full_taken ring n k)

pub taken_count-put_above :
    (ring : Ring) (i v n : ℕ) → n ≤ i → taken_count (put ring i v) n ≡ taken_count ring n
unfolding taken_count
taken_count-put_above ring i v zero h = refl
taken_count-put_above ring i v (suc n) h = ground (arith, taken_count-put_above ring i v n)

-- Taking a free slot adds one.
pub taken_count-put :
    (ring : Ring) (i v n : ℕ)
    → taken v ≡ true
    → taken (ring i) ≡ false
    → i < n
    → taken_count (put ring i v) n ≡ suc (taken_count ring n)
unfolding taken_count
taken_count-put ring i v zero t f h = omega arith
taken_count-put ring i v (suc n) t f h =
    ground (arith, taken_count-put ring i v n, taken_count-put_above ring i v n)

pub taken_count-free : (n : ℕ) → taken_count (λ _. free_slot) n ≡ 0
unfolding taken_count
taken_count-free zero = refl
taken_count-free (suc n) = taken_count-free n
