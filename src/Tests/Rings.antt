-- ===== src/Tests/Rings.antt =====
-- The consistent hashing of the control plane on small inputs (katran/lib/CHHelpers.cpp,
-- katran/lib/Vip.cpp), and the witnesses of its theorems.
use katran.Base.{
  ℕ, zero, suc, ◌+◌, ◌*◌, ◌≡◌, ◌≢◌, refl, ◌⊎◌, inl, inr, true, if◌then◌else◌, ◌==◌, Option, none,
  some, List, [], ◌∷◌, arith,
}
use katran.Maglev.{
  Endpoint, Ring, Walker, free_slot, taken, slot, seek, place, turns, round, rounds,
  gen_maglev_permutation, gen_permutations, generate_maglev_hash, k_default_ch_ring_size,
}
use katran.Maglev.Inverse.{IsPrime}
use katran.Maglev.Generate.{numbered, generate_maglev_hash-numbered}
use katran.Maglev.Wraps.{seek_stuck}

factor_five : (a b : ℕ) → a * b ≡ 5 → (a ≡ 1) ⊎ (b ≡ 1)
factor_five zero b e = inl (omega arith)
factor_five (suc zero) b e = inl refl
factor_five (suc (suc zero)) b e = inl (omega arith)
factor_five (suc (suc (suc zero))) b e = inl (omega arith)
factor_five (suc (suc (suc (suc zero)))) b e = inl (omega arith)
factor_five (suc (suc (suc (suc (suc zero))))) b e = inr (omega arith)
factor_five (suc (suc (suc (suc (suc (suc n)))))) zero e = inl (omega arith)
factor_five (suc (suc (suc (suc (suc (suc n)))))) (suc b) e = inl (omega arith)

pub five-IsPrime : IsPrime 5
five-IsPrime = record { two_le = omega arith; factor = factor_five }

abbrev pub toy_murmur : ℕ → ℕ → ℕ → ℕ
toy_murmur hash a b = hash * 3 + a + b

abbrev pub first : Endpoint
first = record { num = 7; weight = 1; hash = 10 }

abbrev pub second : Endpoint
second = record { num = 8; weight = 2; hash = 21 }

abbrev to_list : ℕ → Ring → List ℕ
to_list zero r = []
to_list (suc n) r = r n ∷ to_list n r

abbrev slots : ℕ → Option Ring → List ℕ
slots n none = []
slots n (some r) = to_list n r

toy_ring :
    slots 5 (generate_maglev_hash toy_murmur 5 (first ∷ second ∷ [])) ≡ 7 ∷ 8 ∷ 7 ∷ 8 ∷ 8 ∷ []
unfolding generate_maglev_hash gen_permutations gen_maglev_permutation rounds round turns place seek
    slot
toy_ring = refl

generate_maglev_hash-numbered_example :
    (ring : Ring) × ((generate_maglev_hash toy_murmur 5 (first ∷ second ∷ []) ≡ some ring)
      × (numbered (first ∷ second ∷ []) ring 5 ≡ true))
unfolding gen_maglev_permutation
generate_maglev_hash-numbered_example =
    generate_maglev_hash-numbered toy_murmur 5 first (second ∷ []) five-IsPrime (omega arith) (
      record { num_lt = omega arith; heavy = omega arith; no_wrap = omega arith },
      (record { num_lt = omega arith; heavy = omega arith; no_wrap = omega arith }, tt),
    )

-- One free slot is left: the one after the offset.
abbrev almost_full : Ring
almost_full k = if k == 101 then free_slot else 5

abbrev wide_walker : Walker
wide_walker = record { num = 6; weight = 1; offset = 100; skip = 65536; next = 0 }

almost_full-taken : (k : ℕ) → k ≢ 101 → taken (almost_full k) ≡ true
almost_full-taken k h = ground arith

seek_stuck_example : seek 70000 k_default_ch_ring_size almost_full wide_walker ≡ none
seek_stuck_example = seek_stuck 70000 almost_full wide_walker refl (omega arith) almost_full-taken
