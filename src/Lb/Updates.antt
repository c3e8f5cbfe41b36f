-- ===== src/Lb/Updates.antt =====
-- How often a VIP refers to a number, under the updates of its reals (katran/lib/Vip.cpp).
use katran.Base.{
  ℕ, ◌+◌, ◌≤◌, ◌≡◌, refl, ap, subst, Bool, false, Bool-cases, Option-cases, ◌==◌, ==→eq, ==-refl,
  one_if, count, arith,
}
use katran.Base.{inl, inr, some, List, [], ◌∷◌, ◌++◌, number_key, find, erase, write}
use katran.Vip.{
  Vip, RealMap, VipRealMeta, get_reals, UpdateReal, add, update_by, update_reals, meta_of,
  batch_reals_update, rebuild, get_endpoints, RealPos,
}
use katran.Maglev.{Endpoint, generate_maglev_hash}

-- The numbers that a VIP refers to, under the updates of its reals.
pub count-write_le :
    (rs : RealMap) (n k : ℕ) (m : VipRealMeta)
    → count (get_reals (write number_key rs n m)) k ≤ count (get_reals rs) k + one_if (n == k)
unfolding count get_reals write
count-write_le [] n k m = omega arith
count-write_le ((j, x) ∷ rs) n k m = grind (arith, count-write_le rs n k m)

pub count-write_there :
    (rs : RealMap) (n k : ℕ) (m : VipRealMeta)
    → 1 ≤ count (get_reals rs) n
    → count (get_reals (write number_key rs n m)) k ≡ count (get_reals rs) k
unfolding count get_reals write
count-write_there [] n k m h = let absurd : ⊥ = omega arith in elim absurd [ ]
count-write_there ((j, x) ∷ rs) n k m h = elim (Bool-cases (j == n)) [
  | inl e ↦ grind (arith, e)
  | inr e ↦ grind (arith, e, count-write_there rs n k m (omega (arith, ap one_if e)))
]

pub count-le_write :
    (rs : RealMap) (n k : ℕ) (m : VipRealMeta)
    → count (get_reals rs) k ≤ count (get_reals (write number_key rs n m)) k
unfolding count get_reals write
count-le_write [] n k m = omega arith
count-le_write ((j, x) ∷ rs) n k m = grind (arith, count-le_write rs n k m)

pub count-write_pos :
    (rs : RealMap) (n : ℕ) (m : VipRealMeta) → 1 ≤ count (get_reals (write number_key rs n m)) n
unfolding count get_reals write
count-write_pos [] n m = omega (arith, ap one_if (==-refl n))
count-write_pos ((j, x) ∷ rs) n m = elim (Bool-cases (j == n)) [
  | inl e ↦ grind (arith, e)
  | inr e ↦ grind (arith, e, count-write_pos rs n m)
]

pub count-erase_same : (rs : RealMap) (n : ℕ) → count (get_reals (erase number_key rs n)) n ≡ 0
unfolding count get_reals erase
count-erase_same [] n = refl
count-erase_same ((j, x) ∷ rs) n = elim (Bool-cases (j == n)) [
  | inl e ↦ grind (arith, e, count-erase_same rs n)
  | inr e ↦ grind (arith, e, count-erase_same rs n)
]

pub count-erase_other :
    (rs : RealMap) (n k : ℕ)
    → (n == k) ≡ false
    → count (get_reals (erase number_key rs n)) k ≡ count (get_reals rs) k
unfolding count get_reals erase
count-erase_other [] n k h = refl
count-erase_other ((j, x) ∷ rs) n k h = elim (Bool-cases (j == n)) [
  | inl e ↦
      grind (arith, e, ==→eq j n e, ap (λ x. x == k) (==→eq j n e), h, count-erase_other rs n k h)
  | inr e ↦ grind (arith, e, count-erase_other rs n k h)
]

-- ADD of a real: it is referred to afterwards, and the others as before.
pub record Added (rs rs' : RealMap) (n : ℕ) : Type 0 where
  pub at_most : (k : ℕ) → count (get_reals rs') k ≤ count (get_reals rs) k + one_if (n == k)
  pub there :
      (k : ℕ) → 1 ≤ count (get_reals rs) n → count (get_reals rs') k ≡ count (get_reals rs) k
  pub at_least : (k : ℕ) → count (get_reals rs) k ≤ count (get_reals rs') k
  pub present : 1 ≤ count (get_reals rs') n

write-Added : (rs : RealMap) (n : ℕ) (m : VipRealMeta) → Added rs (write number_key rs n m) n
write-Added rs n m = record {
  at_most = λ k. count-write_le rs n k m;
  there = λ k. count-write_there rs n k m;
  at_least = λ k. count-le_write rs n k m;
  present = count-write_pos rs n m;
}

pub update_by-Added : (r : Endpoint) (s : RealMap × Bool) → Added s.0 (update_by add r s).0 r.num
unfolding update_by
update_by-Added r (rs, changed) =
    let cur = meta_of (find number_key rs r.num) in
    elim (Bool-cases (cur.weight == r.weight)) [
      | inl e ↦ subst (λ x. Added rs x r.num) (grind (arith, e)) (write-Added rs r.num cur)
      | inr e ↦
          subst (λ x. Added rs x r.num) (grind (arith, e))
            (write-Added rs r.num (record { weight = r.weight; hash = r.hash }))
    ]

pub update_reals-last :
    (us : List UpdateReal) (u : UpdateReal) (s : RealMap × Bool)
    → update_reals (us ++ (u ∷ [])) s ≡ update_by u.action u.updated_real (update_reals us s)
unfolding update_reals
update_reals-last [] u s = refl
update_reals-last (w ∷ us) u s = update_reals-last us u (update_by w.action w.updated_real s)

-- What a VIP's reals are after the updates.
abbrev pub after : Vip → List UpdateReal → RealMap
after v us = (update_reals us (v.reals, false)).0

rebuild-kept :
    (murmur : ℕ → ℕ → ℕ → ℕ) (es : List Endpoint) (v w : Vip) (delta : List RealPos)
    → rebuild murmur es v ≡ some (w, delta)
    → (w.reals ≡ v.reals) × (w.vip_num ≡ v.vip_num)
unfolding rebuild
rebuild-kept murmur [] v w delta e = (grind (arith, e), grind (arith, e))
rebuild-kept murmur (x ∷ es) v w delta e =
    elim (Option-cases (generate_maglev_hash murmur v.ch_ring_size (x ∷ es))) [
      | inl n ↦ (grind (arith, e, n), grind (arith, e, n))
      | inr (new, g) ↦ (grind (arith, e, g), grind (arith, e, g))
    ]

pub batch-kept :
    (murmur : ℕ → ℕ → ℕ → ℕ) (us : List UpdateReal) (v w : Vip) (delta : List RealPos)
    → batch_reals_update murmur us v ≡ some (w, delta)
    → (w.reals ≡ after v us) × (w.vip_num ≡ v.vip_num)
unfolding batch_reals_update get_endpoints
batch-kept murmur us v w delta e =
    let p = get_endpoints us v.reals in rebuild-kept murmur p.1 (record v { reals = p.0 }) w delta e
