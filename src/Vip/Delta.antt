-- ===== src/Vip/Delta.antt =====
-- The delta of Vip::batchRealsUpdate (katran/lib/Vip.cpp) and the rings that it leads from and to.
pub mod Changed
pub mod Positions
use katran.Base.{
  erase, ==-refl, ℕ, zero, suc, ◌+◌, ◌^◌, ◌≤◌, ◌<◌, ◌≡◌, refl, ap, ◌∙◌, true, Bool-cases, ◌==◌,
  ==→eq, arith,
}
use katran.Base.{inl, inr, Option-cases, some, List, [], ◌∷◌}
use katran.Maglev.{Ring, put, Endpoint, generate_maglev_hash}
use katran.Maglev.Inverse.{IsPrime}
use katran.Maglev.Generate.{numbered, AllProper, generate_maglev_hash-numbered, numbered-agree}
use katran.Vip.{
  Vip, VipRealMeta, update_reals, update_by, weighted, sort_endpoints, RealPos, UpdateReal,
  compare_rings, rebuild, del_real, batch_reals_update, get_endpoints,
}

-- What the map of the forwarding plane holds after the updates of the delta, one after another.
unfoldable pub apply_delta : Ring → List RealPos → Ring
apply_delta kernel [] = kernel
apply_delta kernel (p ∷ delta) = apply_delta (put kernel p.pos p.real) delta

put-same_at : (a b : Ring) (i v k : ℕ) → a k ≡ b k → put a i v k ≡ put b i v k
put-same_at a b i v k h = grind (arith, h)

put-here : (a : Ring) (i k v : ℕ) → i ≡ k → put a i v k ≡ v
put-here a i k v h = ground arith

put-other : (a : Ring) (i v k : ℕ) → k < i → put a i v k ≡ a k
put-other a i v k h = ground arith

-- The delta leads from the old ring to the new one, at every position where the map of the
-- forwarding plane held the old ring.
apply_delta-compare_rings :
    (n i k : ℕ) (new ring kernel : Ring)
    → kernel k ≡ ring k
    → let r = compare_rings n i new ring in apply_delta kernel r.1 k ≡ r.0 k
unfolding compare_rings apply_delta
apply_delta-compare_rings zero i k new ring kernel h = h
apply_delta-compare_rings (suc n) i k new ring kernel h = elim (Bool-cases (new i == ring i)) [
  | inl e ↦ grind (arith, e, apply_delta-compare_rings n (suc i) k new ring kernel h)
  | inr e ↦ grind (
    arith,
    e,
    apply_delta-compare_rings n (suc i) k new (put ring i (new i)) (put kernel i (new i))
        (put-same_at kernel ring i (new i) k h),
  )
]

-- Positions before the first are left alone.
compare_rings-before :
    (n i k : ℕ) (new ring : Ring) → k < i → (compare_rings n i new ring).0 k ≡ ring k
unfolding compare_rings
compare_rings-before zero i k new ring h = refl
compare_rings-before (suc n) i k new ring h = elim (Bool-cases (new i == ring i)) [
  | inl e ↦ grind (arith, e, compare_rings-before n (suc i) k new ring (omega arith))
  | inr e ↦ grind (
    arith,
    e,
    compare_rings-before n (suc i) k new (put ring i (new i)) (omega arith),
    put-other ring i (new i) k h,
  )
]

first_new : (n i k : ℕ) (new ring : Ring) → i ≡ k → (compare_rings (suc n) i new ring).0 k ≡ new k
unfolding compare_rings
first_new n i k new ring same = elim (Bool-cases (new i == ring i)) [
  | inl e ↦ grind (
    arith,
    e,
    ==→eq (new i) (ring i) e,
    compare_rings-before n (suc i) k new ring (omega arith),
    ap new same,
    ap ring same,
  )
  | inr e ↦ grind (
    arith,
    e,
    compare_rings-before n (suc i) k new (put ring i (new i)) (omega arith),
    put-here ring i k (new i) same,
    ap new same,
  )
]

later_new :
    (n i k : ℕ) (new ring : Ring)
    → ((ring : Ring) → suc i ≤ k → k < suc i + n → (compare_rings n (suc i) new ring).0 k ≡ new k)
    → suc i ≤ k
    → k < suc i + n
    → (compare_rings (suc n) i new ring).0 k ≡ new k
unfolding compare_rings
later_new n i k new ring rest h l = elim (Bool-cases (new i == ring i)) [
  | inl e ↦ grind (arith, e, rest ring h l)
  | inr e ↦ grind (arith, e, rest (put ring i (new i)) h l)
]

-- Positions in the range hold what the new ring holds.
compare_rings-new :
    (n i k : ℕ) (new ring : Ring) → i ≤ k → k < i + n → (compare_rings n i new ring).0 k ≡ new k
unfolding compare_rings
compare_rings-new zero i k new ring h l = let none_left : ⊥ = omega arith in elim none_left [ ]
compare_rings-new (suc n) i k new ring h l = elim (Bool-cases (i == k)) [
  | inl e ↦ first_new n i k new ring (==→eq i k e)
  | inr e ↦
      later_new n i k new ring (compare_rings-new n (suc i) k new) (grind (arith, e, h))
        (omega arith)
]

module _ (murmur : ℕ → ℕ → ℕ → ℕ) where
  rebuild-delta :
      (es : List Endpoint) (v v' : Vip) (delta : List RealPos) (kernel : Ring) (k : ℕ)
      → rebuild murmur es v ≡ some (v', delta)
      → kernel k ≡ v.ch_ring k
      → apply_delta kernel delta k ≡ v'.ch_ring k
  unfolding rebuild apply_delta
  rebuild-delta [] v v' delta kernel k e h = grind (arith, e, h)
  rebuild-delta (x ∷ es) v v' delta kernel k e h =
      elim (Option-cases (generate_maglev_hash murmur v.ch_ring_size (x ∷ es))) [
        | inl n ↦ grind (arith, e, n)
        | inr (new, g) ↦
            grind (arith, e, g, apply_delta-compare_rings v.ch_ring_size 0 k new v.ch_ring kernel h)
      ]

  -- The delta that batchRealsUpdate returns takes any ring that agrees with the VIP's old ring at a
  -- position to one that agrees with its new ring there.
  pub batch_reals_update-delta :
      (us : List UpdateReal) (v v' : Vip) (delta : List RealPos) (kernel : Ring) (k : ℕ)
      → batch_reals_update murmur us v ≡ some (v', delta)
      → kernel k ≡ v.ch_ring k
      → apply_delta kernel delta k ≡ v'.ch_ring k
  unfolding batch_reals_update
  batch_reals_update-delta us v v' delta kernel k e h =
      let p = get_endpoints us v.reals in
      rebuild-delta p.1 (record v { reals = p.0 }) v' delta kernel k e h

  rebuild-numbered :
      (x : Endpoint) (es : List Endpoint) (v : Vip)
      → IsPrime v.ch_ring_size
      → v.ch_ring_size < 2 ^ 32
      → AllProper murmur v.ch_ring_size (x ∷ es)
      → (v' : Vip) × ((delta : List RealPos) × ((rebuild murmur (x ∷ es) v ≡ some (v', delta))
            × (numbered (x ∷ es) v'.ch_ring v.ch_ring_size ≡ true)))
  unfolding rebuild
  rebuild-numbered x es v prime h p =
      let (ring, (g, f)) = generate_maglev_hash-numbered murmur v.ch_ring_size x es prime h p in
      let r = compare_rings v.ch_ring_size 0 ring v.ch_ring in
      (
        record v { ch_ring = r.0 },
        (
          r.1,
          (
            grind (arith, g),
            numbered-agree (x ∷ es) r.0 ring v.ch_ring_size (λ k l.
                  compare_rings-new v.ch_ring_size 0 k ring v.ch_ring (omega arith) (omega arith))
                ∙ f,
          ),
        ),
      )

  -- When the reals of the VIP, updated, are endpoints whose numbers fit an int and whose walks do
  -- not leave 32 bits, and the ring size is prime, batchRealsUpdate returns, and every slot of the
  -- VIP's ring then holds the number of one of these endpoints.
  pub batch_reals_update-numbered :
      (us : List UpdateReal) (v : Vip) (x : Endpoint) (es : List Endpoint)
      → (get_endpoints us v.reals).1 ≡ x ∷ es
      → IsPrime v.ch_ring_size
      → v.ch_ring_size < 2 ^ 32
      → AllProper murmur v.ch_ring_size (x ∷ es)
      → (v' : Vip) × ((delta : List RealPos) × ((batch_reals_update murmur us v ≡ some (v', delta))
            × (numbered (x ∷ es) v'.ch_ring v.ch_ring_size ≡ true)))
  unfolding batch_reals_update
  batch_reals_update-numbered us v x es e prime h p =
      let rs = (get_endpoints us v.reals).0 in
      let (v', (delta, (r, f))) = rebuild-numbered x es (record v { reals = rs }) prime h p in
      (v', (delta, (ap (λ es. rebuild murmur es (record v { reals = rs })) e ∙ r, f)))

  -- When the real that is deleted is the only one of the VIP, delReal leaves every slot of the ring
  -- as it was and returns an empty delta.
  pub del_real_last :
      (num : ℕ) (m : VipRealMeta) (v : Vip)
      → v.reals ≡ (num, m) ∷ []
      → del_real murmur num v ≡ some (record v { reals = [] }, [])
  unfolding del_real batch_reals_update rebuild get_endpoints update_reals update_by weighted
      sort_endpoints erase
  del_real_last num m v e = grind (arith, e, ==-refl num)
