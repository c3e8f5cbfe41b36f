-- ===== src/Vip/Delta/Positions.antt =====
-- The positions of the delta of Vip::batchRealsUpdate (katran/lib/Vip.cpp).
use katran.Base.{
  ℕ, zero, suc, ◌+◌, ◌≤◌, ◌≡◌, refl, Bool, true, ◌&&◌, Bool-cases, Option-cases, ◌==◌, ltb, lt→ltb,
  arith,
}
use katran.Base.{inl, inr, some, List, [], ◌∷◌}
use katran.Maglev.{Ring, put, Endpoint, generate_maglev_hash}
use katran.Vip.{Vip, RealPos, UpdateReal, compare_rings, rebuild, batch_reals_update, get_endpoints}

-- Every position of a delta is on the ring.
unfoldable pub positions_below : ℕ → List RealPos → Bool
positions_below n [] = true
positions_below n (p ∷ ps) = ltb p.pos n && positions_below n ps

compare_rings-below :
    (n i m : ℕ) (new ring : Ring)
    → i + n ≤ m
    → positions_below m (compare_rings n i new ring).1 ≡ true
unfolding compare_rings positions_below
compare_rings-below zero i m new ring h = refl
compare_rings-below (suc n) i m new ring h = elim (Bool-cases (new i == ring i)) [
  | inl e ↦ grind (arith, e, compare_rings-below n (suc i) m new ring (omega arith))
  | inr e ↦ grind (
    arith,
    e,
    lt→ltb i m (omega arith),
    compare_rings-below n (suc i) m new (put ring i (new i)) (omega arith),
  )
]

rebuild-positions :
    (murmur : ℕ → ℕ → ℕ → ℕ) (es : List Endpoint) (v w : Vip) (delta : List RealPos)
    → rebuild murmur es v ≡ some (w, delta)
    → positions_below v.ch_ring_size delta ≡ true
unfolding rebuild positions_below
rebuild-positions murmur [] v w delta e = grind (arith, e)
rebuild-positions murmur (x ∷ es) v w delta e =
    elim (Option-cases (generate_maglev_hash murmur v.ch_ring_size (x ∷ es))) [
      | inl n ↦ grind (arith, e, n)
      | inr (new, g) ↦ grind (
        arith,
        e,
        g,
        compare_rings-below v.ch_ring_size 0 v.ch_ring_size new v.ch_ring (omega arith),
      )
    ]

pub batch-positions :
    (murmur : ℕ → ℕ → ℕ → ℕ) (us : List UpdateReal) (v w : Vip) (delta : List RealPos)
    → batch_reals_update murmur us v ≡ some (w, delta)
    → positions_below v.ch_ring_size delta ≡ true
unfolding batch_reals_update
batch-positions murmur us v w delta e =
    let p = get_endpoints us v.reals in
    rebuild-positions murmur p.1 (record v { reals = p.0 }) w delta e
