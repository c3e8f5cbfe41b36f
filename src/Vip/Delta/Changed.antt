-- ===== src/Vip/Delta/Changed.antt =====
-- What the delta of Vip::batchRealsUpdate (katran/lib/Vip.cpp) writes where the rings differ.
use katran.Base.{
  ℕ, zero, suc, ◌+◌, ◌≤◌, ◌<◌, ◌≡◌, sym, ap, ◌∙◌, true, false, Bool-cases, ◌==◌, ==→eq, ==-refl,
  arith,
}
use katran.Base.{inl, inr, Option-cases, some, List, [], ◌∷◌}
use katran.Maglev.{Ring, put, Endpoint, generate_maglev_hash}
use katran.Vip.{Vip, RealPos, UpdateReal, compare_rings, rebuild, batch_reals_update, get_endpoints}
use katran.Vip.Delta.{
  apply_delta, put-here, apply_delta-compare_rings, compare_rings-before, compare_rings-new,
}

put-elsewhere : (a : Ring) (i v k : ℕ) → suc i ≤ k → put a i v k ≡ a k
put-elsewhere a i v k h = ground arith

module _ (murmur : ℕ → ℕ → ℕ → ℕ) where
  -- At a position where the rings differ the delta writes the new one, whatever was there.
  writes_changed :
      (n i k : ℕ) (new ring kernel : Ring)
      → i ≤ k
      → k < i + n
      → (new k == ring k) ≡ false
      → apply_delta kernel (compare_rings n i new ring).1 k ≡ new k
  unfolding compare_rings apply_delta
  writes_changed zero i k new ring kernel l h d = let absurd : ⊥ = omega arith in elim absurd [ ]
  writes_changed (suc n) i k new ring kernel l h d = elim (Bool-cases (i == k)) [
    | inl e ↦
        let p = ==→eq i k e in
        let differ : (new i == ring i) ≡ false = ap (λ j. new j == ring j) p ∙ d in
        let r = compare_rings n (suc i) new (put ring i (new i)) in
        let q : apply_delta (put kernel i (new i)) r.1 k ≡ new k =
          apply_delta-compare_rings n (suc i) k new (put ring i (new i)) (put kernel i (new i))
            (put-here kernel i k (new i) p ∙ sym (put-here ring i k (new i) p))
          ∙ compare_rings-before n (suc i) k new (put ring i (new i)) (omega (arith, p))
          ∙ put-here ring i k (new i) p
          ∙ ap new p in
        grind (arith, differ, q)
    | inr e ↦
        let after : suc i ≤ k = ground (arith, l, e) in
        elim (Bool-cases (new i == ring i)) [
          | inl s ↦
              grind (arith, s, writes_changed n (suc i) k new ring kernel after (omega arith) d)
          | inr s ↦
              let same : put ring i (new i) k ≡ ring k = put-elsewhere ring i (new i) k after in
              grind (
                arith,
                s,
                writes_changed n (suc i) k new (put ring i (new i)) (put kernel i (new i)) after
                    (omega arith) (ap (λ v. new k == v) same ∙ d),
              )
        ]
  ]

  rebuild-changed :
      (es : List Endpoint) (v v' : Vip) (delta : List RealPos) (kernel : Ring) (k : ℕ)
      → rebuild murmur es v ≡ some (v', delta)
      → k < v.ch_ring_size
      → (v'.ch_ring k == v.ch_ring k) ≡ false
      → apply_delta kernel delta k ≡ v'.ch_ring k
  unfolding rebuild
  rebuild-changed [] v v' delta kernel k e l d =
      let p : v ≡ v' = grind (arith, e) in
      let absurd : true ≡ false =
        sym (==-refl (v.ch_ring k)) ∙ ap (λ (w : Vip). w.ch_ring k == v.ch_ring k) p ∙ d in
      grind (arith, absurd)
  rebuild-changed (x ∷ es) v v' delta kernel k e l d =
      elim (Option-cases (generate_maglev_hash murmur v.ch_ring_size (x ∷ es))) [
        | inl n ↦ grind (arith, e, n)
        | inr (new, g) ↦
            let r = compare_rings v.ch_ring_size 0 new v.ch_ring in
            let p : r.0 ≡ v'.ch_ring = grind (arith, e, g) in
            let q : r.1 ≡ delta = grind (arith, e, g) in
            let f : r.0 k ≡ new k =
              compare_rings-new v.ch_ring_size 0 k new v.ch_ring (omega arith) (omega arith) in
            let h : v'.ch_ring k ≡ new k = sym (ap (λ (m : Ring). m k) p) ∙ f in
            ap (λ ps. apply_delta kernel ps k) (sym q)
            ∙ writes_changed v.ch_ring_size 0 k new v.ch_ring kernel (omega arith) (omega arith)
                (sym (ap (λ x. x == v.ch_ring k) h) ∙ d)
            ∙ sym h
      ]

  -- At a position where the VIP's new ring differs from its old one the delta that
  -- batchRealsUpdate returns writes the new one, whatever the map held.
  pub batch_reals_update-changed :
      (us : List UpdateReal) (v v' : Vip) (delta : List RealPos) (kernel : Ring) (k : ℕ)
      → batch_reals_update murmur us v ≡ some (v', delta)
      → k < v.ch_ring_size
      → (v'.ch_ring k == v.ch_ring k) ≡ false
      → apply_delta kernel delta k ≡ v'.ch_ring k
  unfolding batch_reals_update
  batch_reals_update-changed us v v' delta kernel k e l d =
      let p = get_endpoints us v.reals in
      rebuild-changed p.1 (record v { reals = p.0 }) v' delta kernel k e l d
