-- ===== src/Lb/Modify.antt =====
-- modifyRealsForVip (katran/lib/KatranLb.cpp) as a whole keeps the invariant.
use katran.Base.{
  ℕ, ◌+◌, ◌^◌, ◌<◌, ◌≡◌, refl, sym, subst, Bool, true, false, Bool-cases, Option-cases, count,
  arith,
}
use katran.Base.{inl, inr, Option, none, some, List, [], find}
use katran.Vip.{update_reals}
use katran.Vip.{Vip, get_reals, ModifyAction, add, del, RealPos, batch_reals_update}
use katran.Lb.{Lb, Env, VipKey, NewReal}
use katran.Lb.Keys.{vip_key}
use katran.Lb.Vips.{Batch, modify_each, install, modify_reals, modify_reals_for_vip}
use katran.Lb.Sources.{size}
use katran.Lb.Counts.{TableOf}
use katran.Lb.Claims.{Inv, Inv-more, Inv-to, quic_claims}
use katran.Lb.Updates.{after, batch-kept}
use katran.Lb.Release.{base_of, base_of-eq}
use katran.Lb.Adds.{AddOk, adds-Ok, has_num-count}
use katran.Lb.Deletes.{DelOk, deletes-Ok, distinct, addresses}
use katran.Lb.Install.{modify_each-Rest, install-Inv}

-- The start of the loop.
abbrev pub begin : Vip → Lb → Batch
begin v s = record { state = s; cur_reals = get_reals v.reals; ureals = [] }

module _ (env : Env) where
  -- What modifyRealsForVip returns once its loop is done, if it returns.
  pub modify_reals-result :
      (action : ModifyAction) (reals : List NewReal) (vip : VipKey) (v : Vip) (s : Lb)
      (r : Lb × Bool)
      → modify_reals env action reals vip (some v) s ≡ some r
      → let b = modify_each env action reals (begin v s) in
        (w : Vip) × ((ps : List RealPos) × ((batch_reals_update env.murmur b.ureals v
              ≡ some (w, ps))
            × (r ≡ (install env vip w ps b.state, true))))
  unfolding modify_reals
  modify_reals-result action reals vip v s r e =
      let b = modify_each env action reals (begin v s) in
      elim (Option-cases (batch_reals_update env.murmur b.ureals v)) [
        | inl h ↦ let absurd : none ≡ some r = grind (arith, h, e) in grind (arith, absurd)
        | inr (p, h) ↦ (p.0, (p.1, (h, grind (arith, h, e))))
      ]

  begin-table :
      (n : ℕ) (vip : VipKey) (v : Vip) (s : Lb)
      → find vip_key s.vips vip ≡ some v
      → Inv env n s
      → TableOf env.config.max_reals n
          (λ k. base_of vip v s k + count (get_reals (after v [])) k)
          (quic_claims s)
          s
  unfolding update_reals
  begin-table n vip v s e x =
      Inv-to env n (λ k. base_of vip v s k + count (get_reals v.reals) k) s
        (λ k. omega (arith, base_of-eq vip v s k e)) x

  add-Inv :
      (n : ℕ) (reals : List NewReal) (vip : VipKey) (o : Option Vip) (s : Lb) (r : Lb × Bool)
      → n + size reals < 2 ^ 32
      → find vip_key s.vips vip ≡ o
      → modify_reals env add reals vip o s ≡ some r
      → Inv env n s
      → Inv env (n + size reals) r.0
  unfolding modify_reals update_reals
  add-Inv n reals vip none s r l f e x =
      let p : (s, false) ≡ r = grind (arith, e) in
      subst (λ (r : Lb × Bool). Inv env (n + size reals) r.0) p
        (Inv-more env n (n + size reals) s (omega arith) x)
  add-Inv n reals vip (some v) s r l f e x =
      let (w, (ps, (h, p))) = modify_reals-result add reals vip v s r e in
      let b = modify_each env add reals (begin v s) in
      let ok : AddOk env v (base_of vip v s) (quic_claims s) n (begin v s) = record {
        table = begin-table n vip v s f x;
        current = λ k c. has_num-count (get_reals v.reals) k c;
      } in
      let done = adds-Ok env v (base_of vip v s) (quic_claims s) n reals (begin v s) l ok in
      subst (λ (r : Lb × Bool). Inv env (n + size reals) r.0) (sym p)
        (install-Inv env (n + size reals) vip v w b.ureals ps s b.state f
          (batch-kept env.murmur b.ureals v w ps h).0 (modify_each-Rest env add reals (begin v s))
          done.table)

  del-Inv :
      (n : ℕ) (reals : List NewReal) (vip : VipKey) (o : Option Vip) (s : Lb) (r : Lb × Bool)
      → n < 2 ^ 32
      → distinct (addresses env reals) ≡ true
      → find vip_key s.vips vip ≡ o
      → modify_reals env del reals vip o s ≡ some r
      → Inv env n s
      → Inv env n r.0
  unfolding modify_reals update_reals
  del-Inv n reals vip none s r l d f e x =
      let p : (s, false) ≡ r = grind (arith, e) in subst (λ (r : Lb × Bool). Inv env n r.0) p x
  del-Inv n reals vip (some v) s r l d f e x =
      let (w, (ps, (h, p))) = modify_reals-result del reals vip v s r e in
      let b = modify_each env del reals (begin v s) in
      let ok : DelOk env v (base_of vip v s) (quic_claims s) n (addresses env reals) (begin v s) =
        record { table = begin-table n vip v s f x; to_come = λ a m c g. refl; current = refl } in
      let done = deletes-Ok env v (base_of vip v s) (quic_claims s) n reals (begin v s) l d ok in
      subst (λ (r : Lb × Bool). Inv env n r.0) (sym p)
        (install-Inv env n vip v w b.ureals ps s b.state f
          (batch-kept env.murmur b.ureals v w ps h).0 (modify_each-Rest env del reals (begin v s))
          done.table)

  -- modifyRealsForVip, with as many more references as the batch has reals.
  pub modify_add-Inv :
      (n : ℕ) (reals : List NewReal) (vip : VipKey) (s : Lb) (r : Lb × Bool)
      → n + size reals < 2 ^ 32
      → modify_reals_for_vip env add reals vip s ≡ some r
      → Inv env n s
      → Inv env (n + size reals) r.0
  unfolding modify_reals_for_vip
  modify_add-Inv n reals vip s r l e x = elim (Bool-cases env.config.disable_forwarding) [
    | inl d ↦
        let p : (s, false) ≡ r = grind (arith, d, e) in
        subst (λ (r : Lb × Bool). Inv env (n + size reals) r.0) p
          (Inv-more env n (n + size reals) s (omega arith) x)
    | inr d ↦ add-Inv n reals vip (find vip_key s.vips vip) s r l refl (grind (arith, d, e)) x
  ]

  pub modify_del-Inv :
      (n : ℕ) (reals : List NewReal) (vip : VipKey) (s : Lb) (r : Lb × Bool)
      → n < 2 ^ 32
      → distinct (addresses env reals) ≡ true
      → modify_reals_for_vip env del reals vip s ≡ some r
      → Inv env n s
      → Inv env n r.0
  unfolding modify_reals_for_vip
  modify_del-Inv n reals vip s r l d e x = elim (Bool-cases env.config.disable_forwarding) [
    | inl f ↦
        let p : (s, false) ≡ r = grind (arith, f, e) in subst (λ (r : Lb × Bool). Inv env n r.0) p x
    | inr f ↦ del-Inv n reals vip (find vip_key s.vips vip) s r l d refl (grind (arith, f, e)) x
  ]
