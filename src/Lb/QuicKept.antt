-- ===== src/Lb/QuicKept.antt =====
-- modifyQuicRealsMapping (katran/lib/KatranLb.cpp) keeps the invariant of the reals.
use katran.Base.{
  ℕ, suc, ◌+◌, ◌^◌, ◌≤◌, ◌<◌, ◌≡◌, refl, sym, ap, ◌∙◌, true, false, Option-cases, if◌then◌else◌,
  if-elim, if-cases, ◌==◌, ==-refl, ltb, arith,
}
use katran.Base.{
  inl, inr, Option, none, some, List, [], ◌∷◌, find, erase, write, find-write_other,
  find-erase_other, find-erase_same,
}
use katran.Vip.{ModifyAction, add, del}
use katran.Lb.{Lb, Env, IpAddress, QuicReal, update_quic_mapping}
use katran.Lb.Keys.{ip_key}
use katran.Lb.Reals.{
  bpf, validate_address, decrease_ref_count_for_real, increase_ref_count_for_real,
}
use katran.Lb.Vips.{is_invalid, address_or}
use katran.Lb.Sources.{size}
use katran.Lb.Quic.{
  k_max_quic_id, Updates, delete_quic, add_quic, modify_quic, modify_quics, update_quics,
  modify_quic_reals_mapping,
}
use katran.Lb.Table.{Elsewhere, used}
use katran.Lb.Counts.{TableOf, Same, decrease-Table, decrease-Rest, validate-Same, bpf-Same}
use katran.Lb.Counts.Increase.{increase-Increased, increase-Rest}
use katran.Lb.Claims.{
  Inv, Inv-from, Inv-more, Inv-Same, claims, claims-Rest, quic_claims, quic_claims-Rest,
  quic_claims_of,
}
use katran.Lb.Install.{Same-refl, Same-trans}

used-le : {A : Type 0} (o : Option A) → used o ≤ 1
used-le none = omega arith
used-le (some a) = omega arith

module _ (env : Env) where
  delete_quic-Inv :
      (n : ℕ) (a : IpAddress) (o : Option ℕ) (u : Updates)
      → n < 2 ^ 32
      → find ip_key u.0.quic_mapping a ≡ o
      → Inv env n u.0
      → Inv env n (delete_quic env a o u).0
  unfolding delete_quic
  delete_quic-Inv n a none (s, us) l e x = x
  delete_quic-Inv n a (some id) (s, us) l e x =
      let t = decrease_ref_count_for_real a s in
      let r = decrease-Rest a s in
      let final = record t { quic_mapping = erase ip_key t.quic_mapping a } in
      let q : IpAddress → ℕ = quic_claims_of (erase ip_key s.quic_mapping a) in
      elim (Option-cases (find ip_key s.reals a)) [
        | inl f ↦ let absurd : ⊥ = omega (arith, x.unheld_address a f, ap used e) in elim absurd [ ]
        | inr (m, f) ↦
            Inv-from env n n (claims s) q final (omega arith)
              (λ k. omega (arith, claims-Rest s t r k))
              (λ b. omega (arith, ap (λ y. quic_claims_of (erase ip_key y a) b) r.quic))
              (decrease-Table env.config.max_reals n (claims s) (claims s) (quic_claims s) q a m s l
                f
                (record {
                  numbers = λ j h. omega arith;
                  addresses =
                      λ b h. omega (arith, ap used (find-erase_other ip_key s.quic_mapping a b h));
                })
                (omega (arith, ap used e, ap used (find-erase_same ip_key s.quic_mapping a))) x)
      ]

  add_quic-Inv :
      (n : ℕ) (a : IpAddress) (id : ℕ) (o : Option ℕ) (u : Updates)
      → suc n < 2 ^ 32
      → find ip_key u.0.quic_mapping a ≡ o
      → Inv env n u.0
      → Inv env (suc n) (add_quic env a id o u).0
  unfolding add_quic
  add_quic-Inv n a id (some old) (s, us) l e x = Inv-more env n (suc n) s (omega arith) x
  add_quic-Inv n a id none (s, us) l e x =
      let r = increase_ref_count_for_real env a s in
      let f = increase-Rest env a s in
      let final = record r.0 { quic_mapping = write ip_key r.0.quic_mapping a id } in
      let q : IpAddress → ℕ = quic_claims_of (write ip_key s.quic_mapping a id) in
      let same : Elsewhere r.1 a (claims s) (quic_claims s) (claims s) (quic_claims s) = record {
        numbers = λ j h. omega arith;
        addresses = λ b h. omega arith;
      } in
      let kept : (c : TableOf env.config.max_reals (suc n) (claims s) (quic_claims s) r.0)
          → Inv env (suc n) r.0 =
        λ c.
          Inv-from env (suc n) (suc n) (claims s) (quic_claims s) r.0 (omega arith)
            (λ k. omega (arith, claims-Rest s r.0 f k))
            (λ b. omega (arith, quic_claims-Rest s r.0 f b)) c in
      let P : Updates → Type 0 = λ u. Inv env (suc n) u.0 in
      elim (increase-Increased env n (claims s) (quic_claims s) a s l x) [
        | inl (h, t) ↦
            if-cases P (r.1 == env.config.max_reals) (λ g. kept t)
              (λ g.
                let absurd : true ≡ false =
                  sym (ap (λ y. y == env.config.max_reals) h ∙ ==-refl env.config.max_reals) ∙ g in
                grind (arith, absurd))
        | inr (h, t) ↦
            if-cases P (r.1 == env.config.max_reals)
              (λ g. kept (t (claims s) (quic_claims s) same (omega arith)))
              (λ g.
                Inv-from env (suc n) (suc n) (claims s) q final (omega arith)
                  (λ k. omega (arith, claims-Rest s r.0 f k))
                  (λ b. omega (arith, ap (λ y. quic_claims_of (write ip_key y a id) b) f.quic))
                  (t (claims s) q
                    (record {
                      numbers = λ j h. omega arith;
                      addresses = λ b h.
                          omega (arith, ap used (find-write_other ip_key s.quic_mapping a b id h));
                    })
                    (omega (arith, used-le (find ip_key (write ip_key s.quic_mapping a id) a)))))
      ]

  modify_quic-Inv :
      (n : ℕ) (action : ModifyAction) (a : IpAddress) (id : ℕ) (u : Updates)
      → suc n < 2 ^ 32
      → Inv env n u.0
      → Inv env (suc n) (modify_quic env action a id u).0
  unfolding modify_quic
  modify_quic-Inv n add a id u l x = add_quic-Inv n a id (find ip_key u.0.quic_mapping a) u l refl x
  modify_quic-Inv n del a id u l x =
      let o = find ip_key u.0.quic_mapping a in
      Inv-more env n (suc n) (delete_quic env a o u).0 (omega arith)
        (delete_quic-Inv n a o u (omega arith) refl x)

  modify_quics-Inv :
      (n : ℕ) (action : ModifyAction) (reals : List QuicReal) (u : Updates)
      → n + size reals < 2 ^ 32
      → Inv env n u.0
      → Inv env (n + size reals) (modify_quics env action reals u).0
  unfolding modify_quics size
  modify_quics-Inv n action [] (s, us) l x = Inv-more env n (n + 0) s (omega arith) x
  modify_quics-Inv n action (r ∷ rs) (s, us) l x =
      let t = validate_address env r.address false s in
      let y = Inv-Same env n s t.0 (validate-Same env r.address false s) x in
      let a = address_or (env.parse r.address) in
      let u = modify_quic env action a r.id (t.0, us) in
      let kept = Inv-more env n (suc n) t.0 (omega arith) y in
      let P : Updates → Type 0 = λ u. Inv env (suc n) u.0 in
      let next : Updates =
        if is_invalid t.1 then (t.0, us) else if ltb k_max_quic_id r.id then (t.0, us) else u in
      Inv-more env (suc n + size rs) (n + suc (size rs)) (modify_quics env action rs next).0
        (omega arith)
        (modify_quics-Inv (suc n) action rs next (omega arith) (
          if-elim P (is_invalid t.1) kept (
            if-elim P (ltb k_max_quic_id r.id) kept
              (modify_quic-Inv n action a r.id (t.0, us) (omega arith) y))))

  update_quics-Same : (us : List (ℕ × ℕ)) (s : Lb) → Same s (update_quics env us s)
  unfolding update_quics
  update_quics-Same [] s = Same-refl s
  update_quics-Same ((id, rnum) ∷ us) s =
      let t = (bpf env (update_quic_mapping id rnum) s).0 in
      Same-trans s t (update_quics env us t) (bpf-Same env (update_quic_mapping id rnum) s)
        (update_quics-Same us t)

  -- modifyQuicRealsMapping
  pub modify_quic_reals_mapping-Inv :
      (n : ℕ) (action : ModifyAction) (reals : List QuicReal) (s : Lb)
      → n + size reals < 2 ^ 32
      → Inv env n s
      → Inv env (n + size reals) (modify_quic_reals_mapping env action reals s)
  unfolding modify_quic_reals_mapping
  modify_quic_reals_mapping-Inv n action reals s l x =
      let u = modify_quics env action reals (s, []) in
      let y = modify_quics-Inv n action reals (s, []) l x in
      if-elim (Inv env (n + size reals)) env.config.disable_forwarding
        (Inv-more env n (n + size reals) s (omega arith) x)
        (if-elim (Inv env (n + size reals)) env.config.testing y (
          Inv-Same env (n + size reals) u.0 (update_quics env u.1 u.0) (update_quics-Same u.1 u.0)
            y))
