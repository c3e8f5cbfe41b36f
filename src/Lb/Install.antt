-- ===== src/Lb/Install.antt =====
-- The end of modifyRealsForVip (katran/lib/KatranLb.cpp): the VIP with its new reals is stored.
use katran.Base.{
  ℕ, ◌+◌, ◌*◌, ◌≡◌, refl, ap, ◌∙◌, false, if◌then◌else◌, if-elim, ◌==◌, count, total, u32, arith,
}
use katran.Base.{Option, none, some, List, [], ◌∷◌, find, write, total-write_found}
use katran.Vip.{Vip, get_reals, UpdateReal, ModifyAction, add, del, RealPos}
use katran.Lb.{Lb, Env, IpAddress, RealMeta, VipKey, NewReal, update_ch_rings}
use katran.Lb.Keys.{ip_key, vip_key}
use katran.Lb.Reals.{increase_ref_count_for_real, validate_address, bpf}
use katran.Lb.Vips.{
  Batch, has_num, add_by, delete_by, modify_one, modify_each, is_invalid, address_or, update_rings,
  install,
}
use katran.Lb.Counts.{
  TableOf, Rest, Rest-refl, Rest-trans, Same, decrease-Rest, validate-Same, bpf-Same,
}
use katran.Lb.Counts.Increase.{increase-Rest}
use katran.Lb.Claims.{Inv, Inv-from, Inv-Same, quic_claims, quic_claims_of, vip_claims, rule_claims}
use katran.Lb.Updates.{after}
use katran.Lb.Release.{base_of, base_of-eq}

pub Same-refl : (s : Lb) → Same s s
Same-refl s = record { rest = Rest-refl s; reals = refl; num_to_reals = refl; real_nums = refl }

pub Same-trans : (s t u : Lb) → Same s t → Same t u → Same s u
Same-trans s t u a b = record {
  rest = Rest-trans s t u a.rest b.rest;
  reals = b.reals ∙ a.reals;
  num_to_reals = b.num_to_reals ∙ a.num_to_reals;
  real_nums = b.real_nums ∙ a.real_nums;
}

module _ (env : Env) where
  pub update_rings-Same :
      (num : ℕ) (ps : List RealPos) (s : Lb) → Same s (update_rings env num ps s)
  unfolding update_rings
  update_rings-Same num [] s = Same-refl s
  update_rings-Same num (p ∷ ps) s =
      let call = update_ch_rings (u32 (u32 (num * env.config.ch_ring_size) + p.pos)) p.real in
      let t = (bpf env call s).0 in
      Same-trans s t (update_rings env num ps t) (bpf-Same env call s) (update_rings-Same num ps t)

  add_by-Rest :
      (a : IpAddress) (weight : ℕ) (o : Option RealMeta) (b : Batch)
      → Rest b.state (add_by env a weight o b).state
  unfolding add_by
  add_by-Rest a weight none b =
      let r = increase_ref_count_for_real env a b.state in
      let e = increase-Rest env a b.state in
      if-elim (λ (c : Batch). Rest b.state c.state) (r.1 == env.config.max_reals) e e
  add_by-Rest a weight (some m) b =
      if-elim (λ (c : Batch). Rest b.state c.state) (has_num b.cur_reals m.num) (Rest-refl b.state)
        (increase-Rest env a b.state)

  delete_by-Rest :
      (a : IpAddress) (o : Option RealMeta) (b : Batch) → Rest b.state (delete_by a o b).state
  unfolding delete_by
  delete_by-Rest a none b = Rest-refl b.state
  delete_by-Rest a (some m) b =
      if-elim (λ (c : Batch). Rest b.state c.state) (has_num b.cur_reals m.num)
        (decrease-Rest a b.state) (Rest-refl b.state)

  modify_one-Rest :
      (action : ModifyAction) (a : IpAddress) (weight : ℕ) (b : Batch)
      → Rest b.state (modify_one env action a weight b).state
  unfolding modify_one
  modify_one-Rest add a weight b = add_by-Rest a weight (find ip_key b.state.reals a) b
  modify_one-Rest del a weight b = delete_by-Rest a (find ip_key b.state.reals a) b

  pub modify_each-Rest :
      (action : ModifyAction) (reals : List NewReal) (b : Batch)
      → Rest b.state (modify_each env action reals b).state
  unfolding modify_each
  modify_each-Rest action [] b = Rest-refl b.state
  modify_each-Rest action (r ∷ rs) b =
      let t = validate_address env r.address false b.state in
      let c : Batch = record b { state = t.0 } in
      let e = (validate-Same env r.address false b.state).rest in
      let d = modify_one env action (address_or (env.parse r.address)) r.weight c in
      let f =
        Rest-trans b.state t.0 d.state e
          (modify_one-Rest action (address_or (env.parse r.address)) r.weight c) in
      let g = if is_invalid t.1 then c else d in
      Rest-trans b.state g.state (modify_each env action rs g).state
        (if-elim (λ (x : Batch). Rest b.state x.state) (is_invalid t.1) e f)
        (modify_each-Rest action rs g)

  pub install-Inv :
      (n : ℕ) (vip : VipKey) (v w : Vip) (us : List UpdateReal) (ps : List RealPos) (s t : Lb)
      → find vip_key s.vips vip ≡ some v
      → w.reals ≡ after v us
      → Rest s t
      → TableOf env.config.max_reals n
          (λ k. base_of vip v s k + count (get_reals (after v us)) k)
          (quic_claims s)
          t
      → Inv env n (install env vip w ps t)
  unfolding install
  install-Inv n vip v w us ps s t e f r x =
      let u = record t { vips = write vip_key t.vips vip w } in
      let stored : Inv env n u =
        Inv-from env n n (λ k. base_of vip v s k + count (get_reals (after v us)) k) (quic_claims s)
          u (omega arith)
          (λ k. omega (
            arith,
            base_of-eq vip v s k e,
            total-write_found vip_key (vip_claims k) s.vips vip v w e,
            ap (λ m. total (vip_claims k) (write vip_key m vip w)) r.vips,
            ap (total (rule_claims k)) r.lpm,
            ap (λ m. count (get_reals m) k) f,
          ))
          (λ a. omega (arith, ap (λ m. quic_claims_of m a) r.quic)) x in
      if-elim (Inv env n) env.config.testing stored (
        Inv-Same env n u (update_rings env w.vip_num ps u) (update_rings-Same w.vip_num ps u)
          stored)
