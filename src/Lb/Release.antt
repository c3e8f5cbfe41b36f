-- ===== src/Lb/Release.antt =====
-- delVip, addVip and modifyVip (katran/lib/KatranLb.cpp) keep the invariant of the reals.
use katran.Base.{
  ℕ, suc, ◌+◌, ◌-◌, ◌^◌, ◌≤◌, ◌<◌, ◌≡◌, refl, sym, ap, subst, ◌∙◌, Bool, false, if◌then◌else◌,
  if-elim, ==-refl, one_if, count, total, arith,
}
use katran.Base.{
  Option, none, some, List, [], ◌∷◌, ◌++◌, find, erase, write, total-write_found,
  total-write_missing, total-erase, total-find,
}
use katran.Vip.{Vip, get_reals, new_vip, set_vip_flags, unset_vip_flags}
use katran.Lb.{Lb, Env, update_vip_map, delete_vip_map, IpAddress, VipKey}
use katran.Lb.Keys.{vip_key}
use katran.Lb.Reals.{address_of, decrease_ref_count_for_real, validate_address, bpf}
use katran.Lb.Vips.{
  release_reals, del_found, modify_found, emplace_vip, vip_definition, add_vip, del_vip, modify_vip,
  new_vip_num, put_vip_map, drop_vip_map, is_invalid,
}
use katran.Lb.Table.{Elsewhere}
use katran.Lb.Counts.{
  TableOf, Rest, Rest-refl, Rest-trans, Same, Same-Table, decrease-Table, decrease-Rest,
  validate-Same, bpf-Same,
}
use katran.Lb.Counts.Increase.{address_of-live, unless-Same}
use katran.Lb.Claims.{
  Inv, Inv-from, Inv-to, quic_claims_of, Inv-Same, claims, quic_claims, vip_claims, rule_claims,
}

address_of-Rest : (k : ℕ) (s : Lb) → Rest s (address_of k s).0
unfolding address_of
address_of-Rest k s = record {
  vips = ground arith;
  vip_nums = ground arith;
  lpm = ground arith;
  quic = ground arith;
}

pub release-Rest : (nums : List ℕ) (s : Lb) → Rest s (release_reals nums s)
unfolding release_reals
release-Rest [] s = Rest-refl s
release-Rest (k ∷ nums) s =
    let r = address_of k s in
    let t = decrease_ref_count_for_real r.1 r.0 in
    Rest-trans s t (release_reals nums t)
      (Rest-trans s r.0 t (address_of-Rest k s) (decrease-Rest r.1 r.0)) (release-Rest nums t)

count-first : (k : ℕ) (ns : List ℕ) (base : ℕ) → suc (base + count ns k) ≤ base + count (k ∷ ns) k
unfolding count
count-first k ns base = omega (arith, ap one_if (==-refl k))

count-rest : (k j : ℕ) (ns : List ℕ) → count ns j ≤ count (k ∷ ns) j
unfolding count
count-rest k j ns = omega arith

-- Each real of the list gives up one claim.
pub release-Table :
    (max n : ℕ) (base : ℕ → ℕ) (q : IpAddress → ℕ) (nums : List ℕ) (s : Lb)
    → n < 2 ^ 32
    → TableOf max n (λ k. base k + count nums k) q s
    → TableOf max n (λ k. base k + 0) q (release_reals nums s)
unfolding release_reals count
release-Table max n base q [] s l t = t
release-Table max n base q (k ∷ nums) s l t =
    let first = count-first k nums (base k) in
    let (a, (m, (e, (f, d)))) =
      address_of-live max n (λ j. base j + count (k ∷ nums) j) q k s t (omega arith) in
    let o : Elsewhere m.num a (λ j. base j + count (k ∷ nums) j) q (λ j. base j + count nums j) q =
      record {
        numbers = λ j h. omega (arith, count-rest k j nums);
        addresses = λ b h. omega arith;
      } in
    let step =
      decrease-Table max n (λ j. base j + count (k ∷ nums) j) (λ j. base j + count nums j) q q a m s
        l f o
        (subst (λ x. suc (base x + count nums x + q a) ≤ base x + count (k ∷ nums) x + q a) (sym d)
          (omega (arith, first)))
        t in
    subst
      (λ r.
        TableOf max n (λ j. base j + 0) q
          (release_reals nums (decrease_ref_count_for_real r.1 r.0)))
      (sym e) (release-Table max n base q nums (decrease_ref_count_for_real a s) l step)

-- The claims of the state without a VIP.
pub base_of : VipKey → Vip → Lb → ℕ → ℕ
base_of vip v s k = claims s k - vip_claims k v

pub base_of-eq :
    (vip : VipKey) (v : Vip) (s : Lb) (k : ℕ)
    → find vip_key s.vips vip ≡ some v
    → base_of vip v s k + vip_claims k v ≡ claims s k
unfolding base_of
base_of-eq vip v s k e = omega (arith, total-find vip_key (vip_claims k) s.vips vip v e)

module _ (env : Env) (n : ℕ) where
  del_found-Inv :
      (vip : VipKey) (o : Option Vip) (s : Lb)
      → n < 2 ^ 32
      → find vip_key s.vips vip ≡ o
      → Inv env n s
      → Inv env n (del_found env vip o s).0
  unfolding del_found drop_vip_map
  del_found-Inv vip none s l e x = x
  del_found-Inv vip (some v) s l e x =
      let nums = get_reals v.reals in
      let t = release_reals nums s in
      let u = record t { vip_nums = t.vip_nums ++ (v.vip_num ∷ []) } in
      let base = base_of vip v s in
      let released = release-Table env.config.max_reals n base (quic_claims s) nums s l (
        Inv-to env n (λ k. base k + count nums k) s (λ k. omega (arith, base_of-eq vip v s k e))
          x) in
      let call = delete_vip_map (vip_definition env vip) in
      let w = if env.config.testing then u else (bpf env call u).0 in
      let same : Same u w = unless-Same env.config.testing env call u in
      let r = release-Rest nums s in
      let final = record w { vips = erase vip_key w.vips vip } in
      Inv-from env n n (λ k. base k + 0) (quic_claims s) final (omega arith)
        (λ k. omega (
          arith,
          base_of-eq vip v s k e,
          total-erase vip_key (vip_claims k) s.vips vip v e,
          ap (λ m. total (vip_claims k) (erase vip_key m vip)) (same.rest.vips ∙ r.vips),
          ap (total (rule_claims k)) (same.rest.lpm ∙ r.lpm),
        ))
        (λ a. omega (arith, ap (λ m. quic_claims_of m a) (same.rest.quic ∙ r.quic)))
        (Same-Table env.config.max_reals n (λ k. base k + 0) (quic_claims s) u w same released)

  -- delVip
  pub del_vip-Inv :
      (vip : VipKey) (s : Lb) → n < 2 ^ 32 → Inv env n s → Inv env n (del_vip env vip s).0
  unfolding del_vip
  del_vip-Inv vip s l x =
      if-elim (λ (r : Lb × Bool). Inv env n r.0) env.config.disable_forwarding x
        (del_found-Inv vip (find vip_key s.vips vip) s l refl x)

  emplace-Inv :
      (vip : VipKey) (flags vip_num : ℕ) (rest : List ℕ) (o : Option Vip) (s : Lb)
      → find vip_key s.vips vip ≡ o
      → Inv env n s
      → Inv env n (emplace_vip env vip flags vip_num rest o s).0
  unfolding emplace_vip put_vip_map new_vip get_reals count
  emplace-Inv vip flags vip_num rest (some v) s e x = x
  emplace-Inv vip flags vip_num rest none s e x =
      let v = new_vip vip_num flags env.config.ch_ring_size in
      let t = record s { vip_nums = rest; vips = write vip_key s.vips vip v } in
      let call =
        update_vip_map (vip_definition env vip) (record { flags = flags; vip_num = vip_num }) in
      Inv-Same env n t (if env.config.testing then t else (bpf env call t).0)
        (unless-Same env.config.testing env call t)
        (Inv-from env n n (claims s) (quic_claims s) t (omega arith)
          (λ k. omega (arith, total-write_missing vip_key (vip_claims k) s.vips vip v e))
          (λ a. omega arith) x)

  new_vip_num-Inv :
      (vip : VipKey) (flags : ℕ) (nums : List ℕ) (s : Lb)
      → Inv env n s
      → Inv env n (new_vip_num env vip flags nums s).0
  unfolding new_vip_num
  new_vip_num-Inv vip flags [] s x = x
  new_vip_num-Inv vip flags (vip_num ∷ rest) s x =
      emplace-Inv vip flags vip_num rest (find vip_key s.vips vip) s refl x

  -- addVip
  pub add_vip-Inv :
      (vip : VipKey) (flags : ℕ) (s : Lb) → Inv env n s → Inv env n (add_vip env vip flags s).0
  unfolding add_vip
  add_vip-Inv vip flags s x =
      let r = validate_address env vip.address false s in
      let y = Inv-Same env n s r.0 (validate-Same env vip.address false s) x in
      if-elim (λ (r : Lb × Bool). Inv env n r.0) env.config.disable_forwarding x
        (if-elim (λ (r : Lb × Bool). Inv env n r.0) (is_invalid r.1) y
          (new_vip_num-Inv vip flags r.0.vip_nums r.0 y))

  modify_found-Inv :
      (vip : VipKey) (flag : ℕ) (set : Bool) (o : Option Vip) (s : Lb)
      → find vip_key s.vips vip ≡ o
      → Inv env n s
      → Inv env n (modify_found env vip flag set o s).0
  unfolding modify_found put_vip_map set_vip_flags unset_vip_flags
  modify_found-Inv vip flag set none s e x = x
  modify_found-Inv vip flag set (some v) s e x =
      let w = if set then set_vip_flags flag v else unset_vip_flags flag v in
      let t = record s { vips = write vip_key s.vips vip w } in
      let y =
        Inv-from env n n (claims s) (quic_claims s) t (omega arith)
          (λ k. omega (
            arith,
            total-write_found vip_key (vip_claims k) s.vips vip v w e,
            if-elim (λ u. vip_claims k u ≡ vip_claims k v) set {x = set_vip_flags flag v}
                {y = unset_vip_flags flag v} refl refl,
          ))
          (λ a. omega arith) x in
      let call =
        update_vip_map (vip_definition env vip)
          (record { flags = w.vip_flags; vip_num = w.vip_num }) in
      if-elim (λ (r : Lb × Bool). Inv env n r.0) env.config.testing y
        (Inv-Same env n t (bpf env call t).0 (bpf-Same env call t) y)

  -- modifyVip
  pub modify_vip-Inv :
      (vip : VipKey) (flag : ℕ) (set : Bool) (s : Lb)
      → Inv env n s
      → Inv env n (modify_vip env vip flag set s).0
  unfolding modify_vip
  modify_vip-Inv vip flag set s x = modify_found-Inv vip flag set (find vip_key s.vips vip) s refl x
