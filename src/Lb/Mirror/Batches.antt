-- ===== src/Lb/Mirror/Batches.antt =====
-- The VIPs and the batches of their reals (katran/lib/KatranLb.cpp): the array of reals follows.
use katran.Base.{
  ℕ, ◌+◌, ◌*◌, ◌≡◌, refl, sym, subst, Bool, true, false, Bool-cases, Option-cases, if◌then◌else◌,
  if-elim, ◌==◌, u32, arith,
}
use katran.Base.{inl, inr, Option, none, some, List, [], ◌∷◌, find}
use katran.Vip.{Vip, ModifyAction, add, del, RealPos, get_reals, get_reals_and_weight}
use katran.Maglev.{Endpoint}
use katran.Lb.{
  Lb, Env, BpfCall, IpAddress, RealMeta, Text, VipKey, NewReal, update_vip_map, delete_vip_map,
  update_ch_rings,
}
use katran.Lb.Keys.{ip_key, vip_key}
use katran.Lb.Reals.{
  bpf, validate_address, address_of, decrease_ref_count_for_real, increase_ref_count_for_real,
}
use katran.Lb.Vips.{
  Batch, has_num, is_invalid, address_or, release_reals, new_reals, delete_by, vip_definition,
  put_vip_map, drop_vip_map, emplace_vip, new_vip_num, add_vip, del_found, del_vip, modify_found,
  modify_vip, add_by, modify_one, modify_each, update_rings, install, modify_reals,
  modify_reals_for_vip, add_real_for_vip, del_real_for_vip, get_reals_for_vip, get_index_for_real,
}
use katran.Lb.Modify.{modify_reals-result, begin}
use katran.Lb.Mirror.{
  Mirrored, bpf-Mirrored, unless-Mirrored, validate-Mirrored, address_of-Mirrored,
  decrease-Mirrored, increase-Mirrored,
}

module _ (env : Env) where
  abbrev pub After : Lb × Bool → Type 0
  After r = Mirrored env r.0

  release-Mirrored : (nums : List ℕ) (s : Lb) → Mirrored env s → Mirrored env (release_reals nums s)
  unfolding release_reals
  release-Mirrored [] s x = x
  release-Mirrored (num ∷ nums) s x =
      let r = address_of num s in
      release-Mirrored nums (decrease_ref_count_for_real r.1 r.0)
        (decrease-Mirrored env r.1 r.0 (address_of-Mirrored env num s x))

  new_reals-Mirrored :
      (es : List Endpoint) (s : Lb) → Mirrored env s → Mirrored env (new_reals es s).0
  unfolding new_reals
  new_reals-Mirrored [] s x = x
  new_reals-Mirrored (e ∷ es) s x =
      new_reals-Mirrored es (address_of e.num s).0 (address_of-Mirrored env e.num s x)

  emplace-Mirrored :
      (vip : VipKey) (flags num : ℕ) (rest : List ℕ) (o : Option Vip) (s : Lb)
      → Mirrored env s
      → After (emplace_vip env vip flags num rest o s)
  unfolding emplace_vip put_vip_map
  emplace-Mirrored vip flags num rest (some v) s x = x
  emplace-Mirrored vip flags num rest none s x =
      unless-Mirrored env env.config.testing
        (update_vip_map (vip_definition env vip) (record { flags = flags; vip_num = num })) _ refl x

  new_vip_num-Mirrored :
      (vip : VipKey) (flags : ℕ) (free : List ℕ) (s : Lb)
      → Mirrored env s
      → After (new_vip_num env vip flags free s)
  unfolding new_vip_num
  new_vip_num-Mirrored vip flags [] s x = x
  new_vip_num-Mirrored vip flags (num ∷ rest) s x =
      emplace-Mirrored vip flags num rest (find vip_key s.vips vip) s x

  pub add_vip-Mirrored :
      (vip : VipKey) (flags : ℕ) (s : Lb) → Mirrored env s → After (add_vip env vip flags s)
  unfolding add_vip
  add_vip-Mirrored vip flags s x =
      let t = validate_address env vip.address false s in
      let y = validate-Mirrored env vip.address false s x in
      if-elim After env.config.disable_forwarding x
        (if-elim After (is_invalid t.1) y (new_vip_num-Mirrored vip flags t.0.vip_nums t.0 y))

  del_found-Mirrored :
      (vip : VipKey) (o : Option Vip) (s : Lb) → Mirrored env s → After (del_found env vip o s)
  unfolding del_found drop_vip_map
  del_found-Mirrored vip none s x = x
  del_found-Mirrored vip (some v) s x =
      unless-Mirrored env env.config.testing (delete_vip_map (vip_definition env vip)) _ refl
        (release-Mirrored (get_reals v.reals) s x)

  pub del_vip-Mirrored : (vip : VipKey) (s : Lb) → Mirrored env s → After (del_vip env vip s)
  unfolding del_vip
  del_vip-Mirrored vip s x =
      if-elim After env.config.disable_forwarding x
        (del_found-Mirrored vip (find vip_key s.vips vip) s x)

  modify_found-Mirrored :
      (vip : VipKey) (flag : ℕ) (set : Bool) (o : Option Vip) (s : Lb)
      → Mirrored env s
      → After (modify_found env vip flag set o s)
  unfolding modify_found put_vip_map
  modify_found-Mirrored vip flag set none s x = x
  modify_found-Mirrored vip flag set (some v) s x =
      if-elim After env.config.testing x (bpf-Mirrored env (update_vip_map _ _) _ refl x)

  pub modify_vip-Mirrored :
      (vip : VipKey) (flag : ℕ) (set : Bool) (s : Lb)
      → Mirrored env s
      → After (modify_vip env vip flag set s)
  unfolding modify_vip
  modify_vip-Mirrored vip flag set s x =
      modify_found-Mirrored vip flag set (find vip_key s.vips vip) s x

  pub get_index_for_real-Mirrored :
      (real : Text) (s : Lb) → Mirrored env s → Mirrored env (get_index_for_real env real s).0
  unfolding get_index_for_real
  get_index_for_real-Mirrored real s x =
      let P : Lb × Option ℕ → Type 0 = λ r. Mirrored env r.0 in
      let t = validate_address env real false s in
      let y = validate-Mirrored env real false s x in
      if-elim P env.config.disable_forwarding x (if-elim P (is_invalid t.1) y y)

  update_rings-Mirrored :
      (num : ℕ) (ps : List RealPos) (s : Lb)
      → Mirrored env s
      → Mirrored env (update_rings env num ps s)
  unfolding update_rings
  update_rings-Mirrored num [] s x = x
  update_rings-Mirrored num (p ∷ ps) s x =
      let call = update_ch_rings (u32 (u32 (num * env.config.ch_ring_size) + p.pos)) p.real in
      update_rings-Mirrored num ps (bpf env call s).0 (bpf-Mirrored env call s refl x)

  delete_by-Mirrored :
      (a : IpAddress) (o : Option RealMeta) (b : Batch)
      → Mirrored env b.state
      → Mirrored env (delete_by a o b).state
  unfolding delete_by
  delete_by-Mirrored a none b x = x
  delete_by-Mirrored a (some m) b x =
      if-elim (λ (c : Batch). Mirrored env c.state) (has_num b.cur_reals m.num)
        (decrease-Mirrored env a b.state x) x

  pub get_reals_for_vip-Mirrored :
      (vip : VipKey) (s : Lb) (r : Lb × List (IpAddress × ℕ))
      → get_reals_for_vip env vip s ≡ some r
      → Mirrored env s
      → Mirrored env r.0
  unfolding get_reals_for_vip
  get_reals_for_vip-Mirrored vip s r e x =
      let P : Lb × List (IpAddress × ℕ) → Type 0 = λ r. Mirrored env r.0 in
      elim (Bool-cases env.config.disable_forwarding) [
        | inl d ↦ let p : (s, []) ≡ r = grind (arith, d, e) in subst P p x
        | inr d ↦ elim (Option-cases (find vip_key s.vips vip)) [
          | inl f ↦ let absurd : none ≡ some r = grind (arith, d, e, f) in grind (arith, absurd)
          | inr (v, f) ↦
              let p : new_reals (get_reals_and_weight v.reals) s ≡ r = grind (arith, d, e, f) in
              subst P p (new_reals-Mirrored (get_reals_and_weight v.reals) s x)
        ]
      ]

  module _ (live : env.config.testing ≡ false)
      (succeeds : (calls : List BpfCall) (call : BpfCall) → env.succeeds calls call ≡ true) where
    abbrev InBatch : Batch → Type 0
    InBatch b = Mirrored env b.state

    add_by-Mirrored :
        (a : IpAddress) (weight : ℕ) (o : Option RealMeta) (b : Batch)
        → InBatch b
        → InBatch (add_by env a weight o b)
    unfolding add_by
    add_by-Mirrored a weight none b x =
        let y = increase-Mirrored env live succeeds a b.state x in
        if-elim InBatch ((increase_ref_count_for_real env a b.state).1 == env.config.max_reals) y y
    add_by-Mirrored a weight (some m) b x =
        if-elim InBatch (has_num b.cur_reals m.num) x
          (increase-Mirrored env live succeeds a b.state x)

    modify_one-Mirrored :
        (action : ModifyAction) (a : IpAddress) (weight : ℕ) (b : Batch)
        → InBatch b
        → InBatch (modify_one env action a weight b)
    unfolding modify_one
    modify_one-Mirrored add a weight b x =
        add_by-Mirrored a weight (find ip_key b.state.reals a) b x
    modify_one-Mirrored del a weight b x = delete_by-Mirrored a (find ip_key b.state.reals a) b x

    modify_each-Mirrored :
        (action : ModifyAction) (reals : List NewReal) (b : Batch)
        → InBatch b
        → InBatch (modify_each env action reals b)
    unfolding modify_each
    modify_each-Mirrored action [] b x = x
    modify_each-Mirrored action (r ∷ rs) b x =
        let t = validate_address env r.address false b.state in
        let c : Batch = record b { state = t.0 } in
        let y = validate-Mirrored env r.address false b.state x in
        let a = address_or (env.parse r.address) in
        let d = modify_one env action a r.weight c in
        let g = if is_invalid t.1 then c else d in
        modify_each-Mirrored action rs g
          (if-elim InBatch (is_invalid t.1) y (modify_one-Mirrored action a r.weight c y))

    install-Mirrored :
        (vip : VipKey) (w : Vip) (ps : List RealPos) (s : Lb)
        → Mirrored env s
        → Mirrored env (install env vip w ps s)
    unfolding install
    install-Mirrored vip w ps s x =
        if-elim (Mirrored env) env.config.testing x (update_rings-Mirrored w.vip_num ps _ x)

    modify_found_reals :
        (action : ModifyAction) (reals : List NewReal) (vip : VipKey) (o : Option Vip) (s : Lb)
        (r : Lb × Bool)
        → modify_reals env action reals vip o s ≡ some r
        → Mirrored env s
        → After r
    unfolding modify_reals
    modify_found_reals action reals vip none s r e x =
        let p : (s, false) ≡ r = grind (arith, e) in subst After p x
    modify_found_reals action reals vip (some v) s r e x =
        let (w, (ps, (g, p))) = modify_reals-result env action reals vip v s r e in
        let b = modify_each env action reals (begin v s) in
        subst After (sym p)
          (install-Mirrored vip w ps b.state (modify_each-Mirrored action reals (begin v s) x))

    pub modify_reals_for_vip-Mirrored :
        (action : ModifyAction) (reals : List NewReal) (vip : VipKey) (s : Lb) (r : Lb × Bool)
        → modify_reals_for_vip env action reals vip s ≡ some r
        → Mirrored env s
        → After r
    unfolding modify_reals_for_vip
    modify_reals_for_vip-Mirrored action reals vip s r e x =
        elim (Bool-cases env.config.disable_forwarding) [
          | inl d ↦ let p : (s, false) ≡ r = grind (arith, d, e) in subst After p x
          | inr d ↦
              modify_found_reals action reals vip (find vip_key s.vips vip) s r
                (grind (arith, d, e)) x
        ]

    pub add_real-Mirrored :
        (real : NewReal) (vip : VipKey) (s : Lb) (r : Lb × Bool)
        → add_real_for_vip env real vip s ≡ some r
        → Mirrored env s
        → After r
    unfolding add_real_for_vip
    add_real-Mirrored real vip s r e x = elim (Bool-cases env.config.disable_forwarding) [
      | inl d ↦ let p : (s, false) ≡ r = grind (arith, d, e) in subst After p x
      | inr d ↦ modify_reals_for_vip-Mirrored add (real ∷ []) vip s r (grind (arith, d, e)) x
    ]

    pub del_real-Mirrored :
        (real : NewReal) (vip : VipKey) (s : Lb) (r : Lb × Bool)
        → del_real_for_vip env real vip s ≡ some r
        → Mirrored env s
        → After r
    unfolding del_real_for_vip
    del_real-Mirrored real vip s r e x = elim (Bool-cases env.config.disable_forwarding) [
      | inl d ↦ let p : (s, false) ≡ r = grind (arith, d, e) in subst After p x
      | inr d ↦ modify_reals_for_vip-Mirrored del (real ∷ []) vip s r (grind (arith, d, e)) x
    ]
