-- ===== src/Lb/DstsKept.antt =====
-- The operations of katran/lib/KatranLb.cpp that do not touch the reals: decapsulation and health
-- check destinations, the MAC address, and the getters.
use katran.Base.{
  ℕ, suc, ◌≤◌, ◌≡◌, refl, ap, ◌∙◌, Bool, true, false, not, ◌&&◌, Bool-cases, Option-cases,
  if◌then◌else◌, if-elim, ◌==◌, ==-refl, ltb, one_if, count, arith,
}
use katran.Base.{inl, inr, Option, some, List, [], ◌∷◌, number_key, find, erase, write, total-find}
use katran.Vip.{RealMap, get_reals, get_reals_and_weight}
use katran.Lb.{
  Lb, Env, IpAddress, Text, VipKey, update_hc_reals_map, delete_hc_reals_map, update_ctl_array,
  update_hc_pckt_macs, update_decap_dst, delete_decap_dst, parse_addr_to_be,
}
use katran.Lb.Keys.{ip_key, vip_key}
use katran.Lb.Reals.{bpf, validate_address}
use katran.Lb.Vips.{is_invalid, address_or, new_reals, get_reals_for_vip, get_index_for_real}
use katran.Lb.Sources.{size}
use katran.Lb.Dsts.{
  is_some, no_inline_decap, put_decap_dst, drop_decap_dst, insert_decap_dst, add_inline_decap_dst,
  erase_decap_dst, del_inline_decap_dst, hc_address, write_hc_real, add_healthchecker_dst,
  del_healthchecker_dst, change_hc_mac, change_mac, k_mac_addr_pos, k_hc_dst_mac_pos,
}
use katran.Lb.Counts.{Same, validate-Same, bpf-Same}
use katran.Lb.Counts.Increase.{unless-Same, address_of-live}
use katran.Lb.Claims.{Inv, claims, quic_claims, vip_claims}
use katran.Lb.Install.{Same-refl, Same-trans}

hc_reals-Same :
    (s t : Lb) (m : List (ℕ × IpAddress)) → Same s t → Same s (record t { hc_reals = m })
hc_reals-Same s t m e = record {
  rest = record {
    vips = e.rest.vips;
    vip_nums = e.rest.vip_nums;
    lpm = e.rest.lpm;
    quic = e.rest.quic;
  };
  reals = e.reals;
  num_to_reals = e.num_to_reals;
  real_nums = e.real_nums;
}

decap_dsts-Same : (s : Lb) (m : List (IpAddress × Unit {0})) → Same s (record s { decap_dsts = m })
decap_dsts-Same s m =
    let e = Same-refl s in
    record {
      rest = record {
        vips = e.rest.vips;
        vip_nums = e.rest.vip_nums;
        lpm = e.rest.lpm;
        quic = e.rest.quic;
      };
      reals = e.reals;
      num_to_reals = e.num_to_reals;
      real_nums = e.real_nums;
    }

mac-Same : (s : Lb) (m : List ℕ) → Same s (record s { mac = m })
mac-Same s m =
    let e = Same-refl s in
    record {
      rest = record {
        vips = e.rest.vips;
        vip_nums = e.rest.vip_nums;
        lpm = e.rest.lpm;
        quic = e.rest.quic;
      };
      reals = e.reals;
      num_to_reals = e.num_to_reals;
      real_nums = e.real_nums;
    }

module _ (env : Env) where
  abbrev SameAs : Lb → Lb × Bool → Type 0
  SameAs s r = Same s r.0

  insert_decap_dst-Same : (a : IpAddress) (s : Lb) → SameAs s (insert_decap_dst env a s)
  unfolding insert_decap_dst put_decap_dst
  insert_decap_dst-Same a s =
      let t = record s { decap_dsts = write ip_key s.decap_dsts a tt } in
      if-elim (SameAs s) (is_some (find ip_key s.decap_dsts a)) (Same-refl s) (
        if-elim (SameAs s) (ltb env.config.max_decap_dst (suc (size s.decap_dsts))) (Same-refl s) (
          Same-trans s t
            (if env.config.testing
              then t
              else (bpf env (update_decap_dst (parse_addr_to_be a) 0) t).0)
            (decap_dsts-Same s (write ip_key s.decap_dsts a tt))
            (unless-Same env.config.testing env (update_decap_dst (parse_addr_to_be a) 0) t)))

  pub add_inline_decap_dst-Same : (dst : Text) (s : Lb) → SameAs s (add_inline_decap_dst env dst s)
  unfolding add_inline_decap_dst
  add_inline_decap_dst-Same dst s =
      let t = validate_address env dst false s in
      let e = validate-Same env dst false s in
      let a = address_or (env.parse dst) in
      if-elim (SameAs s) env.config.disable_forwarding (Same-refl s) (
        if-elim (SameAs s) (no_inline_decap env s) (Same-refl s) (
          if-elim (SameAs s) (is_invalid t.1) e
            (Same-trans s t.0 (insert_decap_dst env a t.0).0 e (insert_decap_dst-Same a t.0))))

  erase_decap_dst-Same : (a : IpAddress) (s : Lb) → SameAs s (erase_decap_dst env a s)
  unfolding erase_decap_dst drop_decap_dst
  erase_decap_dst-Same a s =
      let t = record s { decap_dsts = erase ip_key s.decap_dsts a } in
      if-elim (SameAs s) (is_some (find ip_key s.decap_dsts a))
        (Same-trans s t
          (if env.config.testing then t else (bpf env (delete_decap_dst (parse_addr_to_be a)) t).0)
          (decap_dsts-Same s (erase ip_key s.decap_dsts a))
          (unless-Same env.config.testing env (delete_decap_dst (parse_addr_to_be a)) t))
        (Same-refl s)

  pub del_inline_decap_dst-Same : (dst : Text) (s : Lb) → SameAs s (del_inline_decap_dst env dst s)
  unfolding del_inline_decap_dst
  del_inline_decap_dst-Same dst s =
      let t = validate_address env dst false s in
      let e = validate-Same env dst false s in
      let a = address_or (env.parse dst) in
      if-elim (SameAs s) env.config.disable_forwarding (Same-refl s) (
        if-elim (SameAs s) (no_inline_decap env s) (Same-refl s) (
          if-elim (SameAs s) (is_invalid t.1) e
            (Same-trans s t.0 (erase_decap_dst env a t.0).0 e (erase_decap_dst-Same a t.0))))

  write_hc_real-Same :
      (somark : ℕ) (a : IpAddress) (s : Lb) → SameAs s (write_hc_real env somark a s)
  unfolding write_hc_real
  write_hc_real-Same somark a s =
      let call = update_hc_reals_map somark (hc_address env a s) in
      let t = bpf env call s in
      let e = bpf-Same env call s in
      let f : SameAs s (record t.0 { hc_reals = write number_key t.0.hc_reals somark a }, true) =
        hc_reals-Same s t.0 (write number_key t.0.hc_reals somark a) e in
      if-elim (SameAs s) env.config.testing
        (hc_reals-Same s s (write number_key s.hc_reals somark a) (Same-refl s))
        (if-elim (SameAs s) t.1 f e)

  pub add_healthchecker_dst-Same :
      (somark : ℕ) (dst : Text) (s : Lb) → SameAs s (add_healthchecker_dst env somark dst s)
  unfolding add_healthchecker_dst
  add_healthchecker_dst-Same somark dst s =
      let t = validate_address env dst false s in
      let e = validate-Same env dst false s in
      let a = address_or (env.parse dst) in
      if-elim (SameAs s) (not env.config.enable_hc) (Same-refl s) (
        if-elim (SameAs s) (is_invalid t.1) e (
          if-elim (SameAs s)
            (not (is_some (find number_key t.0.hc_reals somark))
              && size t.0.hc_reals == env.config.max_reals)
            e
            (Same-trans s t.0 (write_hc_real env somark a t.0).0 e
              (write_hc_real-Same somark a t.0))))

  pub del_healthchecker_dst-Same :
      (somark : ℕ) (s : Lb) → SameAs s (del_healthchecker_dst env somark s)
  unfolding del_healthchecker_dst
  del_healthchecker_dst-Same somark s =
      let call = delete_hc_reals_map somark in
      let t = bpf env call s in
      let e = bpf-Same env call s in
      let f : SameAs s (record t.0 { hc_reals = erase number_key t.0.hc_reals somark }, true) =
        hc_reals-Same s t.0 (erase number_key t.0.hc_reals somark) e in
      if-elim (SameAs s) (not env.config.enable_hc) (Same-refl s) (
        if-elim (SameAs s) (not (is_some (find number_key s.hc_reals somark))) (Same-refl s) (
          if-elim (SameAs s) env.config.testing
            (hc_reals-Same s s (erase number_key s.hc_reals somark) (Same-refl s))
            (if-elim (SameAs s) t.1 f e)))

  change_hc_mac-Same : (mac : List ℕ) (s : Lb) → SameAs s (change_hc_mac env mac s)
  unfolding change_hc_mac
  change_hc_mac-Same mac s =
      if-elim (SameAs s) s.features.direct_healthchecking
        (bpf-Same env (update_hc_pckt_macs k_hc_dst_mac_pos mac) s) (Same-refl s)

  pub change_mac-Same : (mac : List ℕ) (s : Lb) → SameAs s (change_mac env mac s)
  unfolding change_mac
  change_mac-Same mac s =
      let t = record s { mac = mac } in
      let u = bpf env (update_ctl_array k_mac_addr_pos mac) t in
      let e = bpf-Same env (update_ctl_array k_mac_addr_pos mac) t in
      let g = mac-Same s mac in
      let f = Same-trans s t u.0 g e in
      if-elim (SameAs s) (not (size mac == 6)) (Same-refl s) (
        if-elim (SameAs s) env.config.testing g (
          if-elim (SameAs s) env.config.disable_forwarding
            (Same-trans s t (change_hc_mac env mac t).0 g (change_hc_mac-Same mac t))
            (if-elim (SameAs s) u.1
              (Same-trans s u.0 (change_hc_mac env mac u.0).0 f (change_hc_mac-Same mac u.0)) f)))

  pub get_index_for_real-Same : (real : Text) (s : Lb) → Same s (get_index_for_real env real s).0
  unfolding get_index_for_real
  get_index_for_real-Same real s =
      let P : Lb × Option ℕ → Type 0 = λ r. Same s r.0 in
      let t = validate_address env real false s in
      let e = validate-Same env real false s in
      if-elim P env.config.disable_forwarding (Same-refl s) (if-elim P (is_invalid t.1) e e)

  -- Reading the addresses of numbers that have a claim makes no entry.
  new_reals-same :
      (n : ℕ) (es : RealMap) (s : Lb)
      → ((k : ℕ) → count (get_reals es) k ≤ claims s k)
      → Inv env n s
      → (new_reals (get_reals_and_weight es) s).0 ≡ s
  unfolding new_reals get_reals_and_weight get_reals count
  new_reals-same n [] s h x = refl
  new_reals-same n ((k, m) ∷ es) s h x =
      let (a, (w, (e, (f, d)))) =
        address_of-live env.config.max_reals n (claims s) (quic_claims s) k s x
          (omega (arith, h k, ap one_if (==-refl k))) in
      ap (λ r. (new_reals (get_reals_and_weight es) r.0).0) e
      ∙ new_reals-same n es s (λ j. omega (arith, h j)) x

  pub get_reals_for_vip-same :
      (n : ℕ) (vip : VipKey) (s : Lb) (r : Lb × List (IpAddress × ℕ))
      → get_reals_for_vip env vip s ≡ some r
      → Inv env n s
      → r.0 ≡ s
  unfolding get_reals_for_vip
  get_reals_for_vip-same n vip s r e x = elim (Bool-cases env.config.disable_forwarding) [
    | inl d ↦ grind (arith, d, e)
    | inr d ↦ elim (Option-cases (find vip_key s.vips vip)) [
      | inl f ↦ grind (arith, d, e, f)
      | inr (v, f) ↦
          let same =
            new_reals-same n v.reals s
              (λ k. omega (arith, total-find vip_key (vip_claims k) s.vips vip v f)) x in
          grind (arith, d, e, f, same)
    ]
  ]
