-- ===== src/Lb/Mirror/Destinations.antt =====
-- Destinations for decapsulation and health checks, and the MAC address (katran/lib/KatranLb.cpp): the
-- array of reals follows.
use katran.Base.{ℕ, suc, refl, Bool, false, not, ◌&&◌, if-elim, ◌==◌, ltb}
use katran.Base.{Option, List, number_key, find}
use katran.Lb.{
  Lb, Env, IpAddress, Text, update_decap_dst, delete_decap_dst, update_hc_reals_map,
  delete_hc_reals_map, update_ctl_array, update_hc_pckt_macs, parse_addr_to_be,
}
use katran.Lb.Keys.{ip_key}
use katran.Lb.Reals.{bpf, validate_address}
use katran.Lb.Vips.{is_invalid, address_or}
use katran.Lb.Sources.{size}
use katran.Lb.Quic.{Updates}
use katran.Lb.Dsts.{
  is_some, no_inline_decap, put_decap_dst, drop_decap_dst, insert_decap_dst, add_inline_decap_dst,
  erase_decap_dst, del_inline_decap_dst, hc_address, write_hc_real, add_healthchecker_dst,
  del_healthchecker_dst, change_hc_mac, change_mac, k_mac_addr_pos, k_hc_dst_mac_pos,
}
use katran.Lb.Mirror.{Mirrored, bpf-Mirrored, unless-Mirrored, validate-Mirrored}

module _ (env : Env) where
  abbrev After : Lb × Bool → Type 0
  After r = Mirrored env r.0

  abbrev AfterNum : Lb × Option ℕ → Type 0
  AfterNum r = Mirrored env r.0

  abbrev AfterUpdates : Updates → Type 0
  AfterUpdates u = Mirrored env u.0

  insert_decap_dst-Mirrored :
      (a : IpAddress) (s : Lb) → Mirrored env s → After (insert_decap_dst env a s)
  unfolding insert_decap_dst put_decap_dst
  insert_decap_dst-Mirrored a s x = if-elim After (is_some (find ip_key s.decap_dsts a)) x (
      if-elim After (ltb env.config.max_decap_dst (suc (size s.decap_dsts))) x
        (unless-Mirrored env env.config.testing (update_decap_dst (parse_addr_to_be a) 0) _ refl x))

  pub add_inline_decap_dst-Mirrored :
      (dst : Text) (s : Lb) → Mirrored env s → After (add_inline_decap_dst env dst s)
  unfolding add_inline_decap_dst
  add_inline_decap_dst-Mirrored dst s x =
      let t = validate_address env dst false s in
      let y = validate-Mirrored env dst false s x in
      if-elim After env.config.disable_forwarding x (
        if-elim After (no_inline_decap env s) x (
          if-elim After (is_invalid t.1) y
            (insert_decap_dst-Mirrored (address_or (env.parse dst)) t.0 y)))

  erase_decap_dst-Mirrored :
      (a : IpAddress) (s : Lb) → Mirrored env s → After (erase_decap_dst env a s)
  unfolding erase_decap_dst drop_decap_dst
  erase_decap_dst-Mirrored a s x =
      if-elim After (is_some (find ip_key s.decap_dsts a))
        (unless-Mirrored env env.config.testing (delete_decap_dst (parse_addr_to_be a)) _ refl x) x

  pub del_inline_decap_dst-Mirrored :
      (dst : Text) (s : Lb) → Mirrored env s → After (del_inline_decap_dst env dst s)
  unfolding del_inline_decap_dst
  del_inline_decap_dst-Mirrored dst s x =
      let t = validate_address env dst false s in
      let y = validate-Mirrored env dst false s x in
      if-elim After env.config.disable_forwarding x (
        if-elim After (no_inline_decap env s) x (
          if-elim After (is_invalid t.1) y
            (erase_decap_dst-Mirrored (address_or (env.parse dst)) t.0 y)))

  write_hc_real-Mirrored :
      (somark : ℕ) (a : IpAddress) (s : Lb) → Mirrored env s → After (write_hc_real env somark a s)
  unfolding write_hc_real
  write_hc_real-Mirrored somark a s x =
      let call = update_hc_reals_map somark (hc_address env a s) in
      let y = bpf-Mirrored env call s refl x in
      if-elim After env.config.testing x (if-elim After (bpf env call s).1 y y)

  pub add_healthchecker_dst-Mirrored :
      (somark : ℕ) (dst : Text) (s : Lb)
      → Mirrored env s
      → After (add_healthchecker_dst env somark dst s)
  unfolding add_healthchecker_dst
  add_healthchecker_dst-Mirrored somark dst s x =
      let t = validate_address env dst false s in
      let y = validate-Mirrored env dst false s x in
      if-elim After (not env.config.enable_hc) x (
        if-elim After (is_invalid t.1) y (
          if-elim After
            (not (is_some (find number_key t.0.hc_reals somark))
              && size t.0.hc_reals == env.config.max_reals)
            y (write_hc_real-Mirrored somark (address_or (env.parse dst)) t.0 y)))

  pub del_healthchecker_dst-Mirrored :
      (somark : ℕ) (s : Lb) → Mirrored env s → After (del_healthchecker_dst env somark s)
  unfolding del_healthchecker_dst
  del_healthchecker_dst-Mirrored somark s x =
      let call = delete_hc_reals_map somark in
      let y = bpf-Mirrored env call s refl x in
      if-elim After (not env.config.enable_hc) x (
        if-elim After (not (is_some (find number_key s.hc_reals somark))) x
          (if-elim After env.config.testing x (if-elim After (bpf env call s).1 y y)))

  change_hc_mac-Mirrored :
      (mac : List ℕ) (s : Lb) → Mirrored env s → After (change_hc_mac env mac s)
  unfolding change_hc_mac
  change_hc_mac-Mirrored mac s x =
      if-elim After s.features.direct_healthchecking
        (bpf-Mirrored env (update_hc_pckt_macs k_hc_dst_mac_pos mac) s refl x) x

  pub change_mac-Mirrored : (mac : List ℕ) (s : Lb) → Mirrored env s → After (change_mac env mac s)
  unfolding change_mac
  change_mac-Mirrored mac s x =
      let t = record s { mac = mac } in
      let u = bpf env (update_ctl_array k_mac_addr_pos mac) t in
      let y = bpf-Mirrored env (update_ctl_array k_mac_addr_pos mac) t refl x in
      if-elim After (not (size mac == 6)) x (
        if-elim After env.config.testing x (
          if-elim After env.config.disable_forwarding (change_hc_mac-Mirrored mac t x)
            (if-elim After u.1 (change_hc_mac-Mirrored mac u.0 y) y)))
