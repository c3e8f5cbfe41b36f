-- ===== src/Lb/Dsts.antt =====
-- katran/lib/KatranLb.cpp: destinations for inline decapsulation and for health checks, and the MAC
-- address of the default router.
use katran.Base.{
  ℕ, suc, Bool, true, false, if◌then◌else◌, ◌==◌, ◌&&◌, not, ltb, Option, none, some, List,
  number_key, find, erase, write,
}
use katran.Lb.{
  Lb, Env, update_decap_dst, delete_decap_dst, update_hc_reals_map, delete_hc_reals_map,
  update_ctl_array, update_hc_pckt_macs, IpAddress, ipv4, Text, BeAddr, parse_addr_to_be,
  parse_addr_to_int,
}
use katran.Lb.Keys.{ip_key}
use katran.Lb.Reals.{bpf, validate_address}
use katran.Lb.Vips.{is_invalid, address_or}
use katran.Lb.Sources.{size}

abbrev pub is_v4 : IpAddress → Bool
is_v4 (ipv4 a) = true
is_v4 _ = false

abbrev pub is_some {ℓ} : {A : Type ℓ} → Option A → Bool
is_some none = false
is_some (some a) = true

abbrev pub k_mac_addr_pos : ℕ
k_mac_addr_pos = 0

abbrev pub k_hc_dst_mac_pos : ℕ
k_hc_dst_mac_pos = 1

module _ (env : Env) where
  abbrev pub no_inline_decap : Lb → Bool
  no_inline_decap s = not s.features.inline_decap && not env.config.testing

  -- modifyDecapDst with ADD and `flags` 0; with DEL.
  unfoldable pub put_decap_dst : IpAddress → Lb → Lb × Bool
  put_decap_dst dst = bpf env (update_decap_dst (parse_addr_to_be dst) 0)

  unfoldable pub drop_decap_dst : IpAddress → Lb → Lb × Bool
  drop_decap_dst dst = bpf env (delete_decap_dst (parse_addr_to_be dst))

  unfoldable pub insert_decap_dst : IpAddress → Lb → Lb × Bool
  insert_decap_dst daddr s =
      if is_some (find ip_key s.decap_dsts daddr)
      then (s, false)
      else if ltb env.config.max_decap_dst (suc (size s.decap_dsts))
      then (s, false)
      else (let t = record s { decap_dsts = write ip_key s.decap_dsts daddr tt } in
          (if env.config.testing then t else (put_decap_dst daddr t).0, true))

  unfoldable pub add_inline_decap_dst : Text → Lb → Lb × Bool
  add_inline_decap_dst dst s =
      if env.config.disable_forwarding
      then (s, false)
      else if no_inline_decap s
      then (s, false)
      else (let (t, kind) = validate_address env dst false s in
          if is_invalid kind then (t, false) else insert_decap_dst (address_or (env.parse dst)) t)

  unfoldable pub erase_decap_dst : IpAddress → Lb → Lb × Bool
  erase_decap_dst daddr s =
      if is_some (find ip_key s.decap_dsts daddr)
      then (let t = record s { decap_dsts = erase ip_key s.decap_dsts daddr } in
          (if env.config.testing then t else (drop_decap_dst daddr t).0, true))
      else (s, false)

  unfoldable pub del_inline_decap_dst : Text → Lb → Lb × Bool
  del_inline_decap_dst dst s =
      if env.config.disable_forwarding
      then (s, false)
      else if no_inline_decap s
      then (s, false)
      else (let (t, kind) = validate_address env dst false s in
          if is_invalid kind then (t, false) else erase_decap_dst (address_or (env.parse dst)) t)

  abbrev pub hc_address : IpAddress → Lb → BeAddr
  hc_address hcaddr s =
      if is_v4 hcaddr && not s.features.direct_healthchecking
      then parse_addr_to_int hcaddr
      else parse_addr_to_be hcaddr

  unfoldable pub write_hc_real : ℕ → IpAddress → Lb → Lb × Bool
  write_hc_real somark hcaddr s =
      let (t, ok) = bpf env (update_hc_reals_map somark (hc_address hcaddr s)) s in
      if env.config.testing
      then (record s { hc_reals = write number_key s.hc_reals somark hcaddr }, true)
      else if ok
      then (record t { hc_reals = write number_key t.hc_reals somark hcaddr }, true)
      else (t, false)

  unfoldable pub add_healthchecker_dst : ℕ → Text → Lb → Lb × Bool
  add_healthchecker_dst somark dst s =
      if not env.config.enable_hc
      then (s, false)
      else (let (t, kind) = validate_address env dst false s in
          if is_invalid kind
          then (t, false)
          else if not (is_some (find number_key t.hc_reals somark))
              && size t.hc_reals == env.config.max_reals
          then (t, false)
          else write_hc_real somark (address_or (env.parse dst)) t)

  unfoldable pub del_healthchecker_dst : ℕ → Lb → Lb × Bool
  del_healthchecker_dst somark s =
      if not env.config.enable_hc
      then (s, false)
      else if not (is_some (find number_key s.hc_reals somark))
      then (s, false)
      else (let (t, ok) = bpf env (delete_hc_reals_map somark) s in
          if env.config.testing
          then (record s { hc_reals = erase number_key s.hc_reals somark }, true)
          else if ok
          then (record t { hc_reals = erase number_key t.hc_reals somark }, true)
          else (t, false))

  -- The second half of changeMac, for direct health checks.
  unfoldable pub change_hc_mac : List ℕ → Lb → Lb × Bool
  change_hc_mac new_mac s =
      if s.features.direct_healthchecking
      then bpf env (update_hc_pckt_macs k_hc_dst_mac_pos new_mac) s
      else (s, true)

  unfoldable pub change_mac : List ℕ → Lb → Lb × Bool
  change_mac new_mac s =
      if not (size new_mac == 6)
      then (s, false)
      else (let t = record s { mac = new_mac } in
          let (u, ok) = bpf env (update_ctl_array k_mac_addr_pos new_mac) t in
          if env.config.testing
          then (t, true)
          else if env.config.disable_forwarding
          then change_hc_mac new_mac t
          else if ok
          then change_hc_mac new_mac u
          else (u, false))
