-- ===== src/Lb/Mirror/Tables.antt =====
-- The rules of source routing, the QUIC mapping (katran/lib/KatranLb.cpp): the
-- array of reals follows.
use katran.Base.{ℕ, suc, ◌+◌, ◌≡◌, refl, Bool, true, false, if◌then◌else◌, if-elim, ◌==◌, ltb}
use katran.Base.{Option, none, some, List, [], ◌∷◌, ◌++◌, number_key, find, write}
use katran.Vip.{ModifyAction, add, del}
use katran.Lb.{
  Lb, Env, BpfCall, IpAddress, Text, Network, QuicReal, update_lpm_src, delete_lpm_src,
  update_quic_mapping, parse_addr_to_be,
}
use katran.Lb.Keys.{ip_key, network_key}
use katran.Lb.Reals.{
  bpf, validate_address, address_of, decrease_ref_count_for_real, increase_ref_count_for_real,
}
use katran.Lb.Vips.{is_invalid, address_or}
use katran.Lb.Sources.{
  size, is_network, network_or, Gathered, add_lpm_src_rule, del_lpm_src_rule, no_src_routing,
  gather, add_rules, add_src_routing_networks, add_src_routing_rule, del_rule, del_rules,
  networks_of, del_src_routing_networks, del_src_routing_rule, clear_rules,
  clear_all_src_routing_rules,
}
use katran.Lb.Quic.{
  k_max_quic_id, Updates, delete_quic, add_quic, modify_quic, modify_quics, update_quics,
  modify_quic_reals_mapping,
}
use katran.Lb.Mirror.{
  Mirrored, bpf-Mirrored, unless-Mirrored, validate-Mirrored, address_of-Mirrored,
  decrease-Mirrored, increase-Mirrored,
}

module _ (env : Env) where
  abbrev After : Lb × Bool → Type 0
  After r = Mirrored env r.0

  abbrev AfterNum : Lb × Option ℕ → Type 0
  AfterNum r = Mirrored env r.0

  abbrev AfterUpdates : Updates → Type 0
  AfterUpdates u = Mirrored env u.0

  gather-Mirrored :
      (count : ℕ) (srcs : List Text) (g : Gathered)
      → Mirrored env g.state
      → Mirrored env (gather env count srcs g).state
  unfolding gather
  gather-Mirrored count [] g x = x
  gather-Mirrored count (src ∷ srcs) g x =
      let P : Gathered → Type 0 = λ g. Mirrored env g.state in
      let t = validate_address env src true g.state in
      let y = validate-Mirrored env src true g.state x in
      let bad : Gathered = record g { state = t.0; num_errors = suc g.num_errors } in
      let good : Gathered = record g {
        state = t.0;
        networks = g.networks ++ (network_or (env.try_create_network src) ∷ []);
      } in
      if-elim P (is_network t.1)
        (if-elim P
          (ltb env.config.max_lpm_src_size (suc (size g.state.lpm_src_mapping + size g.networks))) y
          (gather-Mirrored count srcs good y))
        (gather-Mirrored count srcs bad y)

  del_rule-Mirrored :
      (src : Network) (o : Option ℕ) (s : Lb) → Mirrored env s → Mirrored env (del_rule env src o s)
  unfolding del_rule del_lpm_src_rule
  del_rule-Mirrored src none s x = x
  del_rule-Mirrored src (some num) s x =
      let r = address_of num s in
      unless-Mirrored env env.config.testing (delete_lpm_src (parse_addr_to_be src.base) src.prefix)
        (decrease_ref_count_for_real r.1 r.0) refl
        (decrease-Mirrored env r.1 r.0 (address_of-Mirrored env num s x))

  del_rules-Mirrored :
      (srcs : List Network) (s : Lb) → Mirrored env s → Mirrored env (del_rules env srcs s)
  unfolding del_rules
  del_rules-Mirrored [] s x = x
  del_rules-Mirrored (src ∷ srcs) s x =
      let o = find network_key s.lpm_src_mapping src in
      del_rules-Mirrored srcs (del_rule env src o s) (del_rule-Mirrored src o s x)

  del_networks-Mirrored :
      (srcs : List Network) (s : Lb) → Mirrored env s → After (del_src_routing_networks env srcs s)
  unfolding del_src_routing_networks
  del_networks-Mirrored srcs s x =
      if-elim After env.config.disable_forwarding x
        (if-elim After (no_src_routing env s) x (del_rules-Mirrored srcs s x))

  pub del_src_routing_rule-Mirrored :
      (srcs : List Text) (s : Lb) → Mirrored env s → After (del_src_routing_rule env srcs s)
  unfolding del_src_routing_rule
  del_src_routing_rule-Mirrored srcs s x =
      if-elim After env.config.disable_forwarding x
        (if-elim After (no_src_routing env s) x (del_networks-Mirrored (networks_of env srcs) s x))

  clear-Mirrored :
      (rules : List (Network × ℕ)) (s : Lb)
      → Mirrored env s
      → Mirrored env (clear_rules env rules s)
  unfolding clear_rules del_lpm_src_rule
  clear-Mirrored [] s x = x
  clear-Mirrored ((src, num) ∷ rules) s x =
      let a = address_or (find number_key s.num_to_reals num) in
      let t = decrease_ref_count_for_real a s in
      let call = delete_lpm_src (parse_addr_to_be src.base) src.prefix in
      clear-Mirrored rules (if env.config.testing then t else (bpf env call t).0)
        (unless-Mirrored env env.config.testing call t refl (decrease-Mirrored env a s x))

  pub clear_all-Mirrored : (s : Lb) → Mirrored env s → After (clear_all_src_routing_rules env s)
  unfolding clear_all_src_routing_rules
  clear_all-Mirrored s x =
      if-elim After env.config.disable_forwarding x
        (if-elim After (no_src_routing env s) x (clear-Mirrored s.lpm_src_mapping s x))

  delete_quic-Mirrored :
      (a : IpAddress) (o : Option ℕ) (u : Updates)
      → AfterUpdates u
      → AfterUpdates (delete_quic env a o u)
  unfolding delete_quic
  delete_quic-Mirrored a none (s, us) x = x
  delete_quic-Mirrored a (some id) (s, us) x = decrease-Mirrored env a s x

  update_quics-Mirrored :
      (us : List (ℕ × ℕ)) (s : Lb) → Mirrored env s → Mirrored env (update_quics env us s)
  unfolding update_quics
  update_quics-Mirrored [] s x = x
  update_quics-Mirrored ((id, num) ∷ us) s x =
      update_quics-Mirrored us (bpf env (update_quic_mapping id num) s).0
        (bpf-Mirrored env (update_quic_mapping id num) s refl x)

  module _ (live : env.config.testing ≡ false)
      (succeeds : (calls : List BpfCall) (call : BpfCall) → env.succeeds calls call ≡ true) where
    add_rules-Mirrored :
        (srcs : List Network) (dst : IpAddress) (s : Lb)
        → Mirrored env s
        → AfterNum (add_rules env srcs dst s)
    unfolding add_rules add_lpm_src_rule
    add_rules-Mirrored [] dst s x = x
    add_rules-Mirrored (src ∷ srcs) dst s x =
        let r = increase_ref_count_for_real env dst s in
        let y = increase-Mirrored env live succeeds dst s x in
        let u = record r.0 { lpm_src_mapping = write network_key r.0.lpm_src_mapping src r.1 } in
        let call = update_lpm_src (parse_addr_to_be src.base) src.prefix r.1 in
        if-elim AfterNum (ltb env.config.max_lpm_src_size (suc (size s.lpm_src_mapping))) x (
          if-elim AfterNum (r.1 == env.config.max_reals) y (
            add_rules-Mirrored srcs dst (if env.config.testing then u else (bpf env call u).0)
              (unless-Mirrored env env.config.testing call u refl y)))

    add_networks-Mirrored :
        (srcs : List Network) (dst : Text) (s : Lb)
        → Mirrored env s
        → AfterNum (add_src_routing_networks env srcs dst s)
    unfolding add_src_routing_networks
    add_networks-Mirrored srcs dst s x =
        let t = validate_address env dst false s in
        let y = validate-Mirrored env dst false s x in
        if-elim AfterNum env.config.disable_forwarding x (
          if-elim AfterNum (no_src_routing env s) x (
            if-elim AfterNum (is_invalid t.1) y
              (add_rules-Mirrored srcs (address_or (env.parse dst)) t.0 y)))

    pub add_src_routing_rule-Mirrored :
        (srcs : List Text) (dst : Text) (s : Lb)
        → Mirrored env s
        → AfterNum (add_src_routing_rule env srcs dst s)
    unfolding add_src_routing_rule
    add_src_routing_rule-Mirrored srcs dst s x =
        let t = validate_address env dst false s in
        let y = validate-Mirrored env dst false s x in
        let begin : Gathered = record { state = t.0; networks = []; num_errors = 0 } in
        let g = gather env (size srcs) srcs begin in
        let z = gather-Mirrored (size srcs) srcs begin y in
        if-elim AfterNum env.config.disable_forwarding x (
          if-elim AfterNum (no_src_routing env s) x
            (if-elim AfterNum (is_invalid t.1) y (add_networks-Mirrored g.networks dst g.state z)))

    add_quic-Mirrored :
        (a : IpAddress) (id : ℕ) (o : Option ℕ) (u : Updates)
        → AfterUpdates u
        → AfterUpdates (add_quic env a id o u)
    unfolding add_quic
    add_quic-Mirrored a id (some old) (s, us) x = x
    add_quic-Mirrored a id none (s, us) x =
        let y = increase-Mirrored env live succeeds a s x in
        if-elim AfterUpdates ((increase_ref_count_for_real env a s).1 == env.config.max_reals) y y

    modify_quic-Mirrored :
        (action : ModifyAction) (a : IpAddress) (id : ℕ) (u : Updates)
        → AfterUpdates u
        → AfterUpdates (modify_quic env action a id u)
    unfolding modify_quic
    modify_quic-Mirrored add a id u x = add_quic-Mirrored a id (find ip_key u.0.quic_mapping a) u x
    modify_quic-Mirrored del a id u x = delete_quic-Mirrored a (find ip_key u.0.quic_mapping a) u x

    modify_quics-Mirrored :
        (action : ModifyAction) (reals : List QuicReal) (u : Updates)
        → AfterUpdates u
        → AfterUpdates (modify_quics env action reals u)
    unfolding modify_quics
    modify_quics-Mirrored action [] u x = x
    modify_quics-Mirrored action (r ∷ rs) (s, us) x =
        let t = validate_address env r.address false s in
        let y = validate-Mirrored env r.address false s x in
        let a = address_or (env.parse r.address) in
        modify_quics-Mirrored action rs _ (
          if-elim AfterUpdates (is_invalid t.1) y (
            if-elim AfterUpdates (ltb k_max_quic_id r.id) y
              (modify_quic-Mirrored action a r.id (t.0, us) y)))

    pub modify_quic_reals_mapping-Mirrored :
        (action : ModifyAction) (reals : List QuicReal) (s : Lb)
        → Mirrored env s
        → Mirrored env (modify_quic_reals_mapping env action reals s)
    unfolding modify_quic_reals_mapping
    modify_quic_reals_mapping-Mirrored action reals s x =
        let u = modify_quics env action reals (s, []) in
        let y = modify_quics-Mirrored action reals (s, []) x in
        if-elim (Mirrored env) env.config.disable_forwarding x
          (if-elim (Mirrored env) env.config.testing y (update_quics-Mirrored u.1 u.0 y))
