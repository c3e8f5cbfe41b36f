-- ===== src/Lb/Sources.antt =====
-- katran/lib/KatranLb.cpp: source routing rules. A rule is kept with the number of its real.
use katran.Base.{ℕ, suc, ◌+◌, ◌-◌, Bool, true, false, if◌then◌else◌, ◌==◌, ◌&&◌, not, ltb}
use katran.Base.{Option, none, some, List, [], ◌∷◌, ◌++◌, number_key, find, erase, write}
use katran.Lb.{
  Lb, Env, update_lpm_src, delete_lpm_src, IpAddress, unspecified, Text, AddressType, network,
  Network, parse_addr_to_be,
}
use katran.Lb.Keys.{network_key}
use katran.Lb.Reals.{
  bpf, validate_address, address_of, decrease_ref_count_for_real, increase_ref_count_for_real,
}
use katran.Lb.Vips.{is_invalid, address_or}

-- size()
unfoldable pub size {ℓ} : {A : Type ℓ} → List A → ℕ
size [] = 0
size (x ∷ xs) = suc (size xs)

abbrev pub is_network : AddressType → Bool
is_network network = true
is_network _ = false

-- createNetwork, on a text that was validated.
abbrev pub network_or : Option Network → Network
network_or none = record { base = unspecified; prefix = 0 }
network_or (some n) = n

-- What the loop over the texts gathers.
pub record Gathered : Type 0 where
  pub state : Lb
  pub networks : List Network
  pub num_errors : ℕ

module _ (env : Env) where
  -- modifyLpmSrcRule: the map is lpm_src_v4 or lpm_src_v6 by the family of the address, which is
  -- in the flags.
  unfoldable pub add_lpm_src_rule : Network → ℕ → Lb → Lb
  add_lpm_src_rule src rnum s =
      (bpf env (update_lpm_src (parse_addr_to_be src.base) src.prefix rnum) s).0

  unfoldable pub del_lpm_src_rule : Network → Lb → Lb
  del_lpm_src_rule src s = (bpf env (delete_lpm_src (parse_addr_to_be src.base) src.prefix) s).0

  abbrev pub no_src_routing : Lb → Bool
  no_src_routing s = not s.features.src_routing && not env.config.testing

  -- addSrcRoutingRule on texts: the loop, where `count` is `srcs.size()`.
  unfoldable pub gather : ℕ → List Text → Gathered → Gathered
  gather count [] g = g
  gather count (src ∷ srcs) g =
      let (t, kind) = validate_address env src true g.state in
      let bad : Gathered = record g { state = t; num_errors = suc g.num_errors } in
      let full : Gathered = record g {
        state = t;
        num_errors = g.num_errors + (count - size g.networks);
      } in
      let good : Gathered = record g {
        state = t;
        networks = g.networks ++ (network_or (env.try_create_network src) ∷ []);
      } in
      if is_network kind
      then (if ltb env.config.max_lpm_src_size
            (suc (size g.state.lpm_src_mapping + size g.networks))
          then full
          else gather count srcs good)
      else gather count srcs bad

  -- The loop over the networks; `none` for kError.
  unfoldable pub add_rules : List Network → IpAddress → Lb → Lb × Option ℕ
  add_rules [] dst s = (s, some 0)
  add_rules (src ∷ srcs) dst s =
      if ltb env.config.max_lpm_src_size (suc (size s.lpm_src_mapping))
      then (s, none)
      else (let (t, rnum) = increase_ref_count_for_real env dst s in
          let u = record t { lpm_src_mapping = write network_key t.lpm_src_mapping src rnum } in
          let rest =
            add_rules srcs dst (if env.config.testing then u else add_lpm_src_rule src rnum u) in
          if rnum == env.config.max_reals then (t, none) else rest)

  unfoldable pub add_src_routing_networks : List Network → Text → Lb → Lb × Option ℕ
  add_src_routing_networks srcs dst s =
      if env.config.disable_forwarding
      then (s, none)
      else if no_src_routing s
      then (s, none)
      else (let (t, kind) = validate_address env dst false s in
          if is_invalid kind then (t, none) else add_rules srcs (address_or (env.parse dst)) t)

  abbrev pub errors_or : ℕ → Option ℕ → Option ℕ
  errors_or num_errors none = none
  errors_or num_errors (some n) = some num_errors

  unfoldable pub add_src_routing_rule : List Text → Text → Lb → Lb × Option ℕ
  add_src_routing_rule srcs dst s =
      if env.config.disable_forwarding
      then (s, none)
      else if no_src_routing s
      then (s, none)
      else (let (t, kind) = validate_address env dst false s in
          let start : Gathered = record { state = t; networks = []; num_errors = 0 } in
          let g = gather (size srcs) srcs start in
          let (u, rval) = add_src_routing_networks g.networks dst g.state in
          if is_invalid kind then (t, none) else (u, errors_or g.num_errors rval))

  -- The body of the loop of delSrcRoutingRule, by what is found.
  unfoldable pub del_rule : Network → Option ℕ → Lb → Lb
  del_rule src none s = s
  del_rule src (some rnum) s =
      let (t, dst) = address_of rnum s in
      let u = decrease_ref_count_for_real dst t in
      let w = if env.config.testing then u else del_lpm_src_rule src u in
      record w { lpm_src_mapping = erase network_key w.lpm_src_mapping src }

  unfoldable pub del_rules : List Network → Lb → Lb
  del_rules [] s = s
  del_rules (src ∷ srcs) s =
      del_rules srcs (del_rule src (find network_key s.lpm_src_mapping src) s)

  unfoldable pub del_src_routing_networks : List Network → Lb → Lb × Bool
  del_src_routing_networks srcs s =
      if env.config.disable_forwarding
      then (s, false)
      else if no_src_routing s
      then (s, false)
      else (del_rules srcs s, true)

  unfoldable pub networks_of : List Text → List Network
  networks_of [] = []
  networks_of (src ∷ srcs) = elim (env.try_create_network src) [
    | none ↦ networks_of srcs
    | some n ↦ n ∷ networks_of srcs
  ]

  unfoldable pub del_src_routing_rule : List Text → Lb → Lb × Bool
  del_src_routing_rule srcs s =
      if env.config.disable_forwarding
      then (s, false)
      else if no_src_routing s
      then (s, false)
      else del_src_routing_networks (networks_of srcs) s

  -- The loop of clearAllSrcRoutingRules. A rule's number without a real is dereferenced by the
  -- code; here it is passed over.
  unfoldable pub clear_rules : List (Network × ℕ) → Lb → Lb
  clear_rules [] s = s
  clear_rules ((src, rnum) ∷ rules) s =
      let t = decrease_ref_count_for_real (address_or (find number_key s.num_to_reals rnum)) s in
      clear_rules rules (if env.config.testing then t else del_lpm_src_rule src t)

  unfoldable pub clear_all_src_routing_rules : Lb → Lb × Bool
  clear_all_src_routing_rules s =
      if env.config.disable_forwarding
      then (s, false)
      else if no_src_routing s
      then (s, false)
      else (record (clear_rules s.lpm_src_mapping s) { lpm_src_mapping = [] }, true)
