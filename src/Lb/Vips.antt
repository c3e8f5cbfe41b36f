-- ===== src/Lb/Vips.antt =====
-- katran/lib/KatranLb.cpp: VIPs and their reals.
use katran.Base.{ℕ, ◌+◌, ◌*◌, Bool, true, false, if◌then◌else◌, ◌==◌, ◌||◌}
use katran.Base.{Option, none, some, ◌>>=◌, List, [], ◌∷◌, ◌++◌, u32, find, erase, write, bpf_htons}
use katran.Structs.{VipDefinition, VipMeta}
use katran.Maglev.{Endpoint}
use katran.Vip.{
  Vip, RealPos, ModifyAction, add, del, UpdateReal, new_vip, set_vip_flags, unset_vip_flags,
  batch_reals_update, get_reals, get_reals_and_weight,
}
use katran.Lb.{
  Lb, Env, update_vip_map, delete_vip_map, update_ch_rings, IpAddress, unspecified, RealMeta, Text,
  AddressType, invalid, parse_addr_to_be, VipKey, NewReal,
}
use katran.Lb.Keys.{ip_key, vip_key}
use katran.Lb.Reals.{
  bpf, validate_address, address_of, decrease_ref_count_for_real, increase_ref_count_for_real,
}

abbrev pub has_num : List ℕ → ℕ → Bool
has_num [] n = false
has_num (m ∷ ms) n = m == n || has_num ms n

abbrev pub is_invalid : AddressType → Bool
is_invalid invalid = true
is_invalid _ = false

-- The constructor of folly::IPAddress, on a text that was validated.
abbrev pub address_or : Option IpAddress → IpAddress
address_or none = unspecified
address_or (some a) = a

-- The loop of delVip over the reals.
unfoldable pub release_reals : List ℕ → Lb → Lb
release_reals [] s = s
release_reals (num ∷ nums) s =
    let (t, real_name) = address_of num s in
    release_reals nums (decrease_ref_count_for_real real_name t)

-- What getRealsForVip makes of the reals of the VIP.
unfoldable pub new_reals : List Endpoint → Lb → Lb × List (IpAddress × ℕ)
new_reals [] s = (s, [])
new_reals (e ∷ es) s =
    let (t, a) = address_of e.num s in let (u, rest) = new_reals es t in (u, (a, e.weight) ∷ rest)

-- Inside the loop of modifyRealsForVip: the state, `cur_reals` and `ureals`, which is built from
-- its end here.
pub record Batch : Type 0 where
  pub state : Lb
  pub cur_reals : List ℕ
  pub ureals : List UpdateReal

-- The branch of ModifyAction::DEL, by what is found.
unfoldable pub delete_by : IpAddress → Option RealMeta → Batch → Batch
delete_by raddr none b = b
delete_by raddr (some m) b =
    if has_num b.cur_reals m.num
    then record b {
      state = decrease_ref_count_for_real raddr b.state;
      ureals =
          b.ureals
          ++ (record { action = del; updated_real = record { num = m.num; weight = 0; hash = 0 } }
              ∷ []);
    }
    else b

module _ (env : Env) where
  -- The key of vip_map: the address as words, the port in network byte order.
  unfoldable pub vip_definition : VipKey → VipDefinition
  vip_definition vip = record {
    vip = (parse_addr_to_be (address_or (env.parse vip.address))).daddr;
    port = bpf_htons vip.port;
    proto = vip.proto;
  }

  -- updateVipMap with ModifyAction::ADD; with DEL.
  unfoldable pub put_vip_map : VipKey → VipMeta → Lb → Lb × Bool
  put_vip_map vip meta = bpf env (update_vip_map (vip_definition vip) meta)

  unfoldable pub drop_vip_map : VipKey → Lb → Lb × Bool
  drop_vip_map vip = bpf env (delete_vip_map (vip_definition vip))

  -- The rest of addVip: once a number is there, once the VIP is not.
  unfoldable pub emplace_vip : VipKey → ℕ → ℕ → List ℕ → Option Vip → Lb → Lb × Bool
  emplace_vip vip flags vip_num rest (some v) s = (s, false)
  emplace_vip vip flags vip_num rest none s =
      let t = record s {
        vip_nums = rest;
        vips = write vip_key s.vips vip (new_vip vip_num flags env.config.ch_ring_size);
      } in
      (
        if env.config.testing
            then t
            else (put_vip_map vip (record { flags = flags; vip_num = vip_num }) t).0,
        true,
      )

  unfoldable pub new_vip_num : VipKey → ℕ → List ℕ → Lb → Lb × Bool
  new_vip_num vip flags [] s = (s, false)
  new_vip_num vip flags (vip_num ∷ rest) s =
      emplace_vip vip flags vip_num rest (find vip_key s.vips vip) s

  unfoldable pub add_vip : VipKey → ℕ → Lb → Lb × Bool
  add_vip vip flags s =
      if env.config.disable_forwarding
      then (s, false)
      else (let (t, kind) = validate_address env vip.address false s in
          if is_invalid kind then (t, false) else new_vip_num vip flags t.vip_nums t)

  -- The rest of delVip, by what is found.
  unfoldable pub del_found : VipKey → Option Vip → Lb → Lb × Bool
  del_found vip none s = (s, false)
  del_found vip (some v) s =
      let t = release_reals (get_reals v.reals) s in
      let u = record t { vip_nums = t.vip_nums ++ (v.vip_num ∷ []) } in
      let w = if env.config.testing then u else (drop_vip_map vip u).0 in
      (record w { vips = erase vip_key w.vips vip }, true)

  unfoldable pub del_vip : VipKey → Lb → Lb × Bool
  del_vip vip s =
      if env.config.disable_forwarding
      then (s, false)
      else del_found vip (find vip_key s.vips vip) s

  unfoldable pub get_vip_flags : VipKey → Lb → Option ℕ
  get_vip_flags vip s =
      if env.config.disable_forwarding
      then none
      else (do v ← find vip_key s.vips vip; some v.vip_flags)

  unfoldable pub modify_found : VipKey → ℕ → Bool → Option Vip → Lb → Lb × Bool
  modify_found vip flag set none s = (s, false)
  modify_found vip flag set (some v) s =
      let w = if set then set_vip_flags flag v else unset_vip_flags flag v in
      let t = record s { vips = write vip_key s.vips vip w } in
      if env.config.testing
      then (t, true)
      else put_vip_map vip (record { flags = w.vip_flags; vip_num = w.vip_num }) t

  unfoldable pub modify_vip : VipKey → ℕ → Bool → Lb → Lb × Bool
  modify_vip vip flag set s = modify_found vip flag set (find vip_key s.vips vip) s

  abbrev pub update_to : IpAddress → ℕ → ℕ → UpdateReal
  update_to raddr num weight = record {
    action = add;
    updated_real = record { num = num; weight = weight; hash = env.ip_hash raddr };
  }

  -- The branch of ModifyAction::ADD, by what is found.
  unfoldable pub add_by : IpAddress → ℕ → Option RealMeta → Batch → Batch
  add_by raddr weight none b =
      let (t, rnum) = increase_ref_count_for_real env raddr b.state in
      if rnum == env.config.max_reals
      then record b { state = t }
      else record b { state = t; ureals = b.ureals ++ (update_to raddr rnum weight ∷ []) }
  add_by raddr weight (some m) b =
      if has_num b.cur_reals m.num
      then record b { ureals = b.ureals ++ (update_to raddr m.num weight ∷ []) }
      else record b {
        state = (increase_ref_count_for_real env raddr b.state).0;
        cur_reals = b.cur_reals ++ (m.num ∷ []);
        ureals = b.ureals ++ (update_to raddr m.num weight ∷ []);
      }

  unfoldable pub modify_one : ModifyAction → IpAddress → ℕ → Batch → Batch
  modify_one add raddr weight b = add_by raddr weight (find ip_key b.state.reals raddr) b
  modify_one del raddr weight b = delete_by raddr (find ip_key b.state.reals raddr) b

  unfoldable pub modify_each : ModifyAction → List NewReal → Batch → Batch
  modify_each action [] b = b
  modify_each action (real ∷ reals) b =
      let (t, kind) = validate_address env real.address false b.state in
      let c = record b { state = t } in
      let d = modify_one action (address_or (env.parse real.address)) real.weight c in
      modify_each action reals (if is_invalid kind then c else d)

  -- The loop over the positions; the key is a uint32_t.
  unfoldable pub update_rings : ℕ → List RealPos → Lb → Lb
  update_rings vip_num [] s = s
  update_rings vip_num (p ∷ ps) s =
      update_rings vip_num ps
        (bpf env (update_ch_rings (u32 (u32 (vip_num * env.config.ch_ring_size) + p.pos)) p.real)
          s).0

  -- What modifyRealsForVip does with the new ring.
  unfoldable pub install : VipKey → Vip → List RealPos → Lb → Lb
  install vip w positions s =
      let t = record s { vips = write vip_key s.vips vip w } in
      if env.config.testing then t else update_rings w.vip_num positions t

  -- The rest of modifyRealsForVip, by what is found; `none` where GenerateMaglevHash does not return.
  unfoldable pub modify_reals :
      ModifyAction → List NewReal → VipKey → Option Vip → Lb → Option (Lb × Bool)
  modify_reals action reals vip none s = some (s, false)
  modify_reals action reals vip (some v) s =
      let start : Batch = record { state = s; cur_reals = get_reals v.reals; ureals = [] } in
      let b = modify_each action reals start in
      do
        (w, positions) ← batch_reals_update env.murmur b.ureals v
        some (install vip w positions b.state, true)

  unfoldable pub modify_reals_for_vip :
      ModifyAction → List NewReal → VipKey → Lb → Option (Lb × Bool)
  modify_reals_for_vip action reals vip s =
      if env.config.disable_forwarding
      then some (s, false)
      else modify_reals action reals vip (find vip_key s.vips vip) s

  unfoldable pub add_real_for_vip : NewReal → VipKey → Lb → Option (Lb × Bool)
  add_real_for_vip real vip s =
      if env.config.disable_forwarding
      then some (s, false)
      else modify_reals_for_vip add (real ∷ []) vip s

  unfoldable pub del_real_for_vip : NewReal → VipKey → Lb → Option (Lb × Bool)
  del_real_for_vip real vip s =
      if env.config.disable_forwarding
      then some (s, false)
      else modify_reals_for_vip del (real ∷ []) vip s

  -- `none` for the exception.
  unfoldable pub get_reals_for_vip : VipKey → Lb → Option (Lb × List (IpAddress × ℕ))
  get_reals_for_vip vip s =
      if env.config.disable_forwarding
      then some (s, [])
      else (do v ← find vip_key s.vips vip; some (new_reals (get_reals_and_weight v.reals) s))

  -- `none` for -1 (kError).
  unfoldable pub get_index_for_real : Text → Lb → Lb × Option ℕ
  get_index_for_real real s =
      if env.config.disable_forwarding
      then (s, none)
      else (let (t, kind) = validate_address env real false s in
          if is_invalid kind
          then (t, none)
          else (t, (do m ← find ip_key t.reals (address_or (env.parse real)); some m.num)))
