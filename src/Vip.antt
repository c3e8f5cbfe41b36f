-- ===== src/Vip.antt =====
-- katran/lib/Vip.h, katran/lib/Vip.cpp: one VIP of the control plane, with its reals and its ring.
-- The unordered_map of the reals is an association list with one entry for a key.
pub mod Delta
pub mod Order
pub mod Reals
pub mod Endpoints
pub mod Serving
use katran.Base.{
  ℕ, zero, suc, Bool, true, false, not, ◌==◌, ltb, if◌then◌else◌, bit_and, bit_or, bit_xor, ◌-◌,
  ◌^◌,
}
use katran.Base.{number_key, find, erase, write, Option, none, some, ◌>>=◌, List, [], ◌∷◌}
use katran.Maglev.{Endpoint, Ring, free_slot, put, generate_maglev_hash}

pub record RealPos : Type 0 where
  pub real : ℕ
  pub pos : ℕ

pub data ModifyAction : Type 0 where
  add del : ModifyAction

pub record UpdateReal : Type 0 where
  pub action : ModifyAction
  pub updated_real : Endpoint

pub record VipRealMeta : Type 0 where
  pub weight : ℕ
  pub hash : ℕ

abbrev pub RealMap : Type 0
RealMap = List (ℕ × VipRealMeta)

pub record Vip : Type 0 where
  pub vip_num : ℕ
  pub vip_flags : ℕ
  pub ch_ring_size : ℕ
  pub reals : RealMap
  pub ch_ring : Ring

-- The constructor.
unfoldable pub new_vip : ℕ → ℕ → ℕ → Vip
new_vip vip_num vip_flags ring_size = record {
  vip_num = vip_num;
  vip_flags = vip_flags;
  ch_ring_size = ring_size;
  reals = [];
  ch_ring = λ _. free_slot;
}

unfoldable pub set_vip_flags : ℕ → Vip → Vip
set_vip_flags flags v = record v { vip_flags = bit_or v.vip_flags flags }

unfoldable pub clear_vip_flags : Vip → Vip
clear_vip_flags v = record v { vip_flags = 0 }

-- `~flags` on uint32_t.
unfoldable pub unset_vip_flags : ℕ → Vip → Vip
unset_vip_flags flags v = record v { vip_flags = bit_and v.vip_flags (bit_xor flags (2 ^ 32 - 1)) }

-- `reals_[num]` where the key is missing: a value-initialised entry.
abbrev pub zero_meta : VipRealMeta
zero_meta = record { weight = 0; hash = 0 }

abbrev pub meta_of : Option VipRealMeta → VipRealMeta
meta_of none = zero_meta
meta_of (some m) = m

-- The body of the first loop of getEndpoints; the flag is `reals_changed`.
unfoldable pub update_by : ModifyAction → Endpoint → RealMap × Bool → RealMap × Bool
update_by del real (rs, changed) = (erase number_key rs real.num, true)
update_by add real (rs, changed) =
    let cur = meta_of (find number_key rs real.num) in
    if cur.weight == real.weight
    then (write number_key rs real.num cur, changed)
    else (write number_key rs real.num (record { weight = real.weight; hash = real.hash }), true)

abbrev pub update_real : UpdateReal → RealMap × Bool → RealMap × Bool
update_real u s = update_by u.action u.updated_real s

unfoldable pub update_reals : List UpdateReal → RealMap × Bool → RealMap × Bool
update_reals [] s = s
update_reals (u ∷ us) s = update_reals us (update_real u s)

-- The second loop of getEndpoints.
unfoldable pub weighted : RealMap → List Endpoint
weighted [] = []
weighted ((n, m) ∷ rs) =
    let rest = weighted rs in
    if m.weight == 0 then rest else record { num = n; weight = m.weight; hash = m.hash } ∷ rest

abbrev pub compare_endpoints : Endpoint → Endpoint → Bool
compare_endpoints a b = ltb a.hash b.hash

unfoldable pub insert_endpoint : Endpoint → List Endpoint → List Endpoint
insert_endpoint e [] = e ∷ []
insert_endpoint e (d ∷ ds) =
    let rest = insert_endpoint e ds in if compare_endpoints d e then d ∷ rest else e ∷ d ∷ ds

-- std::sort with compareEndpoints, which leaves the order of equal hashes open; here it is this one.
unfoldable pub sort_endpoints : List Endpoint → List Endpoint
sort_endpoints [] = []
sort_endpoints (e ∷ es) = insert_endpoint e (sort_endpoints es)

unfoldable pub get_endpoints : List UpdateReal → RealMap → RealMap × List Endpoint
get_endpoints us reals =
    let (rs, changed) = update_reals us (reals, false) in
    (rs, if changed then sort_endpoints (weighted rs) else [])

-- The loop that compares the rings, with `n` turns left from position `i` on.
unfoldable pub compare_rings : ℕ → ℕ → Ring → Ring → Ring × List RealPos
compare_rings zero i new ring = (ring, [])
compare_rings (suc n) i new ring = elim (new i == ring i) [
  | true ↦ compare_rings n (suc i) new ring
  | false ↦
      let (r, delta) = compare_rings n (suc i) new (put ring i (new i)) in
      (r, record { real = new i; pos = i } ∷ delta)
]

module _ (murmur : ℕ → ℕ → ℕ → ℕ) where
  -- The branch on `endpoints.size()`; `none` where GenerateMaglevHash does not return.
  unfoldable pub rebuild : List Endpoint → Vip → Option (Vip × List RealPos)
  rebuild [] v = some (v, [])
  rebuild (e ∷ es) v = do
    new ← generate_maglev_hash murmur v.ch_ring_size (e ∷ es)
    let (ring, delta) = compare_rings v.ch_ring_size 0 new v.ch_ring
    some (record v { ch_ring = ring }, delta)

  unfoldable pub batch_reals_update : List UpdateReal → Vip → Option (Vip × List RealPos)
  batch_reals_update us v =
      let (rs, endpoints) = get_endpoints us v.reals in rebuild endpoints (record v { reals = rs })

  unfoldable pub add_real : Endpoint → Vip → Option (Vip × List RealPos)
  add_real real = batch_reals_update (record { action = add; updated_real = real } ∷ [])

  -- The weight and the hash of the update are not read.
  unfoldable pub del_real : ℕ → Vip → Option (Vip × List RealPos)
  del_real real_num =
      batch_reals_update (
        record { action = del; updated_real = record { num = real_num; weight = 0; hash = 0 } }
        ∷ [])

unfoldable pub get_reals : RealMap → List ℕ
get_reals [] = []
get_reals ((n, m) ∷ rs) = n ∷ get_reals rs

unfoldable pub get_reals_and_weight : RealMap → List Endpoint
get_reals_and_weight [] = []
get_reals_and_weight ((n, m) ∷ rs) =
    record { num = n; weight = m.weight; hash = m.hash } ∷ get_reals_and_weight rs
