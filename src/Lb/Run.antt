-- ===== src/Lb/Run.antt =====
-- A control plane from its constructor on (katran/lib/KatranLb.cpp): the calls that change it, and
-- the states that a sequence of calls reaches.
use katran.Base.{ℕ, zero, suc, ◌+◌, ◌≡◌, Bool, true, Option, some, ◌>>=◌, List, [], ◌∷◌, ◌++◌}
use katran.Vip.{ModifyAction, add, del}
use katran.Lb.{Lb, Env, Text, VipKey, NewReal, QuicReal, Features}
use katran.Lb.Vips.{
  add_vip, del_vip, modify_vip, modify_reals_for_vip, add_real_for_vip, del_real_for_vip,
  get_reals_for_vip, get_index_for_real,
}
use katran.Lb.Sources.{
  size, add_src_routing_rule, del_src_routing_rule, clear_all_src_routing_rules,
}
use katran.Lb.Quic.{modify_quic_reals_mapping}
use katran.Lb.Deletes.{distinct, addresses}
use katran.Lb.Dsts.{
  add_inline_decap_dst, del_inline_decap_dst, add_healthchecker_dst, del_healthchecker_dst,
  change_mac,
}

-- 0, 1, ... below `n`.
unfoldable pub numbers_below : ℕ → List ℕ
numbers_below zero = []
numbers_below (suc n) = numbers_below n ++ (n ∷ [])

-- The constructor, once `defaultMac` is stored and the features are known.
unfoldable pub new_lb : Env → List ℕ → Features → Lb
new_lb env mac features = record {
  vips = [];
  vip_nums = numbers_below env.config.max_vips;
  reals = [];
  num_to_reals = [];
  real_nums = numbers_below env.config.max_reals;
  quic_mapping = [];
  lpm_src_mapping = [];
  decap_dsts = [];
  hc_reals = [];
  mac = mac;
  features = features;
  lb_stats = record { bpf_failed_calls = 0; addr_validation_failed = 0 };
  calls = [];
}

pub data Call : Type 0 where
  adds_vip : VipKey → ℕ → Call
  deletes_vip : VipKey → Call
  modifies_vip : VipKey → ℕ → Bool → Call
  adds_reals : List NewReal → VipKey → Call
  deletes_reals : List NewReal → VipKey → Call
  adds_real : NewReal → VipKey → Call
  deletes_real : NewReal → VipKey → Call
  gets_reals : VipKey → Call
  gets_index : Text → Call
  adds_rules : List Text → Text → Call
  deletes_rules : List Text → Call
  clears_rules : Call
  modifies_quic : ModifyAction → List QuicReal → Call
  adds_decap : Text → Call
  deletes_decap : Text → Call
  adds_healthcheck : ℕ → Text → Call
  deletes_healthcheck : ℕ → Call
  changes_mac : List ℕ → Call

-- The state after a call; `none` where it does not return or throws.
unfoldable pub step : Env → Call → Lb → Option Lb
step env (adds_vip vip flags) s = some (add_vip env vip flags s).0
step env (deletes_vip vip) s = some (del_vip env vip s).0
step env (modifies_vip vip flag set) s = some (modify_vip env vip flag set s).0
step env (adds_reals reals vip) s = do r ← modify_reals_for_vip env add reals vip s; some r.0
step env (deletes_reals reals vip) s = do r ← modify_reals_for_vip env del reals vip s; some r.0
step env (adds_real real vip) s = do r ← add_real_for_vip env real vip s; some r.0
step env (deletes_real real vip) s = do r ← del_real_for_vip env real vip s; some r.0
step env (gets_reals vip) s = do r ← get_reals_for_vip env vip s; some r.0
step env (gets_index real) s = some (get_index_for_real env real s).0
step env (adds_rules srcs dst) s = some (add_src_routing_rule env srcs dst s).0
step env (deletes_rules srcs) s = some (del_src_routing_rule env srcs s).0
step env clears_rules s = some (clear_all_src_routing_rules env s).0
step env (modifies_quic action reals) s = some (modify_quic_reals_mapping env action reals s)
step env (adds_decap dst) s = some (add_inline_decap_dst env dst s).0
step env (deletes_decap dst) s = some (del_inline_decap_dst env dst s).0
step env (adds_healthcheck somark dst) s = some (add_healthchecker_dst env somark dst s).0
step env (deletes_healthcheck somark) s = some (del_healthchecker_dst env somark s).0
step env (changes_mac mac) s = some (change_mac env mac s).0

-- How many references a call can add.
unfoldable pub cost : Call → ℕ
cost (adds_reals reals vip) = size reals
cost (adds_real real vip) = 1
cost (adds_rules srcs dst) = size srcs
cost (modifies_quic action reals) = size reals
cost _ = 0

-- A batch of deletions that names no address twice.
unfoldable pub orderly : Env → Call → Bool
orderly env (deletes_reals reals vip) = distinct (addresses env reals)
orderly env _ = true

-- The states that orderly calls reach, with how many references they can have added.
pub data Reached (env : Env) : ℕ → Lb → Type 0 where
  start : (mac : List ℕ) (features : Features) → Reached env 0 (new_lb env mac features)
  after_call :
      {n : ℕ} {s t : Lb} (c : Call)
      → Reached env n s
      → orderly env c ≡ true
      → step env c s ≡ some t
      → Reached env (n + cost c) t
