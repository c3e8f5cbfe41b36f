-- ===== src/Tests/Control.antt =====
-- A control plane with two reals behind one VIP (katran/lib/KatranLb.cpp), and the witnesses of the
-- theorems on it.
use katran.Base.{
  ℕ, ◌+◌, ◌*◌, ◌^◌, ◌≤◌, ◌≡◌, refl, Bool, true, false, inr, Option, none, some, List, [], ◌∷◌, ltb,
  one_if, arith,
}
use katran.Base.{number_key, find, erase, write, count, total}
use katran.Maglev.{
  slot, seek, place, turns, round, rounds, gen_maglev_permutation, gen_permutations,
  generate_maglev_hash,
}
use katran.Vip.{
  Vip, new_vip, add, del, get_reals, update_by, update_reals, weighted, insert_endpoint,
  sort_endpoints, get_endpoints, compare_rings, rebuild, batch_reals_update,
}
use katran.Lb.{
  Lb, Env, Features, IpAddress, ipv4, RealMeta, VipKey, NewReal, Text, parse_addr_to_be,
}
use katran.Lb.Keys.{ip_key, vip_key}
use katran.Lb.Reals.{
  bpf, validate_address, update_reals_map, take_num, increase_ref_count_for_real,
  decrease_ref_count_for_real,
}
use katran.Lb.Vips.{
  vip_definition, put_vip_map, emplace_vip, new_vip_num, add_vip, add_by, delete_by, modify_one,
  modify_each, update_rings, install, modify_reals, modify_reals_for_vip,
}
use katran.Lb.Sources.{size}
use katran.Lb.Claims.{claims, quic_claims}
use katran.Lb.Table.{used}
use katran.Lb.Run.{
  numbers_below, new_lb, adds_vip, adds_reals, step, cost, orderly, Reached, start, after_call,
}
use katran.Lb.Safety.{referenced_in_use, numbers_complete}
use katran.Lb.Table.Agree.{gives_address, has_number}
use katran.Lb.Rings.{rings, ring_map, ring_position, Holds, modify_reals_for_vip-Holds}
use katran.Tests.Rings.{toy_murmur}

abbrev toy_parse : Text → Option IpAddress
toy_parse [] = none
toy_parse (c ∷ cs) = some (ipv4 c)

abbrev pub toy_env : Env
toy_env = record {
  config = record {
    disable_forwarding = false;
    testing = false;
    enable_hc = true;
    max_vips = 2;
    max_reals = 3;
    ch_ring_size = 5;
    max_lpm_src_size = 10;
    max_decap_dst = 6;
  };
  parse = toy_parse;
  try_create_network = λ t. none;
  ip_hash = λ a. 4;
  murmur = toy_murmur;
  succeeds = λ cs c. true;
}

abbrev pub web : VipKey
web = record { address = 9 ∷ []; port = 80; proto = 6 }

abbrev pub features : Features
features = record { src_routing = true; inline_decap = true; direct_healthchecking = false }

abbrev real_at : ℕ → ℕ → NewReal
real_at c w = record { address = c ∷ []; weight = w }

abbrev two_reals : List NewReal
two_reals = real_at 50 1 ∷ real_at 60 2 ∷ []

abbrev pub fresh : Lb
fresh = new_lb toy_env [] features

abbrev with_vip : Lb
with_vip = (add_vip toy_env web 0 fresh).0

abbrev state_of : Option (Lb × Bool) → Lb
state_of none = fresh
state_of (some r) = r.0

abbrev pub with_reals : Lb
with_reals = state_of (modify_reals_for_vip toy_env add two_reals web with_vip)

abbrev without_one : Lb
without_one = state_of (modify_reals_for_vip toy_env del (real_at 50 0 ∷ []) web with_reals)

with_vip_numbers : with_vip.vip_nums ≡ 1 ∷ []
unfolding add_vip validate_address new_vip_num emplace_vip put_vip_map bpf new_lb numbers_below find
with_vip_numbers = refl

with_reals_numbers : with_reals.real_nums ≡ 2 ∷ []
unfolding add_vip validate_address new_vip_num emplace_vip put_vip_map bpf new_lb numbers_below find
    write new_vip vip_definition modify_reals_for_vip modify_reals modify_each modify_one add_by
    increase_ref_count_for_real take_num update_reals_map parse_addr_to_be get_reals
    batch_reals_update get_endpoints update_reals update_by weighted insert_endpoint sort_endpoints
    rebuild compare_rings generate_maglev_hash gen_permutations gen_maglev_permutation rounds round
    turns place seek slot install update_rings
with_reals_numbers = refl

pub with_reals-Reached : Reached toy_env 2 with_reals
unfolding add_vip validate_address new_vip_num emplace_vip put_vip_map bpf new_lb numbers_below find
    write new_vip vip_definition modify_reals_for_vip modify_reals modify_each modify_one add_by
    increase_ref_count_for_real take_num update_reals_map parse_addr_to_be get_reals
    batch_reals_update get_endpoints update_reals update_by weighted insert_endpoint sort_endpoints
    rebuild compare_rings generate_maglev_hash gen_permutations gen_maglev_permutation rounds round
    turns place seek slot install update_rings step cost orderly size
with_reals-Reached =
    after_call (adds_reals two_reals web)
      (after_call (adds_vip web 0) (start [] features) refl refl) refl refl

pub with_reals-claims : 1 ≤ claims with_reals 0
unfolding add_vip validate_address new_vip_num emplace_vip put_vip_map bpf new_lb numbers_below find
    write new_vip vip_definition modify_reals_for_vip modify_reals modify_each modify_one add_by
    increase_ref_count_for_real take_num update_reals_map parse_addr_to_be get_reals
    batch_reals_update get_endpoints update_reals update_by weighted insert_endpoint sort_endpoints
    rebuild compare_rings generate_maglev_hash gen_permutations gen_maglev_permutation rounds round
    turns place seek slot install update_rings total count
with_reals-claims = omega arith

pub with_reals-number : find number_key with_reals.num_to_reals 0 ≡ some (ipv4 50)
unfolding add_vip validate_address new_vip_num emplace_vip put_vip_map bpf new_lb numbers_below find
    write new_vip vip_definition modify_reals_for_vip modify_reals modify_each modify_one add_by
    increase_ref_count_for_real take_num update_reals_map parse_addr_to_be get_reals
    batch_reals_update get_endpoints update_reals update_by weighted insert_endpoint sort_endpoints
    rebuild compare_rings generate_maglev_hash gen_permutations gen_maglev_permutation rounds round
    turns place seek slot install update_rings
with_reals-number = refl

referenced_in_use_example :
    (a : IpAddress) × ((m : RealMeta) × ((find number_key with_reals.num_to_reals 0 ≡ some a)
        × ((find ip_key with_reals.reals a ≡ some m)
            × ((m.num ≡ 0)
                × ((claims with_reals 0 + quic_claims with_reals a ≤ m.ref_count)
                    × (count with_reals.real_nums 0 ≡ 0))))))
referenced_in_use_example =
    referenced_in_use toy_env 2 with_reals 0 with_reals-Reached (omega arith) with_reals-claims

numbers_complete_example :
    (count with_reals.real_nums 0 + used (find number_key with_reals.num_to_reals 0)
      ≡ one_if (ltb 0 3))
    × (gives_address (find number_key with_reals.num_to_reals 0) (ipv4 50)
        ≡ has_number (find ip_key with_reals.reals (ipv4 50)) 0)
numbers_complete_example =
    numbers_complete toy_env 2 with_reals 0 (ipv4 50) with_reals-Reached (omega arith)

abbrev vip_of : Option Vip → Vip
vip_of none = new_vip 0 0 5
vip_of (some v) = v

abbrev web_before : Vip
web_before = vip_of (find vip_key with_reals.vips web)

web_before-find : find vip_key with_reals.vips web ≡ some web_before
unfolding add_vip validate_address new_vip_num emplace_vip put_vip_map bpf new_lb numbers_below find
    write new_vip vip_definition modify_reals_for_vip modify_reals modify_each modify_one add_by
    increase_ref_count_for_real take_num update_reals_map parse_addr_to_be get_reals
    batch_reals_update get_endpoints update_reals update_by weighted insert_endpoint sort_endpoints
    rebuild compare_rings generate_maglev_hash gen_permutations gen_maglev_permutation rounds round
    turns place seek slot install update_rings
web_before-find = refl

web_before-fits :
    (web_before.ch_ring_size ≡ 5)
    × ((web_before.vip_num * 5 + 5 ≤ 2 ^ 32)
        × (rings toy_env with_reals (ring_position toy_env web_before.vip_num 2)
            ≡ web_before.ch_ring 2))
unfolding add_vip validate_address new_vip_num emplace_vip put_vip_map bpf new_lb numbers_below find
    write new_vip vip_definition modify_reals_for_vip modify_reals modify_each modify_one add_by
    increase_ref_count_for_real take_num update_reals_map parse_addr_to_be get_reals
    batch_reals_update get_endpoints update_reals update_by weighted insert_endpoint sort_endpoints
    rebuild compare_rings generate_maglev_hash gen_permutations gen_maglev_permutation rounds round
    turns place seek slot install update_rings ring_map
web_before-fits = (refl, (omega arith, refl))

abbrev last_result : Lb × Bool
last_result = (without_one, true)

deletion-returns :
    modify_reals_for_vip toy_env del (real_at 50 0 ∷ []) web with_reals ≡ some last_result
unfolding add_vip validate_address new_vip_num emplace_vip put_vip_map bpf new_lb numbers_below find
    write new_vip vip_definition modify_reals_for_vip modify_reals modify_each modify_one add_by
    increase_ref_count_for_real take_num update_reals_map parse_addr_to_be get_reals
    batch_reals_update get_endpoints update_reals update_by weighted insert_endpoint sort_endpoints
    rebuild compare_rings generate_maglev_hash gen_permutations gen_maglev_permutation rounds round
    turns place seek slot install update_rings delete_by decrease_ref_count_for_real erase
deletion-returns = refl

modify_reals_for_vip-Holds_example :
    (w : Vip) × ((find vip_key without_one.vips web ≡ some w)
      × ((w.vip_num ≡ web_before.vip_num) × Holds toy_env (λ cs c. refl) without_one w 2))
modify_reals_for_vip-Holds_example =
    modify_reals_for_vip-Holds toy_env (λ cs c. refl) del (real_at 50 0 ∷ []) web web_before
      with_reals last_result 2 refl refl web_before-find web_before-fits.0 web_before-fits.1.0
      (omega arith) (inr web_before-fits.1.1) deletion-returns
