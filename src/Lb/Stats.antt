-- ===== src/Lb/Stats.antt =====
-- katran/lib/KatranLb.cpp: the getters of statistics and of what is kept. The elements that a
-- lookup copies out of a per-CPU map, one for each CPU, are a parameter.
pub mod Sums
use katran.Base.{
  ℕ, ◌+◌, Bool, true, false, if◌then◌else◌, Option, none, some, List, [], ◌∷◌, u32, u64, find,
  write,
}
use katran.Structs.{LbStats}
use katran.Vip.{Vip}
use katran.Lb.{Lb, Env, IpAddress, Network, Text, VipKey, QuicReal}
use katran.Lb.Keys.{network_key, vip_key}
use katran.Lb.Reals.{count_failed, address_of}
use katran.Lb.Sources.{size, no_src_routing}

abbrev pub k_lru_cntr_offset : ℕ
k_lru_cntr_offset = 0

abbrev pub k_lru_miss_offset : ℕ
k_lru_miss_offset = 1

abbrev pub k_lru_fallback_offset : ℕ
k_lru_fallback_offset = 3

abbrev pub k_icmp_too_big_offset : ℕ
k_icmp_too_big_offset = 4

abbrev pub k_lpm_src_offset : ℕ
k_lpm_src_offset = 5

abbrev pub k_inline_decap_offset : ℕ
k_inline_decap_offset = 6

abbrev pub k_quic_routing_offset : ℕ
k_quic_routing_offset = 7

abbrev pub k_default_stats_index : ℕ
k_default_stats_index = 0

-- "stats" and "reals_stats"
pub data StatsMap : Type 0 where
  stats reals_stats : StatsMap

pub record HealthCheckProgStats : Type 0 where
  pub packets_processed : ℕ
  pub packets_dropped : ℕ
  pub packets_skipped : ℕ
  pub packets_too_big : ℕ

abbrev pub no_stats : LbStats
no_stats = record { v1 = 0; v2 = 0 }

abbrev pub no_hc_stats : HealthCheckProgStats
no_hc_stats = record {
  packets_processed = 0;
  packets_dropped = 0;
  packets_skipped = 0;
  packets_too_big = 0;
}

-- The loop of getLbStats over the CPUs.
unfoldable pub sum_stats : List LbStats → LbStats → LbStats
sum_stats [] sum_stat = sum_stat
sum_stats (stat ∷ per_cpu) sum_stat =
    sum_stats per_cpu
      (record { v1 = u64 (sum_stat.v1 + stat.v1); v2 = u64 (sum_stat.v2 + stat.v2) })

-- The loop of getStatsForHealthCheckProgram.
unfoldable pub sum_hc_stats :
    List HealthCheckProgStats → HealthCheckProgStats → HealthCheckProgStats
sum_hc_stats [] t = t
sum_hc_stats (stat ∷ per_cpu) t = sum_hc_stats per_cpu (record {
  packets_processed = u64 (t.packets_processed + stat.packets_processed);
  packets_dropped = u64 (t.packets_dropped + stat.packets_dropped);
  packets_skipped = u64 (t.packets_skipped + stat.packets_skipped);
  packets_too_big = u64 (t.packets_too_big + stat.packets_too_big);
})

-- A lookup that fails is counted.
unfoldable pub summed : Option (List LbStats) → Lb → Lb × LbStats
summed none s = (count_failed s, no_stats)
summed (some per_cpu) s = (s, sum_stats per_cpu no_stats)

unfoldable pub summed_hc : Option (List HealthCheckProgStats) → Lb → Lb × HealthCheckProgStats
summed_hc none s = (count_failed s, no_hc_stats)
summed_hc (some per_cpu) s = (s, sum_hc_stats per_cpu no_hc_stats)

abbrev pub keys_of : {K V : Type 0} → List (K × V) → List K
keys_of [] = []
keys_of ((k, v) ∷ m) = k ∷ keys_of m

module _ (env : Env) where
  module _ (lookup : StatsMap → ℕ → Option (List LbStats)) where
    unfoldable pub get_lb_stats : ℕ → StatsMap → Lb → Lb × LbStats
    get_lb_stats position map s =
        if env.config.disable_forwarding
        then (s, no_stats)
        else if env.config.testing
        then (s, no_stats)
        else summed (lookup map position) s

    -- getStatsForVip, by what is found.
    unfoldable pub stats_found : Option Vip → Lb → Lb × LbStats
    stats_found none s = (s, no_stats)
    stats_found (some v) s = get_lb_stats v.vip_num stats s

    unfoldable pub get_stats_for_vip : VipKey → Lb → Lb × LbStats
    get_stats_for_vip vip s = stats_found (find vip_key s.vips vip) s

    abbrev pub get_own_stats : ℕ → Lb → Lb × LbStats
    get_own_stats offset = get_lb_stats (u32 (env.config.max_vips + offset)) stats

    unfoldable pub get_lru_stats : Lb → Lb × LbStats
    get_lru_stats = get_own_stats k_lru_cntr_offset

    unfoldable pub get_lru_miss_stats : Lb → Lb × LbStats
    get_lru_miss_stats = get_own_stats k_lru_miss_offset

    unfoldable pub get_lru_fallback_stats : Lb → Lb × LbStats
    get_lru_fallback_stats = get_own_stats k_lru_fallback_offset

    unfoldable pub get_icmp_too_big_stats : Lb → Lb × LbStats
    get_icmp_too_big_stats = get_own_stats k_icmp_too_big_offset

    unfoldable pub get_quic_routing_stats : Lb → Lb × LbStats
    get_quic_routing_stats = get_own_stats k_quic_routing_offset

    unfoldable pub get_src_routing_stats : Lb → Lb × LbStats
    get_src_routing_stats = get_own_stats k_lpm_src_offset

    unfoldable pub get_inline_decap_stats : Lb → Lb × LbStats
    get_inline_decap_stats = get_own_stats k_inline_decap_offset

    unfoldable pub get_real_stats : ℕ → Lb → Lb × LbStats
    get_real_stats index = get_lb_stats index reals_stats

  -- The lookup in hc_stats_map.
  unfoldable pub get_stats_for_health_check_program :
      (ℕ → Option (List HealthCheckProgStats)) → Lb → Lb × HealthCheckProgStats
  get_stats_for_health_check_program lookup s =
      if env.config.testing then (s, no_hc_stats) else summed_hc (lookup k_default_stats_index) s

  unfoldable pub get_all_vips : Lb → List VipKey
  get_all_vips s = if env.config.disable_forwarding then [] else keys_of s.vips

  -- The loop of getSrcRoutingRuleCidr, and str().
  module _ (str : IpAddress → Text) where
    unfoldable pub rule_texts :
        List (Network × ℕ) → List (Network × Text) → Lb → Lb × List (Network × Text)
    rule_texts [] src_mapping s = (s, src_mapping)
    rule_texts ((src, num) ∷ rules) src_mapping s =
        let (t, real) = address_of num s in
        rule_texts rules (write network_key src_mapping src (str real)) t

    unfoldable pub get_src_routing_rule_cidr : Lb → Lb × List (Network × Text)
    get_src_routing_rule_cidr s =
        if env.config.disable_forwarding
        then (s, [])
        else if no_src_routing env s
        then (s, [])
        else rule_texts s.lpm_src_mapping [] s

    unfoldable pub quic_reals : List (IpAddress × ℕ) → List QuicReal
    quic_reals [] = []
    quic_reals ((a, id) ∷ m) = record { address = str a; id = id } ∷ quic_reals m

    unfoldable pub get_quic_reals_mapping : Lb → List QuicReal
    get_quic_reals_mapping s =
        if env.config.disable_forwarding then [] else quic_reals s.quic_mapping

    unfoldable pub texts : List IpAddress → List Text
    texts [] = []
    texts (a ∷ l) = str a ∷ texts l

    unfoldable pub get_inline_decap_dst : Lb → List Text
    get_inline_decap_dst s =
        if env.config.disable_forwarding then [] else texts (keys_of s.decap_dsts)

abbrev pub get_src_routing_rule_size : Lb → ℕ
get_src_routing_rule_size s = size s.lpm_src_mapping

abbrev pub get_mac : Lb → List ℕ
get_mac s = s.mac
