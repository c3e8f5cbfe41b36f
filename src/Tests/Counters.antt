-- ===== src/Tests/Counters.antt =====
-- A witness for the getters of counters.
use katran.Base.{◌-◌, ◌^◌, ◌≡◌, refl, some, List, [], ◌∷◌}
use katran.Structs.{LbStats}
use katran.Lb.{Env}
use katran.Lb.Stats.{
  get_lru_stats, get_lru_miss_stats, get_lru_fallback_stats, get_icmp_too_big_stats,
  get_src_routing_stats, get_inline_decap_stats, get_quic_routing_stats,
}
use katran.Lb.Stats.Sums.{sums, own_counters}
use katran.Tests.Control.{toy_env, fresh}

abbrev wide_env : Env
wide_env = record toy_env { config = record toy_env.config { max_vips = 512 } }

-- Two CPUs, the sum of whose first counters wraps.
abbrev two_cpus : List LbStats
two_cpus = record { v1 = 2 ^ 64 - 1; v2 = 3 } ∷ record { v1 = 5; v2 = 4 } ∷ []

own_counters_example :
    (get_lru_stats wide_env (λ m k. some two_cpus) fresh ≡ (fresh, sums two_cpus))
    × ((get_lru_miss_stats wide_env (λ m k. some two_cpus) fresh ≡ (fresh, sums two_cpus))
        × ((get_lru_fallback_stats wide_env (λ m k. some two_cpus) fresh ≡ (fresh, sums two_cpus))
            × ((get_icmp_too_big_stats wide_env (λ m k. some two_cpus) fresh
                  ≡ (fresh, sums two_cpus))
                × ((get_src_routing_stats wide_env (λ m k. some two_cpus) fresh
                      ≡ (fresh, sums two_cpus))
                    × ((get_inline_decap_stats wide_env (λ m k. some two_cpus) fresh
                          ≡ (fresh, sums two_cpus))
                        × (get_quic_routing_stats wide_env (λ m k. some two_cpus) fresh
                            ≡ (fresh, sums two_cpus)))))))
own_counters_example =
    own_counters wide_env (λ m k. some two_cpus) fresh refl refl refl two_cpus two_cpus two_cpus
      two_cpus two_cpus two_cpus two_cpus refl refl refl refl refl refl refl
