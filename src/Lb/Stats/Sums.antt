-- ===== src/Lb/Stats/Sums.antt =====
-- The counters of the program (katran/lib/bpf/balancer_kern.c) as the getters of
-- katran/lib/KatranLb.cpp report them.
use katran.Base.{
  ℕ, ◌+◌, ◌%◌, ◌^◌, ◌≡◌, refl, ap, ◌∙◌, false, Option, some, List, [], ◌∷◌, u64, u32, arith,
}
use katran.Consts.{
  max_vips, lru_cntrs, lru_miss_cntr, fallback_lru_cntr, icmp_toobig_cntrs, lpm_src_cntrs,
  remote_encap_cntrs, quic_route_stats,
}
use katran.Structs.{LbStats}
use katran.Kern.Stats.{own}
use katran.Lb.{Lb, Env}
use katran.Lb.Stats.{
  StatsMap, stats, no_stats, sum_stats, summed, get_lb_stats, get_lru_stats, get_lru_miss_stats,
  get_lru_fallback_stats, get_icmp_too_big_stats, get_src_routing_stats, get_inline_decap_stats,
  get_quic_routing_stats,
}

-- The sums over the CPUs, without a bound.
unfoldable pub sum_v1 : List LbStats → ℕ
sum_v1 [] = 0
sum_v1 (d ∷ l) = d.v1 + sum_v1 l

unfoldable pub sum_v2 : List LbStats → ℕ
sum_v2 [] = 0
sum_v2 (d ∷ l) = d.v2 + sum_v2 l

abbrev pub sums : List LbStats → LbStats
sums l = record { v1 = sum_v1 l % 2 ^ 64; v2 = sum_v2 l % 2 ^ 64 }

sum_stats-v1 :
    (l : List LbStats) (acc : LbStats)
    → acc.v1 ≡ acc.v1 % 2 ^ 64
    → (sum_stats l acc).v1 ≡ (acc.v1 + sum_v1 l) % 2 ^ 64
unfolding sum_stats sum_v1
sum_stats-v1 [] acc h = omega (arith, h)
sum_stats-v1 (d ∷ l) acc h =
    let e =
      sum_stats-v1 l (record { v1 = u64 (acc.v1 + d.v1); v2 = u64 (acc.v2 + d.v2) })
        (omega arith) in
    omega (arith, e)

sum_stats-v2 :
    (l : List LbStats) (acc : LbStats)
    → acc.v2 ≡ acc.v2 % 2 ^ 64
    → (sum_stats l acc).v2 ≡ (acc.v2 + sum_v2 l) % 2 ^ 64
unfolding sum_stats sum_v2
sum_stats-v2 [] acc h = omega (arith, h)
sum_stats-v2 (d ∷ l) acc h =
    let e =
      sum_stats-v2 l (record { v1 = u64 (acc.v1 + d.v1); v2 = u64 (acc.v2 + d.v2) })
        (omega arith) in
    omega (arith, e)

sum_stats-sums : (l : List LbStats) → sum_stats l no_stats ≡ sums l
sum_stats-sums l =
    let a : (sum_stats l no_stats).v1 ≡ sum_v1 l % 2 ^ 64 =
      let e = sum_stats-v1 l no_stats (omega arith) in omega (arith, e) in
    let b : (sum_stats l no_stats).v2 ≡ sum_v2 l % 2 ^ 64 =
      let e = sum_stats-v2 l no_stats (omega arith) in omega (arith, e) in
    λ i. record { v1 = a i; v2 = b i }

module _ (env : Env) (lookup : StatsMap → ℕ → Option (List LbStats)) (s : Lb)
    (forwarding : env.config.disable_forwarding ≡ false) (live : env.config.testing ≡ false)
    (vips : env.config.max_vips ≡ max_vips) where
  reads_own :
      (cntr : ℕ) (l : List LbStats)
      → u32 (max_vips + cntr) ≡ own cntr
      → lookup stats (own cntr) ≡ some l
      → get_lb_stats env lookup (u32 (env.config.max_vips + cntr)) stats s ≡ (s, sums l)
  unfolding get_lb_stats summed
  reads_own cntr l p e =
      let q : lookup stats (u32 (env.config.max_vips + cntr)) ≡ some l =
        ap (λ n. lookup stats (u32 (n + cntr))) vips ∙ ap (lookup stats) p ∙ e in
      grind (arith, forwarding, live, q, sum_stats-sums l)

  -- When maxVips is the MAX_VIPS of the program, each getter leaves the state and gives the sums
  -- over the CPUs, modulo 2 ^ 64, of the counters that the program keeps under the key of the same
  -- name.
  pub own_counters :
      (lru miss fallback toobig src decap quic : List LbStats)
      → lookup stats (own lru_cntrs) ≡ some lru
      → lookup stats (own lru_miss_cntr) ≡ some miss
      → lookup stats (own fallback_lru_cntr) ≡ some fallback
      → lookup stats (own icmp_toobig_cntrs) ≡ some toobig
      → lookup stats (own lpm_src_cntrs) ≡ some src
      → lookup stats (own remote_encap_cntrs) ≡ some decap
      → lookup stats (own quic_route_stats) ≡ some quic
      → (get_lru_stats env lookup s ≡ (s, sums lru))
        × ((get_lru_miss_stats env lookup s ≡ (s, sums miss))
            × ((get_lru_fallback_stats env lookup s ≡ (s, sums fallback))
                × ((get_icmp_too_big_stats env lookup s ≡ (s, sums toobig))
                    × ((get_src_routing_stats env lookup s ≡ (s, sums src))
                        × ((get_inline_decap_stats env lookup s ≡ (s, sums decap))
                            × (get_quic_routing_stats env lookup s ≡ (s, sums quic)))))))
  unfolding get_lru_stats get_lru_miss_stats get_lru_fallback_stats get_icmp_too_big_stats
      get_src_routing_stats get_inline_decap_stats get_quic_routing_stats
  own_counters lru miss fallback toobig src decap quic a b c d e f g = (
    reads_own lru_cntrs lru refl a,
    (
      reads_own lru_miss_cntr miss refl b,
      (
        reads_own fallback_lru_cntr fallback refl c,
        (
          reads_own icmp_toobig_cntrs toobig refl d,
          (
            reads_own lpm_src_cntrs src refl e,
            (reads_own remote_encap_cntrs decap refl f, reads_own quic_route_stats quic refl g),
          ),
        ),
      ),
    ),
  )
