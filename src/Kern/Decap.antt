-- ===== src/Kern/Decap.antt =====
-- katran/lib/bpf/balancer_kern.c: packets that come already encapsulated.
use katran.Base.{ℕ, ◌+◌, Bool, true, false, not, Option, none, some, if◌then◌else◌, ◌==◌, bit_and}
use katran.Consts.{guev1_ipv6mask, ipproto_ipip, ipproto_ipv6, remote_encap_cntrs}
use katran.Xdp.Layout.{eth_hdr_size, iphdr_size, ipv6hdr_size, udphdr_size}
use katran.Run.{
  Action, drop, pass, Prog, fault, pure, gets, return_if, return_action, ◌>>=◌, ◌>>◌, beyond, load8,
}
use katran.Kernel.{Kernel}
use katran.Helpers.{decrement_ttl, recirculate}
use katran.Encap.{decap_v6, decap_v4, gue_decap_v6, gue_decap_v4}
use katran.Kern.Stats.{add_counts, on_stats, need_stats, own}

-- The value of `*pass`, which is true before the call.
unfoldable pub check_decap_dst : Bool → Prog Bool
check_decap_dst is_ipv6 = do
  dst ← gets (λ s. s.pckt.flow.dst)
  decap_dst_flags ← gets (λ s.
      s.maps.decap_dst (if is_ipv6 then dst else record { w0 = dst.w0; w1 = 0; w2 = 0; w3 = 0 }))
  elim decap_dst_flags [
    | none ↦ pure true
    | some _ ↦ do
      need_stats (own remote_encap_cntrs)
      on_stats (own remote_encap_cntrs) (add_counts 1 0)
      pure false
  ]

-- `action = decrement_ttl(…); if (!decap(…)) return XDP_DROP;`
unfoldable pub ttl_and_decap : ℕ → Bool → Prog Bool → Prog (Option Action)
ttl_and_decap offset inner_v6 decap = do
  action ← decrement_ttl offset inner_v6
  ok ← decap
  return_if (not ok) drop
  pure action

-- `if (action >= 0) return action;`, then the inner packet goes on.
unfoldable pub after_decap : Kernel → Option Action → Bool → Prog Action
after_decap k action pass_up = do return_action action; if pass_up then pure pass else recirculate k

module _ (k : Kernel) where
  -- For another protocol the source would read `action` before it is set.
  unfoldable pub process_encaped_ipip_pckt : Bool → ℕ → Bool → Prog Action
  unfolding ttl_and_decap after_decap
  process_encaped_ipip_pckt is_ipv6 protocol pass_up = do
    let offset_v6 = ipv6hdr_size + eth_hdr_size
    let offset_v4 = iphdr_size + eth_hdr_size
    v6_short ← gets (beyond offset_v6)
    v4_short ← gets (beyond offset_v4)
    action ←
        if protocol == ipproto_ipip
        then (if is_ipv6
            then (return_if v6_short drop >> ttl_and_decap offset_v6 false (decap_v6 k true))
            else (return_if v4_short drop >> ttl_and_decap offset_v4 false (decap_v4 k)))
        else (if protocol == ipproto_ipv6
            then (return_if v6_short drop >> ttl_and_decap offset_v6 true (decap_v6 k false))
            else λ _. fault)
    after_decap k action pass_up

  unfoldable pub process_encaped_gue_pckt : Bool → Bool → Prog Action
  unfolding ttl_and_decap after_decap
  process_encaped_gue_pckt is_ipv6 pass_up = do
    let offset_v6 = ipv6hdr_size + eth_hdr_size + udphdr_size
    let offset_v4 = iphdr_size + eth_hdr_size + udphdr_size
    v6_short ← gets (beyond (offset_v6 + 1))
    v4_short ← gets (beyond offset_v4)
    action ←
        if is_ipv6
        then (do
          return_if v6_short drop
          marker ← load8 offset_v6
          let v6 = not (bit_and marker guev1_ipv6mask == 0)
          ttl_and_decap offset_v6 v6 (gue_decap_v6 k (not v6)))
        else (return_if v4_short drop >> ttl_and_decap offset_v4 false (gue_decap_v4 k))
    after_decap k action pass_up
