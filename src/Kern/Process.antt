-- ===== src/Kern/Process.antt =====
-- katran/lib/bpf/balancer_kern.c: process_packet, stage by stage, and the entry point. A stage ends
-- the run where the source returns.
use katran.Base.{
  ℕ, Bool, true, false, not, Option, none, some, if◌then◌else◌, ◌==◌, ltb, ◌&&◌, ◌||◌, bpf_htons,
}
use katran.Consts.{
  Config, be_eth_p_ip, be_eth_p_ipv6, gue_dport, ipproto_ipip, ipproto_ipv6, ipproto_tcp,
  ipproto_udp, f_ipv6, f_hash_no_src_port, f_lru_bypass, f_quic_vip, f_hash_dport_only, f_syn_set,
  max_pckt_size, icmp_toobig_cntrs, lru_cntrs, quic_route_stats, fallback_lru_cntr, lru_miss_cntr,
}
use katran.Xdp.Layout.{eth_hdr_size}
use katran.Structs.{CtlValue, FlowKey, VipDefinition, VipMeta, RealDefinition, empty_description}
use katran.Run.{
  Action, drop, pass, tx, State, Prog, pure, gets, modify, return, return_if, or_return, ◌>>=◌,
  ◌>>◌, beyond, load16,
}
use katran.Kernel.{Kernel}
use katran.Parsing.{parse_tcp, parse_udp, parse_quic}
use katran.Icmp.{send_icmp_too_big}
use katran.Encap.{pckt_encap_v4, pckt_encap_v6}
use katran.Kern.L3.{process_l3_headers}
use katran.Kern.Stats.{add_counts, on_stats, on_reals_stats, need_stats, own}
use katran.Kern.Connections.{
  has, LruMap, per_cpu, fallback, with_real_index, get_packet_dst, connection_table_lookup,
}
use katran.Kern.Decap.{check_decap_dst, process_encaped_ipip_pckt, process_encaped_gue_pckt}

abbrev pub with_port0 : ℕ → State → State
with_port0 p s = record s { pckt = record s.pckt { flow = record s.pckt.flow { port0 = p } } }

abbrev pub with_port1 : ℕ → State → State
with_port1 p s = record s { pckt = record s.pckt { flow = record s.pckt.flow { port1 = p } } }

-- `vip`, which is zero where it is not written.
abbrev pub vip_of : FlowKey → Bool → VipDefinition
vip_of f is_ipv6 = record {
  vip = if is_ipv6 then f.dst else record { w0 = f.dst.w0; w1 = 0; w2 = 0; w3 = 0 };
  port = f.port1;
  proto = f.proto;
}

-- The VIP of the flow's port, or the one of all ports.
unfoldable pub find_vip : Bool → Prog VipMeta
find_vip is_ipv6 = do
  vip ← gets (λ s. vip_of s.pckt.flow is_ipv6)
  exact ← gets (λ s. s.maps.vip_map vip)
  elim exact [
    | some vip_info ↦ pure vip_info
    | none ↦ do
      any_port ← gets (λ s. s.maps.vip_map (record vip { port = 0 }))
      vip_info ← or_return any_port pass
      if not (has vip_info.flags f_hash_dport_only) then modify (with_port1 0) else pure tt
      pure vip_info
  ]

-- `none` is `dst == NULL`.
unfoldable pub route_quic : VipMeta → Bool → Prog (Option RealDefinition)
route_quic vip_info is_ipv6 = if not (has vip_info.flags f_quic_vip) then pure none else do
  need_stats (own quic_route_stats)
  real_index ← parse_quic is_ipv6
  real_pos ← gets (λ s. elim real_index [
    | none ↦ none
    | some r ↦ if ltb 0 r then s.maps.quic_mapping r else none
  ])
  elim real_pos [
    | none ↦ do on_stats (own quic_route_stats) (add_counts 1 0); pure none
    | some key ↦ do
      modify (with_real_index key)
      found ← gets (λ s. s.maps.reals key)
      dst ← or_return found drop
      on_stats (own quic_route_stats) (add_counts 0 1)
      pure (some dst)
  ]

module _ (c : Config) (k : Kernel) where
  -- The IPIP packets, which end here if the feature is on.
  unfoldable pub inline_ipip : Bool → Prog (Unit {0})
  inline_ipip is_ipv6 = do
    protocol ← gets (λ s. s.pckt.flow.proto)
    if c.inline_decap_ipip && (protocol == ipproto_ipip || protocol == ipproto_ipv6)
        then (do
          pass_up ← check_decap_dst is_ipv6
          action ← process_encaped_ipip_pckt k is_ipv6 protocol pass_up
          return action)
        else pure tt

  -- The GUE packets, which end here if the feature is on.
  unfoldable pub inline_gue : Bool → Prog (Unit {0})
  inline_gue is_ipv6 = do
    port1 ← gets (λ s. s.pckt.flow.port1)
    if c.inline_decap_gue && port1 == bpf_htons gue_dport
        then (do
          pass_up ← check_decap_dst is_ipv6
          action ← process_encaped_gue_pckt k is_ipv6 pass_up
          return action)
        else pure tt

  unfoldable pub parse_l4 : Bool → Prog (Unit {0})
  parse_l4 is_ipv6 = do
    protocol ← gets (λ s. s.pckt.flow.proto)
    if protocol == ipproto_tcp
        then (do ok ← parse_tcp is_ipv6; return_if (not ok) drop)
        else (if protocol == ipproto_udp
            then (do ok ← parse_udp is_ipv6; return_if (not ok) drop; inline_gue is_ipv6)
            else return pass)

  -- The test of the packet's size.
  unfoldable pub check_size : Bool → Prog (Unit {0})
  check_size is_ipv6 = do
    size ← gets (λ s. s.xdp.len)
    if not (ltb max_pckt_size size)
        then pure tt
        else if not c.icmp_toobig_generation
        then return drop
        else do
          need_stats (own icmp_toobig_cntrs)
          on_stats (own icmp_toobig_cntrs) (if is_ipv6 then add_counts 0 1 else add_counts 1 0)
          action ← send_icmp_too_big k is_ipv6 size
          return action

  -- `lru_map`
  unfoldable pub pick_lru : Prog LruMap
  pick_lru = do
    mapped ← gets (λ s. s.maps.lru_maps_mapping k.smp_processor_id)
    elim mapped [
      | some _ ↦ pure (per_cpu k.smp_processor_id)
      | none ↦ do
        need_stats (own fallback_lru_cntr)
        on_stats (own fallback_lru_cntr) (add_counts 1 0)
        pure fallback
    ]

  -- The counter of the packets that the connection table does not know.
  unfoldable pub count_miss : Prog (Unit {0})
  count_miss = do
    pckt ← gets (λ s. s.pckt)
    if not (pckt.flow.proto == ipproto_tcp) then pure tt else do
      need_stats (own lru_miss_cntr)
      on_stats (own lru_miss_cntr)
          (if has pckt.flags f_syn_set then add_counts 1 0 else add_counts 0 1)

  -- The lookup in the connection table, which SYN packets and some VIPs go without.
  unfoldable pub known_real : VipMeta → LruMap → Prog (Option RealDefinition)
  known_real vip_info lru_map = do
    pckt ← gets (λ s. s.pckt)
    if not (has pckt.flags f_syn_set) && not (has vip_info.flags f_lru_bypass)
        then connection_table_lookup k lru_map
        else pure none

  -- A packet that the connection table does not know.
  unfoldable pub new_real : VipMeta → Bool → LruMap → Prog RealDefinition
  new_real vip_info is_ipv6 lru_map = do
    count_miss
    found ← get_packet_dst k c vip_info is_ipv6 lru_map
    dst ← or_return found drop
    on_stats (own lru_cntrs) (add_counts 0 1)
    pure dst

  -- The block `if (!dst)`.
  unfoldable pub route_flow : VipMeta → Bool → Prog RealDefinition
  route_flow vip_info is_ipv6 = do
    if has vip_info.flags f_hash_no_src_port then modify (with_port0 0) else pure tt
    lru_map ← pick_lru
    known ← known_real vip_info lru_map
    elim known [ some dst ↦ pure dst | none ↦ new_real vip_info is_ipv6 lru_map ]

  unfoldable pub route : VipMeta → Bool → Prog RealDefinition
  route vip_info is_ipv6 = do
    quic_dst ← route_quic vip_info is_ipv6
    elim quic_dst [ some dst ↦ pure dst | none ↦ route_flow vip_info is_ipv6 ]

  unfoldable pub encap_for : CtlValue → RealDefinition → Bool → ℕ → Prog Bool
  encap_for cval dst is_ipv6 pkt_bytes =
      if has dst.flags f_ipv6
      then pckt_encap_v6 k c cval is_ipv6 dst pkt_bytes
      else pckt_encap_v4 k c cval dst pkt_bytes

  -- From the lookup of the router's MAC on.
  unfoldable pub send : VipMeta → RealDefinition → Bool → ℕ → Prog Action
  send vip_info dst is_ipv6 pkt_bytes = do
    ctl ← gets (λ s. s.maps.ctl_array 0)
    cval ← or_return ctl drop
    ok ← encap_for cval dst is_ipv6 pkt_bytes
    return_if (not ok) drop
    need_stats vip_info.vip_num
    on_stats vip_info.vip_num (add_counts 1 pkt_bytes)
    real_index ← gets (λ s. s.pckt.real_index)
    real_stats ← gets (λ s. s.maps.reals_stats real_index)
    or_return real_stats drop
    on_reals_stats real_index (add_counts 1 pkt_bytes)
    pure tx

  unfoldable pub process_packet : ℕ → Bool → Prog Action
  process_packet off is_ipv6 = do
    modify (λ s. record s { pckt = empty_description })
    pkt_bytes ← process_l3_headers off is_ipv6
    inline_ipip is_ipv6
    parse_l4 is_ipv6
    vip_info ← find_vip is_ipv6
    check_size is_ipv6
    need_stats (own lru_cntrs)
    on_stats (own lru_cntrs) (add_counts 1 0)
    dst ← route vip_info is_ipv6
    send vip_info dst is_ipv6 pkt_bytes

  unfoldable pub by_eth_proto : ℕ → Prog Action
  by_eth_proto eth_proto =
      if eth_proto == be_eth_p_ip
      then process_packet eth_hdr_size false
      else if eth_proto == be_eth_p_ipv6
      then process_packet eth_hdr_size true
      else pure pass

  unfoldable pub balancer_ingress : Prog Action
  balancer_ingress = do
    too_short ← gets (beyond eth_hdr_size)
    if too_short then pure drop else do eth_proto ← load16 12; by_eth_proto eth_proto
