-- ===== src/Kern/Bounds.antt =====
-- The program touches no byte outside the packet.
use katran.Base.{
  ℕ, ◌≡◌, ◌≢◌, ◌⊎◌, arith, Bool, true, false, Bool-cases, inl, inr, ◌==◌, Option, none, some, refl,
}
use katran.Consts.{Config, f_ipv6, be_eth_p_ip, be_eth_p_ipv6, ipproto_ipip, ipproto_ipv6}
use katran.Structs.{CtlValue, VipMeta, RealDefinition}
use katran.Xdp.{put8, put16}
use katran.Xdp.Layout.{eth_hdr_size}
use katran.Run.{State, load8, load16, fault}
use katran.Run.Bounds.{KeepsLen, NoFault, NoFault-ne-fault}
use katran.Kernel.{Kernel}
use katran.Helpers.{decrement_ttl}
use katran.Parsing.Bounds.{parse_udp-KeepsLen, parse_tcp-KeepsLen, parse_quic-KeepsLen}
use katran.Icmp.Bounds.{parse_icmp-KeepsLen, parse_icmpv6-KeepsLen, send_icmp_too_big-NoFault}
use katran.Encap.{decap_v4, decap_v6, gue_decap_v4, gue_decap_v6}
use katran.Encap.Bounds.{pckt_encap_v4-NoFault, pckt_encap_v6-NoFault, decap_by-NoFault}
use katran.Kern.L3.{l3_v4, l3_v6, process_l3_headers}
use katran.Kern.Connections.{
  has, LruMap, get_packet_dst, connection_table_lookup, is_under_flood, lpm_lookup, ring_lookup,
  use_real, source_key, key_of, use_key, choose_dst, found_real,
}
use katran.Kern.Decap.{check_decap_dst, process_encaped_ipip_pckt, process_encaped_gue_pckt}
use katran.Kern.Process.{
  find_vip, route_quic, inline_ipip, inline_gue, parse_l4, check_size, pick_lru, count_miss,
  known_real, new_real, route_flow, route, encap_for, send, process_packet, by_eth_proto,
  balancer_ingress,
}

process_l3_headers-KeepsLen :
    (off : ℕ) (v6 : Bool) (s : State) → KeepsLen s.xdp.len (process_l3_headers off v6 s)
unfolding process_l3_headers l3_v4 l3_v6
process_l3_headers-KeepsLen off v6 s = grind (arith, parse_icmp-KeepsLen, parse_icmpv6-KeepsLen)

decrement_ttl-KeepsLen :
    (off : ℕ) (v6 : Bool) (s : State) → KeepsLen s.xdp.len (decrement_ttl off v6 s)
unfolding decrement_ttl put8 put16
decrement_ttl-KeepsLen off v6 s = ground arith

check_decap_dst-KeepsLen : (v6 : Bool) (s : State) → KeepsLen s.xdp.len (check_decap_dst v6 s)
unfolding check_decap_dst
check_decap_dst-KeepsLen v6 s = ground arith

module _ (k : Kernel) where
  process_encaped_ipip_pckt-NoFault :
      (v6 up : Bool) (p : ℕ) (s : State)
      → (p ≡ ipproto_ipip) ⊎ (p ≡ ipproto_ipv6)
      → NoFault (process_encaped_ipip_pckt k v6 p up s)
  unfolding process_encaped_ipip_pckt decap_v4 decap_v6
  process_encaped_ipip_pckt-NoFault v6 up p s h =
      grind (arith, decrement_ttl-KeepsLen, decap_by-NoFault)

  process_encaped_gue_pckt-NoFault :
      (v6 up : Bool) (s : State) → NoFault (process_encaped_gue_pckt k v6 up s)
  unfolding process_encaped_gue_pckt gue_decap_v4 gue_decap_v6 load8
  process_encaped_gue_pckt-NoFault v6 up s = grind (arith, decrement_ttl-KeepsLen, decap_by-NoFault)

find_vip-KeepsLen : (v6 : Bool) (s : State) → KeepsLen s.xdp.len (find_vip v6 s)
unfolding find_vip
find_vip-KeepsLen v6 s = ground arith

route_quic-KeepsLen :
    (vip : VipMeta) (v6 : Bool) (s : State) → KeepsLen s.xdp.len (route_quic vip v6 s)
unfolding route_quic
route_quic-KeepsLen vip v6 s = grind (arith, parse_quic-KeepsLen)

module _ (c : Config) (k : Kernel) where
  inline_ipip-KeepsLen : (v6 : Bool) (s : State) → KeepsLen s.xdp.len (inline_ipip c k v6 s)
  unfolding inline_ipip
  inline_ipip-KeepsLen v6 s =
      grind (arith, check_decap_dst-KeepsLen, process_encaped_ipip_pckt-NoFault)

  inline_gue-KeepsLen : (v6 : Bool) (s : State) → KeepsLen s.xdp.len (inline_gue c k v6 s)
  unfolding inline_gue
  inline_gue-KeepsLen v6 s =
      grind (arith, check_decap_dst-KeepsLen, process_encaped_gue_pckt-NoFault)

  parse_l4-KeepsLen : (v6 : Bool) (s : State) → KeepsLen s.xdp.len (parse_l4 c k v6 s)
  unfolding parse_l4
  parse_l4-KeepsLen v6 s =
      grind (arith, parse_tcp-KeepsLen, parse_udp-KeepsLen, inline_gue-KeepsLen)

  check_size-KeepsLen : (v6 : Bool) (s : State) → KeepsLen s.xdp.len (check_size c k v6 s)
  unfolding check_size
  check_size-KeepsLen v6 s = grind (arith, send_icmp_too_big-NoFault)

  connection_table_lookup-KeepsLen :
      (l : LruMap) (s : State) → KeepsLen s.xdp.len (connection_table_lookup k l s)
  unfolding connection_table_lookup found_real
  connection_table_lookup-KeepsLen l s = ground arith

  is_under_flood-KeepsLen : (s : State) → KeepsLen s.xdp.len (is_under_flood k s)
  unfolding is_under_flood
  is_under_flood-KeepsLen s = ground arith

  source_key-KeepsLen :
      (vip : VipMeta) (v6 flood : Bool) (s : State)
      → KeepsLen s.xdp.len (source_key k c vip v6 flood s)
  unfolding source_key lpm_lookup
  source_key-KeepsLen vip v6 flood s = ground arith

  key_of-KeepsLen :
      (vip : VipMeta) (v6 : Bool) (o : Option ℕ) (s : State)
      → KeepsLen s.xdp.len (key_of k vip v6 o s)
  unfolding key_of ring_lookup
  key_of-KeepsLen vip v6 none s = ground arith
  key_of-KeepsLen vip v6 (some key) s = refl

  use_key-KeepsLen :
      (vip : VipMeta) (l : LruMap) (flood : Bool) (now : ℕ) (found : Option ℕ) (s : State)
      → KeepsLen s.xdp.len (use_key k vip l flood now found s)
  unfolding use_key use_real
  use_key-KeepsLen vip l flood now none s = refl
  use_key-KeepsLen vip l flood now (some key) s = ground arith

  get_packet_dst-KeepsLen :
      (vip : VipMeta) (v6 : Bool) (l : LruMap) (s : State)
      → KeepsLen s.xdp.len (get_packet_dst k c vip v6 l s)
  unfolding get_packet_dst choose_dst
  get_packet_dst-KeepsLen vip v6 l s =
      grind (arith, is_under_flood-KeepsLen, source_key-KeepsLen, key_of-KeepsLen, use_key-KeepsLen)

  pick_lru-KeepsLen : (s : State) → KeepsLen s.xdp.len (pick_lru c k s)
  unfolding pick_lru
  pick_lru-KeepsLen s = ground arith

  count_miss-KeepsLen : (s : State) → KeepsLen s.xdp.len (count_miss c k s)
  unfolding count_miss
  count_miss-KeepsLen s = ground arith

  known_real-KeepsLen :
      (vip : VipMeta) (l : LruMap) (s : State) → KeepsLen s.xdp.len (known_real c k vip l s)
  unfolding known_real
  known_real-KeepsLen vip l s = grind (arith, connection_table_lookup-KeepsLen)

  new_real-KeepsLen :
      (vip : VipMeta) (v6 : Bool) (l : LruMap) (s : State)
      → KeepsLen s.xdp.len (new_real c k vip v6 l s)
  unfolding new_real
  new_real-KeepsLen vip v6 l s = grind (arith, count_miss-KeepsLen, get_packet_dst-KeepsLen)

  route_flow-KeepsLen :
      (vip : VipMeta) (v6 : Bool) (s : State) → KeepsLen s.xdp.len (route_flow c k vip v6 s)
  unfolding route_flow
  route_flow-KeepsLen vip v6 s =
      grind (arith, pick_lru-KeepsLen, known_real-KeepsLen, new_real-KeepsLen)

  route-KeepsLen : (vip : VipMeta) (v6 : Bool) (s : State) → KeepsLen s.xdp.len (route c k vip v6 s)
  unfolding route
  route-KeepsLen vip v6 s = grind (arith, route_quic-KeepsLen, route_flow-KeepsLen)

  encap_for-NoFault :
      (cval : CtlValue) (dst : RealDefinition) (v6 : Bool) (bytes : ℕ) (s : State)
      → NoFault (encap_for c k cval dst v6 bytes s)
  unfolding encap_for
  encap_for-NoFault cval dst v6 bytes s = elim (Bool-cases (has dst.flags f_ipv6)) [
    | inl e ↦ rw e (pckt_encap_v6-NoFault k cval dst bytes c v6 s)
    | inr e ↦ rw e (pckt_encap_v4-NoFault k cval dst bytes c s)
  ]

  send-NoFault :
      (vip : VipMeta) (dst : RealDefinition) (v6 : Bool) (bytes : ℕ) (s : State)
      → NoFault (send c k vip dst v6 bytes s)
  unfolding send
  send-NoFault vip dst v6 bytes s = grind (arith, encap_for-NoFault)

  process_packet-NoFault : (off : ℕ) (v6 : Bool) (s : State) → NoFault (process_packet c k off v6 s)
  unfolding process_packet
  process_packet-NoFault off v6 s = grind (
    arith, process_l3_headers-KeepsLen, inline_ipip-KeepsLen, parse_l4-KeepsLen, find_vip-KeepsLen,
    check_size-KeepsLen, route-KeepsLen, send-NoFault,
  )

  by_eth_proto-NoFault : (proto : ℕ) (s : State) → NoFault (by_eth_proto c k proto s)
  unfolding by_eth_proto
  by_eth_proto-NoFault proto s = elim (Bool-cases (proto == be_eth_p_ip)) [
    | inl e ↦ rw e (process_packet-NoFault eth_hdr_size false s)
    | inr n ↦ elim (Bool-cases (proto == be_eth_p_ipv6)) [
      | inl e ↦ rw (n, e) (process_packet-NoFault eth_hdr_size true s)
      | inr e ↦ rw (n, e) tt
    ]
  ]

  balancer_ingress-NoFault : (s : State) → NoFault (balancer_ingress c k s)
  unfolding balancer_ingress load16
  balancer_ingress-NoFault s = grind (arith, by_eth_proto-NoFault)

  -- Whatever the packet, the maps and the answers of the kernel: no run of the program reads or
  -- writes outside the packet, nor reads the variable `action` before it is set.
  pub balancer_ingress-ne-fault : (s : State) → balancer_ingress c k s ≢ fault
  balancer_ingress-ne-fault s e =
      NoFault-ne-fault (balancer_ingress c k s) (balancer_ingress-NoFault s) e
