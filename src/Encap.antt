-- ===== src/Encap.antt =====
-- katran/lib/bpf/pckt_encap.h: the packet for a real server is put into an outer packet, and an
-- outer packet is taken off.
pub mod Headers
pub mod Bounds
pub mod NoPass
pub mod Payload
pub mod Taken
pub mod RoundTrip
pub mod Outer
use katran.Base.{
  ℕ, ◌+◌, ◌*◌, ◌/◌, ◌%◌, ◌^◌, Bool, true, false, not, Option, none, some, if◌then◌else◌, ◌||◌,
  bit_and, bit_or, bit_xor, ◌<<<◌, ◌>>>◌, u16, u32, bpf_htons,
}
use katran.Consts.{
  Config, be_eth_p_ip, be_eth_p_ipv6, ipproto_ipv6, ipproto_ipip, ipproto_udp, ipip_v4_prefix,
  ipip_v6_prefix1, ipip_v6_prefix2, ipip_v6_prefix3, v4_src_index, v6_src_index, gue_dport,
  gue_csum,
}
use katran.Xdp.Layout.{eth_hdr_size, iphdr_size, ipv6hdr_size, udphdr_size}
use katran.Structs.{Address, CtlValue, PacketDescription, RealDefinition}
use katran.Run.{
  State, Prog, pure, gets, ◌>>=◌, ◌>>◌, beyond, store16, read_bytes, write_bytes, memcpy,
}
use katran.Kernel.{Kernel, move}
use katran.Csum.{bytes_of}
use Headers.{create_v4_hdr, create_v6_hdr, create_udp_hdr}

-- The new Ethernet header at 0: to the router's MAC, from the MAC that the packet came to, whose
-- old header is at `old_eth`.
unfoldable pub write_eth : CtlValue → ℕ → ℕ → Prog (Unit {0})
unfolding write_bytes memcpy store16
write_eth cval old_eth eth_proto = do
  write_bytes 0 6 (bytes_of cval.value)
  memcpy 6 old_eth 6
  store16 12 eth_proto

-- The old Ethernet header at 0 moves to `new_eth`, in front of the inner packet.
unfoldable pub move_eth : ℕ → ℕ → Prog (Unit {0})
unfolding memcpy store16
move_eth new_eth eth_proto = do
  memcpy (new_eth + 6) 6 6
  memcpy new_eth 0 6
  store16 (new_eth + 12) eth_proto

-- The outer source addresses of IPIP.
unfoldable pub ipip_v6_saddr : Bool → PacketDescription → Address
ipip_v6_saddr is_ipv6 pckt = record {
  w0 = ipip_v6_prefix1;
  w1 = ipip_v6_prefix2;
  w2 = ipip_v6_prefix3;
  w3 = bit_xor (if is_ipv6 then pckt.flow.src.w3 else pckt.flow.src.w0) pckt.flow.port0;
}

unfoldable pub ipip_v4_saddr : PacketDescription → ℕ
ipip_v4_saddr pckt =
    let ip_suffix = bit_xor (u32 (bpf_htons pckt.flow.port0 <<< 16)) pckt.flow.src.w0 in
    bit_or (bit_and 0xffff_0000 ip_suffix) ipip_v4_prefix

module _ (k : Kernel) where
  unfoldable pub encap_v6 : CtlValue → Bool → RealDefinition → ℕ → Prog Bool
  unfolding ipip_v6_saddr
  encap_v6 cval is_ipv6 dst pkt_bytes = do
    moved ← move (k.adjust_head_out ipv6hdr_size)
    if not moved then pure false else do
      new_short ← gets (beyond eth_hdr_size)
      old_short ← gets (beyond (ipv6hdr_size + eth_hdr_size))
      ip6h_short ← gets (beyond (eth_hdr_size + ipv6hdr_size))
      if new_short || (old_short || ip6h_short) then pure false else do
        write_eth cval ipv6hdr_size be_eth_p_ipv6
        pckt ← gets (λ s. s.pckt)
        let proto = if is_ipv6 then ipproto_ipv6 else ipproto_ipip
        let payload_len = u16 (if is_ipv6 then pkt_bytes + ipv6hdr_size else pkt_bytes)
        create_v6_hdr eth_hdr_size pckt.tos (ipip_v6_saddr is_ipv6 pckt) dst.dst payload_len proto
        pure true

  unfoldable pub encap_v4 : CtlValue → RealDefinition → ℕ → Prog Bool
  unfolding ipip_v4_saddr
  encap_v4 cval dst pkt_bytes = do
    moved ← move (k.adjust_head_out iphdr_size)
    if not moved then pure false else do
      new_short ← gets (beyond eth_hdr_size)
      old_short ← gets (beyond (iphdr_size + eth_hdr_size))
      iph_short ← gets (beyond (eth_hdr_size + iphdr_size))
      if new_short || (old_short || iph_short) then pure false else do
        write_eth cval iphdr_size be_eth_p_ip
        pckt ← gets (λ s. s.pckt)
        create_v4_hdr eth_hdr_size pckt.tos (ipip_v4_saddr pckt) dst.dst.w0 (u16 pkt_bytes)
            ipproto_ipip
        pure true

  -- The four of them: the inner packet begins `header` bytes behind the outer one.
  unfoldable pub decap_by : ℕ → ℕ → Prog Bool
  decap_by header eth_proto = do move_eth header eth_proto; move (k.adjust_head_in header)

  unfoldable pub decap_v6 : Bool → Prog Bool
  decap_v6 inner_v4 = decap_by ipv6hdr_size (if inner_v4 then be_eth_p_ip else be_eth_p_ipv6)

  unfoldable pub decap_v4 : Prog Bool
  decap_v4 = decap_by iphdr_size be_eth_p_ip

  unfoldable pub gue_decap_v4 : Prog Bool
  gue_decap_v4 = decap_by (iphdr_size + udphdr_size) be_eth_p_ip

  unfoldable pub gue_decap_v6 : Bool → Prog Bool
  gue_decap_v6 inner_v4 =
      decap_by (ipv6hdr_size + udphdr_size) (if inner_v4 then be_eth_p_ip else be_eth_p_ipv6)

  -- The UDP header at 34, behind the IPv4 header at 14.
  unfoldable pub gue_encap_v4_from : RealDefinition → CtlValue → RealDefinition → ℕ → Prog Bool
  gue_encap_v4_from src cval dst pkt_bytes = do
    pckt ← gets (λ s. s.pckt)
    let sport = bit_xor (bpf_htons pckt.flow.port0) (bit_and (pckt.flow.src.w0 >>> 16) 0xffff)
    moved ← move (k.adjust_head_out (iphdr_size + udphdr_size))
    if not moved then pure false else do
      let udph = eth_hdr_size + iphdr_size
      new_short ← gets (beyond eth_hdr_size)
      old_short ← gets (beyond (iphdr_size + udphdr_size + eth_hdr_size))
      iph_short ← gets (beyond (eth_hdr_size + iphdr_size))
      udph_short ← gets (beyond (udph + udphdr_size))
      if new_short || (old_short || (iph_short || udph_short)) then pure false else do
        write_eth cval (iphdr_size + udphdr_size) be_eth_p_ip
        create_udp_hdr udph sport gue_dport (u16 (pkt_bytes + udphdr_size)) gue_csum
        create_v4_hdr eth_hdr_size pckt.tos src.dst.w0 dst.dst.w0 (u16 (pkt_bytes + udphdr_size))
            ipproto_udp
        pure true

  unfoldable pub gue_encap_v4 : CtlValue → RealDefinition → ℕ → Prog Bool
  gue_encap_v4 cval dst pkt_bytes = do
    src ← gets (λ s. s.maps.pckt_srcs v4_src_index)
    elim src [ none ↦ pure false | some src ↦ gue_encap_v4_from src cval dst pkt_bytes ]

  -- The UDP header at 54, behind the IPv6 header at 14.
  unfoldable pub gue_encap_v6_from :
      RealDefinition → CtlValue → Bool → RealDefinition → ℕ → Prog Bool
  gue_encap_v6_from src cval is_ipv6 dst pkt_bytes = do
    moved ← move (k.adjust_head_out (ipv6hdr_size + udphdr_size))
    if not moved then pure false else do
      let udph = eth_hdr_size + ipv6hdr_size
      new_short ← gets (beyond eth_hdr_size)
      old_short ← gets (beyond (ipv6hdr_size + udphdr_size + eth_hdr_size))
      ip6h_short ← gets (beyond (eth_hdr_size + ipv6hdr_size))
      udph_short ← gets (beyond (udph + udphdr_size))
      if new_short || (old_short || (ip6h_short || udph_short)) then pure false else do
        write_eth cval (ipv6hdr_size + udphdr_size) be_eth_p_ipv6
        pckt ← gets (λ s. s.pckt)
        let bits =
            if is_ipv6
            then bit_and pckt.flow.src.w3 0xffff
            else bit_and (pckt.flow.src.w0 >>> 16) 0xffff
        let sport = bit_xor bits pckt.flow.port0
        let outer_bytes =
            u32 (
              if is_ipv6 then pkt_bytes + (ipv6hdr_size + udphdr_size) else pkt_bytes + udphdr_size)
        create_udp_hdr udph sport gue_dport (u16 outer_bytes) gue_csum
        create_v6_hdr eth_hdr_size pckt.tos src.dst dst.dst (u16 outer_bytes) ipproto_udp
        pure true

  unfoldable pub gue_encap_v6 : CtlValue → Bool → RealDefinition → ℕ → Prog Bool
  gue_encap_v6 cval is_ipv6 dst pkt_bytes = do
    src ← gets (λ s. s.maps.pckt_srcs v6_src_index)
    elim src [ none ↦ pure false | some src ↦ gue_encap_v6_from src cval is_ipv6 dst pkt_bytes ]

  -- The macros PCKT_ENCAP_V4 and PCKT_ENCAP_V6.
  unfoldable pub pckt_encap_v4 : Config → CtlValue → RealDefinition → ℕ → Prog Bool
  pckt_encap_v4 c = if c.gue_encap then gue_encap_v4 else encap_v4

  unfoldable pub pckt_encap_v6 : Config → CtlValue → Bool → RealDefinition → ℕ → Prog Bool
  pckt_encap_v6 c = if c.gue_encap then gue_encap_v6 else encap_v6
