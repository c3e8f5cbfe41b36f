-- ===== src/Kern/FlowV6.antt =====
-- The flow of a packet over IPv6: katran/lib/bpf/balancer_kern.c's process_l3_headers, the handling
-- of ICMPv6 and the parsing of ports together.
use katran.Base.{ℕ, ◌+◌, ◌≤◌, ◌≡◌, ◌⊎◌, arith, true, Bool}
use katran.Consts.{ipproto_icmpv6, ipproto_udp, icmpv6_pkt_toobig, icmpv6_dest_unreach}
use katran.Xdp.{Xdp, u16_at, u32_at}
use katran.Structs.{Address, FlowKey}
use katran.Run.{State, Prog, ◌>>◌, load8, load16, load32, load_address}
use katran.Run.Bounds.{Leaves}
use katran.Icmp.{parse_icmpv6}
use katran.Parsing.{parse_udp, calc_offset}
use katran.Kern.L3.{process_l3_headers, l3_v6}
use katran.Kern.Flow.{fresh}

abbrev pub address_at : Xdp → ℕ → Address
address_at x i = record {
  w0 = u32_at x i;
  w1 = u32_at x (i + 4);
  w2 = u32_at x (i + 8);
  w3 = u32_at x (i + 12);
}

-- The flow of an IPv6 packet whose ports follow its header at 14.
abbrev pub direct_flow_v6 : Xdp → FlowKey
direct_flow_v6 x = record {
  src = address_at x 22;
  dst = address_at x 38;
  port0 = u16_at x 54;
  port1 = u16_at x 56;
  proto = x.byte 20;
}

-- `z` is an ICMPv6 error, Packet Too Big or Destination Unreachable, that quotes a packet from the
-- receiver of `x` to its sender.
pub record IsErrorAboutV6 (x z : Xdp) : Type 0 where
  pub is_icmp : z.byte 20 ≡ ipproto_icmpv6
  pub is_error : (z.byte 54 ≡ icmpv6_pkt_toobig) ⊎ (z.byte 54 ≡ icmpv6_dest_unreach)
  pub same_proto : z.byte 68 ≡ x.byte 20
  pub from_receiver : address_at z 70 ≡ address_at x 38
  pub to_sender : address_at z 86 ≡ address_at x 22
  pub from_port : u16_at z 102 ≡ u16_at x 56
  pub to_port : u16_at z 104 ≡ u16_at x 54

abbrev pub udp_flow_v6 : Prog Bool
udp_flow_v6 = process_l3_headers 14 true >> parse_udp true

udp_direct_v6 :
    (s : State) (x : Xdp)
    → 62 ≤ x.len
    → x.byte 20 ≡ ipproto_udp
    → Leaves (λ ok t. (ok ≡ true) × (t.pckt.flow ≡ direct_flow_v6 x)) (udp_flow_v6 (fresh s x))
unfolding process_l3_headers l3_v6 parse_udp calc_offset load8 load16 load32 load_address
udp_direct_v6 s x long udp = ground arith

udp_quoted_v6 :
    (s : State) (x z : Xdp)
    → 110 ≤ z.len
    → x.byte 20 ≡ ipproto_udp
    → IsErrorAboutV6 x z
    → Leaves (λ ok t. (ok ≡ true) × (t.pckt.flow ≡ direct_flow_v6 x)) (udp_flow_v6 (fresh s z))
unfolding process_l3_headers l3_v6 parse_udp calc_offset load8 load16 load32 load_address
    parse_icmpv6
udp_quoted_v6 s x z long udp about = ground (arith, about.is_error)

-- A UDP packet and an ICMPv6 error that quotes an answer to it, both over IPv6: the parsing of each
-- succeeds, and gives the same flow, that of the sender's packet.
pub udp_error_flow_v6 :
    (s : State) (x z : Xdp)
    → 62 ≤ x.len
    → 110 ≤ z.len
    → x.byte 20 ≡ ipproto_udp
    → IsErrorAboutV6 x z
    → Leaves (λ ok t. (ok ≡ true) × (t.pckt.flow ≡ direct_flow_v6 x)) (udp_flow_v6 (fresh s x))
      × Leaves (λ ok t. (ok ≡ true) × (t.pckt.flow ≡ direct_flow_v6 x)) (udp_flow_v6 (fresh s z))
udp_error_flow_v6 s x z long_x long_z udp about =
    (udp_direct_v6 s x long_x udp, udp_quoted_v6 s x z long_z udp about)
