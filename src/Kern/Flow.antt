-- ===== src/Kern/Flow.antt =====
-- The flow of a packet: katran/lib/bpf/balancer_kern.c's process_l3_headers, the handling of ICMP
-- and the parsing of ports together.
use katran.Base.{◌%◌, ◌≤◌, ◌<◌, ◌≡◌, arith, true, false, Bool, bit_and}
use katran.Consts.{ipproto_icmp, ipproto_udp, ipproto_tcp, icmp_dest_unreach, pckt_fragmented}
use katran.Xdp.{Xdp, u16_at, u32_at}
use katran.Structs.{FlowKey, zero_address, empty_description}
use katran.Run.{State, Prog, ◌>>◌, load8, load16, load32}
use katran.Run.Bounds.{Leaves}
use katran.Icmp.{parse_icmp}
use katran.Parsing.{parse_udp, parse_tcp, calc_offset}
use katran.Kern.L3.{process_l3_headers, l3_v4}

-- The flow of an IPv4 packet whose ports follow its header at 14.
abbrev pub direct_flow : Xdp → FlowKey
direct_flow x = record {
  src = record zero_address { w0 = u32_at x 26 };
  dst = record zero_address { w0 = u32_at x 30 };
  port0 = u16_at x 34;
  port1 = u16_at x 36;
  proto = x.byte 23;
}

-- A plain IPv4 header at 14.
pub record IsPlainV4 (x : Xdp) : Type 0 where
  pub no_options : x.byte 14 % 16 ≡ 5
  pub whole : bit_and (u16_at x 20) pckt_fragmented ≡ 0

-- `z` is an ICMP error that quotes a packet from the receiver of `x` to its sender.
pub record IsErrorAbout (x z : Xdp) : Type 0 where
  pub outer : IsPlainV4 z
  pub is_icmp : z.byte 23 ≡ ipproto_icmp
  pub is_unreachable : z.byte 34 ≡ icmp_dest_unreach
  pub no_quoted_options : z.byte 42 % 16 ≡ 5
  pub same_proto : z.byte 51 ≡ x.byte 23
  pub from_receiver : u32_at z 54 ≡ u32_at x 30
  pub to_sender : u32_at z 58 ≡ u32_at x 26
  pub from_port : u16_at z 62 ≡ u16_at x 36
  pub to_port : u16_at z 64 ≡ u16_at x 34

abbrev pub fresh : State → Xdp → State
fresh s x = record s { xdp = x; pckt = empty_description }

abbrev pub udp_flow : Prog Bool
udp_flow = process_l3_headers 14 false >> parse_udp false

udp_direct :
    (s : State) (x : Xdp)
    → 42 ≤ x.len
    → IsPlainV4 x
    → x.byte 23 ≡ ipproto_udp
    → Leaves (λ ok t. (ok ≡ true) × (t.pckt.flow ≡ direct_flow x)) (udp_flow (fresh s x))
unfolding process_l3_headers l3_v4 parse_udp calc_offset load8 load16 load32
udp_direct s x long plain udp = ground (arith, plain.no_options, plain.whole)

udp_quoted :
    (s : State) (x z : Xdp)
    → 70 ≤ z.len
    → x.byte 23 ≡ ipproto_udp
    → IsErrorAbout x z
    → Leaves (λ ok t. (ok ≡ true) × (t.pckt.flow ≡ direct_flow x)) (udp_flow (fresh s z))
unfolding process_l3_headers l3_v4 parse_udp calc_offset load8 load16 load32 parse_icmp
udp_quoted s x z long udp about = ground (arith, about.outer.no_options)

-- A UDP packet and an ICMP error that quotes an answer to it, both over IPv4: the parsing of each
-- succeeds, and gives the same flow, that of the sender's packet.
pub udp_error_flow :
    (s : State) (x z : Xdp)
    → 42 ≤ x.len
    → 70 ≤ z.len
    → IsPlainV4 x
    → x.byte 23 ≡ ipproto_udp
    → IsErrorAbout x z
    → Leaves (λ ok t. (ok ≡ true) × (t.pckt.flow ≡ direct_flow x)) (udp_flow (fresh s x))
      × Leaves (λ ok t. (ok ≡ true) × (t.pckt.flow ≡ direct_flow x)) (udp_flow (fresh s z))
udp_error_flow s x z long_x long_z plain udp about =
    (udp_direct s x long_x plain udp, udp_quoted s x z long_z udp about)

abbrev pub tcp_flow : Prog Bool
tcp_flow = process_l3_headers 14 false >> parse_tcp false

tcp_direct :
    (s : State) (x : Xdp)
    → 54 ≤ x.len
    → IsPlainV4 x
    → x.byte 23 ≡ ipproto_tcp
    → Leaves (λ ok t. (ok ≡ true) × (t.pckt.flow ≡ direct_flow x)) (tcp_flow (fresh s x))
unfolding process_l3_headers l3_v4 parse_tcp calc_offset load8 load16 load32
tcp_direct s x long plain tcp = ground (arith, plain.no_options, plain.whole)

tcp_quoted :
    (s : State) (x z : Xdp)
    → 82 ≤ z.len
    → x.byte 23 ≡ ipproto_tcp
    → IsErrorAbout x z
    → Leaves (λ ok t. (ok ≡ true) × (t.pckt.flow ≡ direct_flow x)) (tcp_flow (fresh s z))
unfolding process_l3_headers l3_v4 parse_tcp calc_offset load8 load16 load32 parse_icmp
tcp_quoted s x z long tcp about = ground (arith, about.outer.no_options)

-- A TCP packet and an ICMP error that quotes an answer to it with the whole of its TCP header, both
-- over IPv4: the parsing of each succeeds, and gives the same flow, that of the sender's packet.
pub tcp_error_flow :
    (s : State) (x z : Xdp)
    → 54 ≤ x.len
    → 82 ≤ z.len
    → IsPlainV4 x
    → x.byte 23 ≡ ipproto_tcp
    → IsErrorAbout x z
    → Leaves (λ ok t. (ok ≡ true) × (t.pckt.flow ≡ direct_flow x)) (tcp_flow (fresh s x))
      × Leaves (λ ok t. (ok ≡ true) × (t.pckt.flow ≡ direct_flow x)) (tcp_flow (fresh s z))
tcp_error_flow s x z long_x long_z plain tcp about =
    (tcp_direct s x long_x plain tcp, tcp_quoted s x z long_z tcp about)

-- An error that quotes a TCP header in part, down to the 8 bytes that every error quotes, is not
-- parsed, and the packet is left as it is.
pub tcp_error_cut :
    (s : State) (x z : Xdp)
    → 62 ≤ z.len
    → z.len < 82
    → x.byte 23 ≡ ipproto_tcp
    → IsErrorAbout x z
    → Leaves (λ ok t. (ok ≡ false) × (t.xdp ≡ z)) (tcp_flow (fresh s z))
unfolding process_l3_headers l3_v4 parse_tcp calc_offset load8 load16 load32 parse_icmp
tcp_error_cut s x z long short tcp about = ground (arith, about.outer.no_options)
