-- ===== src/Icmp/Parse.antt =====
-- katran/lib/bpf/handle_icmp.h: what is done with an ICMP message to a VIP. `none` is
-- FURTHER_PROCESSING.
use katran.Base.{ℕ, ◌+◌, ◌%◌, not, Option, none, some, if◌then◌else◌, ◌==◌, ◌&&◌, bit_or}
use katran.Consts.{
  f_icmp, icmp_echo, icmp_dest_unreach, icmpv6_echo_request, icmpv6_pkt_toobig, icmpv6_dest_unreach,
}
use katran.Xdp.Layout.{iphdr_size, ipv6hdr_size, icmphdr_size, icmp6hdr_size}
use katran.Structs.{Address}
use katran.Run.{
  Action, drop, pass, State, Prog, pure, gets, modify, ◌>>=◌, ◌>>◌, beyond, load8, load32,
  load_address,
}
use katran.Icmp.Reply.{send_icmp_reply, send_icmp6_reply}

-- `flow.proto = proto; flags |= F_ICMP;` and the addresses of the quoted packet, turned round.
abbrev pub quoted_flow : ℕ → Address → Address → State → State
quoted_flow proto src dst s = record s {
  pckt = record s.pckt {
    flow = record s.pckt.flow { src = src; dst = dst; proto = proto };
    flags = bit_or s.pckt.flags f_icmp;
  };
}

unfoldable pub parse_icmpv6 : ℕ → Prog (Option Action)
unfolding load8 load_address
parse_icmpv6 off = do
  too_short ← gets (beyond (off + icmp6hdr_size))
  if too_short then pure (some drop) else do
    icmp6_type ← load8 off
    if icmp6_type == icmpv6_echo_request
        then (do a ← send_icmp6_reply; pure (some a))
        else if not (icmp6_type == icmpv6_pkt_toobig) && not (icmp6_type == icmpv6_dest_unreach)
        then pure (some pass)
        else do
          let ip6h = off + icmp6hdr_size
          cut_short ← gets (beyond (ip6h + ipv6hdr_size))
          if cut_short then pure (some drop) else do
            nexthdr ← load8 (ip6h + 6)
            daddr ← load_address (ip6h + 24)
            saddr ← load_address (ip6h + 8)
            modify (quoted_flow nexthdr daddr saddr)
            pure none

-- The IPv4 address is the first word of the union.
unfoldable pub parse_icmp : ℕ → Prog (Option Action)
unfolding load8 load32
parse_icmp off = do
  too_short ← gets (beyond (off + icmphdr_size))
  if too_short then pure (some drop) else do
    type ← load8 off
    if type == icmp_echo
        then (do a ← send_icmp_reply; pure (some a))
        else if not (type == icmp_dest_unreach)
        then pure (some pass)
        else do
          let iph = off + icmphdr_size
          cut_short ← gets (beyond (iph + iphdr_size))
          if cut_short then pure (some drop) else do
            version_ihl ← load8 iph
            if not (version_ihl % 16 == 5) then pure (some drop) else do
              protocol ← load8 (iph + 9)
              daddr ← load32 (iph + 16)
              saddr ← load32 (iph + 12)
              modify (λ s.
                  quoted_flow protocol (record s.pckt.flow.src { w0 = daddr })
                    (record s.pckt.flow.dst { w0 = saddr }) s)
              pure none
