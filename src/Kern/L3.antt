-- ===== src/Kern/L3.antt =====
-- katran/lib/bpf/balancer_kern.c: the IP header. Both end the run where the source returns an
-- action to a caller that returns it, and give `*pkt_bytes` on FURTHER_PROCESSING.
use katran.Base.{
  ℕ, ◌+◌, ◌%◌, Bool, not, if◌then◌else◌, ◌==◌, bit_and, bit_or, ◌<<<◌, ◌>>>◌, bpf_ntohs,
}
use katran.Consts.{ipproto_fragment, ipproto_icmp, ipproto_icmpv6, pckt_fragmented}
use katran.Xdp.Layout.{iphdr_size, ipv6hdr_size}
use katran.Structs.{Address}
use katran.Run.{
  drop, State, Prog, pure, gets, modify, return_if, return_action, ◌>>=◌, ◌>>◌, beyond, load8,
  load16, load32, load_address,
}
use katran.Icmp.{parse_icmp, parse_icmpv6}

abbrev pub with_proto : ℕ → ℕ → State → State
with_proto proto tos s = record s {
  pckt = record s.pckt { flow = record s.pckt.flow { proto = proto }; tos = tos };
}

abbrev pub with_addresses : Address → Address → State → State
with_addresses src dst s = record s {
  pckt = record s.pckt { flow = record s.pckt.flow { src = src; dst = dst } };
}

-- The traffic class, from `priority` and the upper half of `flow_lbl[0]`.
unfoldable pub tos_v6 : ℕ → ℕ → ℕ
tos_v6 b0 b1 = bit_or (bit_and ((b0 % 16) <<< 4) 0xf0) (bit_and (b1 >>> 4) 0x0f)

unfoldable pub l3_v6 : ℕ → Prog ℕ
unfolding load8 load16 load_address tos_v6
l3_v6 off = do
  too_short ← gets (beyond (off + ipv6hdr_size))
  return_if too_short drop
  protocol ← load8 (off + 6)
  b0 ← load8 off
  b1 ← load8 (off + 1)
  modify (with_proto protocol (tos_v6 b0 b1))
  payload_len ← load16 (off + 4)
  return_if (protocol == ipproto_fragment) drop
  if protocol == ipproto_icmpv6
      then (do action ← parse_icmpv6 (off + ipv6hdr_size); return_action action)
      else (do
        saddr ← load_address (off + 8)
        daddr ← load_address (off + 24)
        modify (with_addresses saddr daddr))
  pure (bpf_ntohs payload_len)

unfoldable pub l3_v4 : ℕ → Prog ℕ
unfolding load8 load16 load32
l3_v4 off = do
  too_short ← gets (beyond (off + iphdr_size))
  return_if too_short drop
  version_ihl ← load8 off
  return_if (not (version_ihl % 16 == 5)) drop
  tos ← load8 (off + 1)
  protocol ← load8 (off + 9)
  modify (with_proto protocol tos)
  tot_len ← load16 (off + 2)
  frag_off ← load16 (off + 6)
  return_if (not (bit_and frag_off pckt_fragmented == 0)) drop
  if protocol == ipproto_icmp
      then (do action ← parse_icmp (off + iphdr_size); return_action action)
      else (do
        saddr ← load32 (off + 12)
        daddr ← load32 (off + 16)
        modify (λ s.
            with_addresses (record s.pckt.flow.src { w0 = saddr })
              (record s.pckt.flow.dst { w0 = daddr }) s))
  pure (bpf_ntohs tot_len)

unfoldable pub process_l3_headers : ℕ → Bool → Prog ℕ
process_l3_headers off is_ipv6 = if is_ipv6 then l3_v6 off else l3_v4 off
