-- ===== src/Icmp/TooBig.antt =====
-- katran/lib/bpf/handle_icmp.h: a packet over the maximum size is cut and sent back inside an
-- ICMP error.
use katran.Base.{ℕ, ◌+◌, ◌-◌, Bool, not, if◌then◌else◌, bpf_htons}
use katran.Consts.{
  max_pckt_size, default_ttl, icmp_toobig_size, icmp6_toobig_size, icmp_toobig_payload_size,
  icmp6_toobig_payload_size, icmp_dest_unreach, icmp_frag_needed, icmpv6_pkt_toobig, ipproto_icmp,
  ipproto_icmpv6,
}
use katran.Xdp.Layout.{eth_hdr_size, iphdr_size, ipv6hdr_size, icmphdr_size, icmp6hdr_size}
use katran.Run.{
  Action, drop, tx, Prog, pure, gets, ◌>>=◌, ◌>>◌, beyond, load16, load32, store8, store16, store32,
  write_bytes, memcpy, store_high, store_low,
}
use katran.Kernel.{Kernel, move}
use katran.Csum.{ipv4_csum, ipv6_csum, bswap32}

-- `swap_mac(data + 0, data + orig_eth)`; `eth_proto` is at 12.
unfoldable pub swap_mac : ℕ → Prog (Unit {0})
unfolding memcpy load16 store16
swap_mac orig_eth = do
  memcpy 6 orig_eth 6
  memcpy 0 (orig_eth + 6) 6
  eth_proto ← load16 (orig_eth + 12)
  store16 12 eth_proto

module _ (k : Kernel) where
  -- The message behind the new headers, from `if (data + (ICMP_TOOBIG_SIZE + headroom) > data_end)`
  -- on: the new IPv4 header at 14, the ICMP header at 34, the old IPv4 header at 42.
  unfoldable pub icmp4_too_big_message : Prog Action
  unfolding load32 store8 store16 store32 store_high store_low
  icmp4_too_big_message = do
    let headroom = iphdr_size + icmphdr_size
    too_short ← gets (beyond (icmp_toobig_size + headroom))
    if too_short then pure drop else do
      swap_mac headroom
      let iph = eth_hdr_size
      let icmp_hdr = iph + iphdr_size
      let orig_iph = icmp_hdr + icmphdr_size
      store8 icmp_hdr icmp_dest_unreach
      store8 (icmp_hdr + 1) icmp_frag_needed
      store16 (icmp_hdr + 6) (bpf_htons (max_pckt_size - eth_hdr_size))
      store16 (icmp_hdr + 2) 0
      icmp_csum ← ipv4_csum k icmp_hdr icmp_toobig_payload_size 0
      store16 (icmp_hdr + 2) icmp_csum
      store8 (iph + 8) default_ttl
      orig_saddr ← load32 (orig_iph + 12)
      store32 (iph + 16) orig_saddr
      orig_daddr ← load32 (orig_iph + 16)
      store32 (iph + 12) orig_daddr
      store_high iph 4
      store_low iph 5
      store8 (iph + 9) ipproto_icmp
      store8 (iph + 1) 0
      store16 (iph + 2) (bpf_htons (icmp_toobig_size + headroom - eth_hdr_size))
      store16 (iph + 10) 0
      csum ← ipv4_csum k iph iphdr_size 0
      store16 (iph + 10) csum
      pure tx

  unfoldable pub send_icmp4_too_big : Prog Action
  send_icmp4_too_big = do
    moved ← move (k.adjust_head_out (iphdr_size + icmphdr_size))
    if not moved then pure drop else icmp4_too_big_message

  -- The new IPv6 header at 14, the ICMPv6 header at 54, the old IPv6 header at 62.
  unfoldable pub icmp6_too_big_message : Prog Action
  unfolding store8 store16 store32 store_high store_low memcpy write_bytes bswap32
  icmp6_too_big_message = do
    let headroom = ipv6hdr_size + icmp6hdr_size
    too_short ← gets (beyond (icmp6_toobig_size + headroom))
    if too_short then pure drop else do
      swap_mac headroom
      let ip6h = eth_hdr_size
      let icmp6_hdr = ip6h + ipv6hdr_size
      let orig_ip6h = icmp6_hdr + icmp6hdr_size
      store_high ip6h 6
      store_low ip6h 0
      store8 (ip6h + 6) ipproto_icmpv6
      store8 (ip6h + 7) default_ttl
      store16 (ip6h + 4) (bpf_htons icmp6_toobig_payload_size)
      write_bytes (ip6h + 1) 3 (λ _. 0)
      memcpy (ip6h + 24) (orig_ip6h + 8) 16
      memcpy (ip6h + 8) (orig_ip6h + 24) 16
      store8 icmp6_hdr icmpv6_pkt_toobig
      store8 (icmp6_hdr + 1) 0
      store32 (icmp6_hdr + 4) (bswap32 (max_pckt_size - eth_hdr_size))
      store16 (icmp6_hdr + 2) 0
      csum ← ipv6_csum k icmp6_hdr icmp6_toobig_payload_size 0 ip6h
      store16 (icmp6_hdr + 2) csum
      pure tx

  unfoldable pub send_icmp6_too_big : Prog Action
  send_icmp6_too_big = do
    moved ← move (k.adjust_head_out (ipv6hdr_size + icmp6hdr_size))
    if not moved then pure drop else icmp6_too_big_message

  -- The caller has tested that `pckt_size` is over the sizes that are kept.
  unfoldable pub send_icmp_too_big : Bool → ℕ → Prog Action
  send_icmp_too_big is_ipv6 pckt_size = do
    let offset = pckt_size - (if is_ipv6 then icmp6_toobig_size else icmp_toobig_size)
    moved ← move (k.adjust_tail_in offset)
    if not moved then pure drop else if is_ipv6 then send_icmp6_too_big else send_icmp4_too_big
